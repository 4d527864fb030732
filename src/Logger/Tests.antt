-- ===== src/Logger/Tests.antt =====
-- A few lines, with the debugging off.
use proxy_server_sa.Base.{ℕ, ◌≡◌, refl, some, List, [], ◌∷◌}
use proxy_server_sa.Base.Text.{codes}
use proxy_server_sa.Logger.{new_logger, line, append_line}
use proxy_server_sa.Logger.Lines.{Call, of_debug, of_info, of_error, calls, lines_of, calls-lines}

abbrev noon : List ℕ
noon = codes "2025-01-01 12:00:00"

abbrev session : List Call
session =
    of_info noon (codes "hello") ∷ of_debug noon (codes "unseen") ∷ of_error noon (codes "no") ∷ []

session_lines :
    lines_of session
    ≡ codes "[2025-01-01 12:00:00] [INFO] hello\n[2025-01-01 12:00:00] [ERROR] no\n"
unfolding line
session_lines = refl

calls-lines_example :
    calls session (new_logger (some []) [])
    ≡ new_logger (append_line (lines_of session) (some [])) (lines_of session)
calls-lines_example = calls-lines session (some []) []
