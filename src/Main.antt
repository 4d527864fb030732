-- ===== src/Main.antt =====
-- server/main.cc: the whole program, from its arguments to its end.
pub mod Ending
mod Tests
use proxy_server_sa.Base.{ℕ, Option, none, some, List, ◌>>=◌}
use proxy_server_sa.Base.Int.{ℤ}
use proxy_server_sa.Net.{Network}
use proxy_server_sa.Config.{parse_config}
use proxy_server_sa.Server.Loop.{run}

-- `main`, whose `proxy` starts with `poller0` in the member that has no initialiser. Where
-- `ParseConfig` exits, nothing has been done.
unfoldable pub main :
    (net : Network) → (List ℕ → ℤ) → ℕ → ℕ → List (List ℕ) → ℤ → net.World → Option net.World
unfolding parse_config run
main net atoi rounds fuel arguments poller0 w = elim (parse_config atoi arguments) [
  | none ↦ some w
  | some config ↦ (run net rounds fuel config poller0 w >>= λ r. some r.1)
]
