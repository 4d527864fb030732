-- ===== src/Logger/Lines.antt =====
-- What a sequence of calls of the logger leaves in the file and on the console.
use proxy_server_sa.Base.{
  ℕ, ◌≡◌, refl, ◌∙◌, ap, Option, none, some, List, [], ◌∷◌, ◌++◌, append_assoc, append-nil,
}
use proxy_server_sa.Base.Text.{codes}
use proxy_server_sa.Logger.{
  Logger, new_logger, line, append_line, write, debug, info, warning, error, critical,
}

-- A call of one of the five operations, with the time and the message.
pub data Call : Type 0 where
  of_debug of_info of_warning of_error of_critical : List ℕ → List ℕ → Call

unfoldable pub call : Call → Logger → Logger
unfolding debug info warning error critical
call (of_debug time msg) l = debug time msg l
call (of_info time msg) l = info time msg l
call (of_warning time msg) l = warning time msg l
call (of_error time msg) l = error time msg l
call (of_critical time msg) l = critical time msg l

unfoldable pub calls : List Call → Logger → Logger
unfolding call
calls [] l = l
calls (c ∷ cs) l = calls cs (call c l)

-- The lines that calls stand for: one each, but none for `debug`.
abbrev pub lines_of : List Call → List ℕ
lines_of [] = []
lines_of (of_debug time msg ∷ cs) = lines_of cs
lines_of (of_info time msg ∷ cs) = line time (codes "INFO") msg ++ lines_of cs
lines_of (of_warning time msg ∷ cs) = line time (codes "WARNING") msg ++ lines_of cs
lines_of (of_error time msg ∷ cs) = line time (codes "ERROR") msg ++ lines_of cs
lines_of (of_critical time msg ∷ cs) = line time (codes "CRITICAL") msg ++ lines_of cs

append_line-append :
    (xs ys : List ℕ) (file : Option (List ℕ))
    → append_line ys (append_line xs file) ≡ append_line (xs ++ ys) file
unfolding append_line
append_line-append xs ys none = refl
append_line-append xs ys (some contents) = rw (append_assoc contents xs ys) refl

append_line-nil : (file : Option (List ℕ)) → append_line [] file ≡ file
unfolding append_line
append_line-nil none = refl
append_line-nil (some contents) = ap (λ l. some l) (append-nil contents)

-- One line more, in front of those that follow.
one_more :
    (time level msg rest console : List ℕ) (file : Option (List ℕ))
    → new_logger
        (append_line rest (append_line (line time level msg) file))
        ((console ++ line time level msg) ++ rest)
      ≡ new_logger
          (append_line (line time level msg ++ rest) file)
          (console ++ (line time level msg ++ rest))
one_more time level msg rest console file =
    rw
      (
        append_line-append (line time level msg) rest file,
        append_assoc console (line time level msg) rest,
      )
      refl

-- After any sequence of calls on a new logger the console has gained one line for each call but those
-- of `debug`, in the order of the calls, each with its time, its level and its message; the file has
-- gained the same if it could be opened, and is not written otherwise; and the settings are still
-- those of a new logger.
pub calls-lines :
    (cs : List Call) (file : Option (List ℕ)) (console : List ℕ)
    → calls cs (new_logger file console)
      ≡ new_logger (append_line (lines_of cs) file) (console ++ lines_of cs)
unfolding calls call debug info warning error critical write new_logger
calls-lines [] file console = rw (append_line-nil file, append-nil console) refl
calls-lines (of_debug time msg ∷ cs) file console = calls-lines cs file console
calls-lines (of_info time msg ∷ cs) file console =
    calls-lines cs (append_line (line time (codes "INFO") msg) file)
      (console ++ line time (codes "INFO") msg)
    ∙ one_more time (codes "INFO") msg (lines_of cs) console file
calls-lines (of_warning time msg ∷ cs) file console =
    calls-lines cs (append_line (line time (codes "WARNING") msg) file)
      (console ++ line time (codes "WARNING") msg)
    ∙ one_more time (codes "WARNING") msg (lines_of cs) console file
calls-lines (of_error time msg ∷ cs) file console =
    calls-lines cs (append_line (line time (codes "ERROR") msg) file)
      (console ++ line time (codes "ERROR") msg)
    ∙ one_more time (codes "ERROR") msg (lines_of cs) console file
calls-lines (of_critical time msg ∷ cs) file console =
    calls-lines cs (append_line (line time (codes "CRITICAL") msg) file)
      (console ++ line time (codes "CRITICAL") msg)
    ∙ one_more time (codes "CRITICAL") msg (lines_of cs) console file
