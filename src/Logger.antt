-- ===== src/Logger.antt =====
-- core/logger/logger.h and logger.cc. The lock is left out, since there is one thread; the clock and
-- the file system are not modelled: each call is given the local time as `std::put_time` prints it,
-- and the constructor the file that it could open for appending.
pub mod Lines
mod Tests
use proxy_server_sa.Base.{ℕ, Bool, true, false, Option, none, some, List, ◌++◌, if◌then◌else◌}
use proxy_server_sa.Base.Text.{codes}

-- `Logger`, with what stands in its file, if that is open, and on the console.
pub record Logger : Type 0 where
  pub file : Option (List ℕ)
  pub console : List ℕ
  pub verbose_logging : Bool
  pub debug_logging : Bool
  pub write_to_console : Bool

-- `Logger(filename)`, where `console` is what the program has printed before.
unfoldable pub new_logger : Option (List ℕ) → List ℕ → Logger
new_logger file console = record {
  file = file;
  console = console;
  verbose_logging = true;
  debug_logging = false;
  write_to_console = true;
}

-- `"[" << ts.str() << "] [" << level << "] " << msg << "\n"`
unfoldable pub line : List ℕ → List ℕ → List ℕ → List ℕ
line time level msg = codes "[" ++ time ++ codes "] [" ++ level ++ codes "] " ++ msg ++ codes "\n"

-- The file after a line, if it is open.
unfoldable pub append_line : List ℕ → Option (List ℕ) → Option (List ℕ)
append_line l none = none
append_line l (some contents) = some (contents ++ l)

-- `write`
unfoldable pub write : List ℕ → List ℕ → List ℕ → Logger → Logger
unfolding line append_line
write time level msg l =
    let l1 = record l { file = append_line (line time level msg) l.file } in
    if l1.write_to_console then record l1 { console = l1.console ++ line time level msg } else l1

unfoldable pub debug : List ℕ → List ℕ → Logger → Logger
unfolding write
debug time msg l = if l.debug_logging then write time (codes "DEBUG") msg l else l

unfoldable pub info : List ℕ → List ℕ → Logger → Logger
unfolding write
info time msg l = if l.verbose_logging then write time (codes "INFO") msg l else l

unfoldable pub warning : List ℕ → List ℕ → Logger → Logger
unfolding write
warning time msg l = write time (codes "WARNING") msg l

unfoldable pub error : List ℕ → List ℕ → Logger → Logger
unfolding write
error time msg l = write time (codes "ERROR") msg l

unfoldable pub critical : List ℕ → List ℕ → Logger → Logger
unfolding write
critical time msg l = write time (codes "CRITICAL") msg l
