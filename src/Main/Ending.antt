-- ===== src/Main/Ending.antt =====
-- How the program ends on Linux.
use proxy_server_sa.Base.{
  ℕ, ◌≡◌, ◌<◌, inl, inr, false, true, some, List, Returns, Returns-bind, Option-cases,
}
use proxy_server_sa.Base.Int.{ℤ, is_positive, is_negative}
use proxy_server_sa.Config.{parse_config, Config}
use proxy_server_sa.Server.{Server}
use proxy_server_sa.Server.Loop.{run}
use proxy_server_sa.Linux.{linux}
use proxy_server_sa.Linux.Syscalls.{Kernel, Opens, Brings}
use proxy_server_sa.Linux.Running.{run_on_linux}
use proxy_server_sa.Main.{main}

-- On a Linux kernel that opens and closes descriptors as documented, that has less to bring than
-- there is fuel and rounds, and whose wait for events is interrupted, as by a signal, at the latest
-- when nothing is left to come, the program ends, whatever its arguments are, unless they ask for a
-- negative number of events, and leaves no descriptor above 0 open, if none was open at the start.
pub main_closes_all :
    (k : Kernel) (o : Opens k) (b : Brings k) (atoi : List ℕ → ℤ) (rounds fuel : ℕ)
    (arguments : List (List ℕ)) (poller0 : ℤ) (w : k.World) (fd : ℤ)
    → ((j : ℤ) → o.is_open w j ≡ false)
    → ((config : Config)
        → parse_config atoi arguments ≡ some config
        → is_negative config.max_events ≡ false)
    → is_positive fd ≡ true
    → b.supply w < rounds
    → b.supply w < fuel
    → Returns (λ v. o.is_open v fd ≡ false) (main (linux k) atoi rounds fuel arguments poller0 w)
unfolding main
main_closes_all k o b atoi rounds fuel arguments poller0 w fd none_open size p r f =
    elim (Option-cases (parse_config atoi arguments)) [
      | inl x ↦ rw (x, main) (none_open fd)
      | inr (config, x) ↦
          rw (x, main)
            (Returns-bind (λ (q : Server × k.World). o.is_open q.1 fd ≡ false)
              (λ v. o.is_open v fd ≡ false) (run (linux k) rounds fuel config poller0 w)
              (λ q. some q.1)
              (run_on_linux k o b rounds fuel config poller0 w fd none_open (size config x) p r f)
              (λ q h. h))
    ]
