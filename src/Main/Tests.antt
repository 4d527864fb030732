-- ===== src/Main/Tests.antt =====
-- The program on the small kernel of `Linux.Sim`, with an option that it knows.
use proxy_server_sa.Config.{Config, parse_config}
use proxy_server_sa.Base.{
  ℕ, ◌≡◌, refl, false, List, [], ◌∷◌, arith, length, Returns, some, Option, none, ap, sym,
}
use proxy_server_sa.Base.Int.{ℤ, pos, is_negative}
use proxy_server_sa.Base.Text.{codes}
use proxy_server_sa.Net.{PollEvent, event_readable}
use proxy_server_sa.Net.Sim.{Machine, idle}
use proxy_server_sa.Linux.{linux}
use proxy_server_sa.Linux.Sim.{sim_kernel, sim_opens, sim_brings}
use proxy_server_sa.Main.{main}
use proxy_server_sa.Main.Ending.{main_closes_all}

abbrev readable : ℤ → PollEvent
readable fd = record { fd = fd; mask = event_readable }

-- A client comes and sends two bytes.
abbrev visited : Machine
visited = record idle {
  waiting = 1;
  inbox = 4 ∷ 1 ∷ [];
  batches = (readable (pos 3) ∷ []) ∷ (readable (pos 5) ∷ []) ∷ [];
}

abbrev text_length : List ℕ → ℤ
text_length text = pos (length text)

abbrev arguments : List (List ℕ)
arguments = codes "--verbose" ∷ codes "--port" ∷ codes "9000" ∷ []

abbrev events_of : Option Config → ℤ
events_of none = pos 0
events_of (some config) = config.max_events

main_closes_all_example :
    Returns
      (λ v. sim_opens.is_open v (pos 5) ≡ false)
      (main (linux sim_kernel) text_length 6 6 arguments (pos 0) visited)
unfolding parse_config
main_closes_all_example =
    main_closes_all sim_kernel sim_opens sim_brings text_length 6 6 arguments (pos 0) visited
      (pos 5) (λ j. ground arith) (λ config e. ap (λ o. is_negative (events_of o)) (sym e)) refl
      (omega arith) (omega arith)

-- With `--help` nothing is opened.
help_does_nothing :
    main (linux sim_kernel) text_length 6 6 (codes "--help" ∷ []) (pos 0) visited ≡ some visited
unfolding main
help_does_nothing = refl
