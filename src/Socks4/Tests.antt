-- ===== src/Socks4/Tests.antt =====
-- SOCKS4 at concrete inputs.
use proxy_server_sa.Base.{◌≡◌, ◌↔◌, refl, inl, false, none, [], ◌∷◌, ◌++◌, arith}
use proxy_server_sa.Base.Int.{pos, minus_one}
use proxy_server_sa.Net.Sim.{sim, idle}
use proxy_server_sa.Protocol.{Socks4, init, established}
use proxy_server_sa.Connection.{Connection, client, upstream}
use proxy_server_sa.Socks4.{null, on_readable}
use proxy_server_sa.Socks4.Request.{request, parsed, answered, on_readable-request}
use proxy_server_sa.Socks4.Fragments.{on_readable-fragment}
use proxy_server_sa.Socks4.States.{IsGranted, on_readable-IsGranted_iff}

abbrev fresh : Socks4
fresh = record {
  state = init;
  destination_port = 0;
  destination_ip = 0 ∷ 0 ∷ 0 ∷ 0 ∷ [];
  user_id = [];
}

abbrev open_tunnel : Socks4
open_tunnel = record fresh { state = established }

abbrev browser : Connection
browser = record {
  id = pos 5;
  role = client;
  peer_socket_id = minus_one;
  receive_buffer = 4 ∷ 1 ∷ 0 ∷ 80 ∷ 93 ∷ [];
  send_buffer = [];
  want_write = false;
  closed = false;
  protocol = none;
}

abbrev remote : Connection
remote = record browser { id = pos 6; role = upstream; receive_buffer = [] }

on_readable-request_example :
    on_readable sim fresh
      (record browser {
        receive_buffer = request 4 1 0 80 93 184 216 34 (b'a' ∷ b'b' ∷ []) ++ 7 ∷ [];
      })
      null
      (pos 4)
      idle
    ≡ (
      parsed sim 4 1 0 80 93 184 216 34 (b'a' ∷ b'b' ∷ []) (7 ∷ []) fresh,
      answered sim 4 1 0 80 93 184 216 34 (b'a' ∷ b'b' ∷ []) (7 ∷ []) browser,
      null,
      idle,
    )
on_readable-request_example =
    on_readable-request sim 4 1 0 80 93 184 216 34 (b'a' ∷ b'b' ∷ []) (7 ∷ []) fresh browser null
      (pos 4) idle refl (omega arith) (omega arith) (omega arith)

on_readable-fragment_example :
    let (p', self', peer', w') = on_readable sim fresh browser null (pos 4) idle in
    (p'.state ≡ init)
    × (self' ≡ browser)
    × (peer' ≡ null)
    × (w' ≡ idle)
    × (on_readable sim p'
          (record browser { receive_buffer = browser.receive_buffer ++ 1 ∷ [] })
          null
          (pos 4)
          idle
        ≡ on_readable sim fresh
            (record browser { receive_buffer = browser.receive_buffer ++ 1 ∷ [] })
            null
            (pos 4)
            idle)
on_readable-fragment_example =
    on_readable-fragment sim fresh browser (1 ∷ []) null (pos 4) idle refl (inl (omega arith))

on_readable-IsGranted_iff_example :
    ((on_readable sim fresh browser null (pos 4) idle).0.state ≡ established)
    ↔ IsGranted browser.receive_buffer
on_readable-IsGranted_iff_example =
    on_readable-IsGranted_iff sim fresh browser null (pos 4) idle refl
