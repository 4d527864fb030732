-- ===== src/Server/ClosingTests.antt =====
-- A tunnel whose upstream side closes, on the small machine of `Net.Sim`.
use proxy_server_sa.Base.{
  ℕ, zero, suc, ◌≡◌, refl, false, none, some, List, [], ◌∷◌, ◌++◌, arith, length, take, Returns,
}
use proxy_server_sa.Base.Int.{ℤ, pos, is_positive}
use proxy_server_sa.Base.Map.{find}
use proxy_server_sa.Net.{Network}
use proxy_server_sa.Net.Laws.{Streams}
use proxy_server_sa.Net.Sim.{Machine, sim, idle}
use proxy_server_sa.Net.SimLaws.{send_some, send_none}
use proxy_server_sa.Protocol.{Socks4, as_socks4, established, new_socks4}
use proxy_server_sa.Connection.{Connection, ConnectionMap, client, upstream, new_connection}
use proxy_server_sa.Server.{Turn}
use proxy_server_sa.Server.Steps.{on_event_readable}
use proxy_server_sa.Server.Closing.{last_bytes_lost}

-- Where nothing is left the stream has ended.
abbrev end_by : List ℕ → Machine → ℤ × List ℕ × Machine
end_by [] w = (pos 0, [], w)
end_by (b ∷ bs) w = (pos 1, b ∷ [], record w { inbox = bs })

end_some :
    (bs : List ℕ) (w : Machine) (m : ℕ)
    → w.inbox ≡ bs
    → (end_by bs w).0 ≡ pos (suc m)
    → (length (take (suc m) (end_by bs w).1) ≡ suc m)
      × (w.inbox ≡ take (suc m) (end_by bs w).1 ++ (end_by bs w).2.inbox)
end_some [] w m e h = ground arith
end_some (b ∷ bs) w zero e h = (refl, e)
end_some (b ∷ bs) w (suc m) e h = ground arith

end_none :
    (bs : List ℕ) (w : Machine)
    → is_positive (end_by bs w).0 ≡ false
    → (end_by bs w).2.inbox ≡ w.inbox
end_none [] w h = refl
end_none (b ∷ bs) w h = ground arith

end_zero :
    (bs : List ℕ) (w : Machine) → is_positive (end_by bs w).0 ≡ false → (end_by bs w).0 ≡ pos 0
end_zero [] w h = refl
end_zero (b ∷ bs) w h = ground arith

abbrev ending : Network
ending = record sim { receive = λ fd n w. end_by w.inbox w }

abbrev ending_streams : Streams ending
ending_streams = record {
  pending = λ w fd. w.inbox;
  sent = λ w fd. w.outbox;
  receive_some = λ fd n w m h. end_some w.inbox w m refl h;
  receive_none = λ fd n w h. end_none w.inbox w h;
  send_some = λ fd bytes w m h. send_some bytes w m h;
  send_none = λ fd bytes w h. send_none bytes w h;
}

abbrev tunnelled : Socks4
tunnelled = record new_socks4 { state = established }

abbrev near : Connection
near = record (new_connection (pos 5) client) {
  peer_socket_id = pos 6;
  protocol = some (as_socks4 tunnelled);
}

abbrev far : Connection
far = record (new_connection (pos 6) upstream) { peer_socket_id = pos 5 }

abbrev tunnel : ConnectionMap
tunnel = (pos 5, near) ∷ (pos 6, far) ∷ []

-- Three bytes of an answer, and then the end.
abbrev answering : Machine
answering = record idle { inbox = 1 ∷ 2 ∷ 3 ∷ [] }

last_bytes_lost_example :
    Returns
      (λ (r : Turn × Machine).
        (find (pos 6) r.0.connections ≡ none)
        × (find (pos 5) r.0.connections ≡ find (pos 5) tunnel))
      (on_event_readable ending 4 (pos 4) (pos 6) (some (pos 5)) tunnel far answering)
unfolding new_connection find
last_bytes_lost_example =
    last_bytes_lost ending ending_streams 4 (pos 4) (pos 6) (pos 5) (some (pos 5)) tunnel far
      answering refl (omega arith) (λ v h. end_zero v.inbox v h) refl refl
