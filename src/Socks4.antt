-- ===== src/Socks4.antt =====
-- core/protocol/socks4.cc: the SOCKS4 request and the tunnel behind it.
pub mod Request
pub mod States
pub mod Fragments
mod Tests
use proxy_server_sa.Base.{
  ℕ, suc, ◌+◌, ◌*◌, ◌/◌, ◌%◌, ◌^◌, Bool, true, false, not, ◌||◌, Option, none, some, List, [], ◌∷◌,
  ◌++◌, ltb, ◌==◌, if◌then◌else◌, length, take, drop, get_or, is_empty, bit_and, bit_or,
}
use proxy_server_sa.Base.Int.{ℤ}
use proxy_server_sa.Net.{Network}
use proxy_server_sa.Protocol.{Socks4, State, init, established, failed}
use proxy_server_sa.Connection.{Connection}

-- The pointer `peer`: null, the same object as `self`, or another one.
pub data Peer : Type 0 where
  null itself : Peer
  other : Connection → Peer

abbrev pub socks_version : ℕ
socks_version = 0x04

abbrev pub command_connect : ℕ
command_connect = 0x01

abbrev pub request_granted : ℕ
request_granted = 0x5a

abbrev pub request_failed : ℕ
request_failed = 0x5b

-- How many bytes stand before the first zero byte, or all of them: the loop over the user ID.
unfoldable pub user_length : List ℕ → ℕ
user_length [] = 0
user_length (b ∷ bs) = let rest = user_length bs in if b == 0 then 0 else suc rest

-- `idx` after that loop.
unfoldable pub end_of_user : List ℕ → ℕ
end_of_user buf = 8 + user_length (drop 8 buf)

-- The assignments to `destination_port_` and `destination_ip_`. The port is a `uint16_t`.
unfoldable pub with_destination : List ℕ → Socks4 → Socks4
with_destination buf p = record p {
  destination_port = bit_or (get_or buf 2 0 * 2 ^ 8) (get_or buf 3 0) % 2 ^ 16;
  destination_ip = take 4 (drop 4 buf);
}

unfoldable pub status_of : List ℕ → ℕ
status_of buf =
    if not (get_or buf 0 0 == socks_version) || not (get_or buf 1 0 == command_connect)
    then request_failed
    else request_granted

unfoldable pub reply : ℕ → ℕ → List ℕ → List ℕ
reply status port ip = 0x00 ∷ status ∷ (port / 2 ^ 8) % 2 ^ 8 ∷ bit_and port 0xff % 2 ^ 8 ∷ ip

-- A request with its terminator has come: the request leaves the receive buffer, the reply enters
-- the send buffer.
unfoldable pub take_request : Socks4 → Connection → Socks4 × Connection
unfolding status_of reply end_of_user
take_request p self =
    let buf = self.receive_buffer in
    let idx = end_of_user buf in
    let status = status_of buf in
    let granted = status == request_granted in
    (
      record p {
        user_id = take (user_length (drop 8 buf)) (drop 8 buf);
        state = if granted then established else failed;
      },
      record self {
        receive_buffer = drop (suc idx) buf;
        send_buffer = self.send_buffer ++ reply status p.destination_port p.destination_ip;
        want_write = true;
        closed = if granted then self.closed else true;
      },
    )

module _ (net : Network) where
  open net use {World, update_event_interest}

  unfoldable pub on_readable_init : Socks4 → Connection → ℤ → World → Socks4 × Connection × World
  unfolding with_destination take_request
  on_readable_init p self poller w =
      let buf = self.receive_buffer in
      let p1 = with_destination buf p in
      if ltb (length buf) 9
      then (p, self, w)
      else if end_of_user buf == length buf
      then (p1, self, w)
      else (
        (take_request p1 self).0,
        (take_request p1 self).1,
        (update_event_interest poller self.id true true w).1,
      )

  -- Data tunnelling: the bytes of `self` move to the send buffer of `peer`.
  unfoldable pub on_readable_established : Connection → Peer → ℤ → World → Connection × Peer × World
  on_readable_established self null poller w = (self, null, w)
  on_readable_established self itself poller w = (self, itself, w)
  on_readable_established self (other peer) poller w =
      if is_empty self.receive_buffer then (self, other peer, w) else (
        record self { receive_buffer = [] },
        other (record peer {
          send_buffer = peer.send_buffer ++ self.receive_buffer;
          want_write = true;
        }),
        (update_event_interest poller peer.id true true w).1,
      )

  -- `Socks4::OnReadable` on the state of the protocol.
  unfoldable pub on_readable_in :
      State → Socks4 → Connection → Peer → ℤ → World → Socks4 × Connection × Peer × World
  unfolding on_readable_init on_readable_established
  on_readable_in init p self peer poller w =
      let (p', self', w') = on_readable_init p self poller w in (p', self', peer, w')
  on_readable_in established p self peer poller w =
      let (self', peer', w') = on_readable_established self peer poller w in (p, self', peer', w')
  on_readable_in failed p self peer poller w = (p, self, peer, w)

  unfoldable pub on_readable :
      Socks4 → Connection → Peer → ℤ → World → Socks4 × Connection × Peer × World
  unfolding on_readable_in
  on_readable p self peer poller w = on_readable_in p.state p self peer poller w

  -- `Socks4::OnWritable`
  unfoldable pub on_writable :
      Socks4 → Connection → Peer → ℤ → World → Socks4 × Connection × Peer × World
  on_writable p self peer poller w = (p, self, peer, w)
