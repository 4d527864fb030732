-- ===== src/Socks4/Request.antt =====
-- A whole request in the receive buffer.
use proxy_server_sa.Base.{
  ℕ, suc, ◌+◌, ◌*◌, ◌%◌, ◌^◌, ◌<◌, ◌≡◌, ◌≢◌, refl, Bool, true, ◌&&◌, List, [], ◌∷◌, ◌++◌, arith,
  ◌==◌, if◌then◌else◌, length, length-append, drop, take-append, All, bit_and, bit_or, append_assoc,
}
use proxy_server_sa.Base.Bits.{bit_and_ones, bit_or_disjoint}
use proxy_server_sa.Base.Int.{ℤ}
use proxy_server_sa.Net.{Network}
use proxy_server_sa.Protocol.{Socks4, init, established, failed}
use proxy_server_sa.Connection.{Connection}
use proxy_server_sa.Socks4.{
  Peer, user_length, end_of_user, with_destination, status_of, reply, take_request,
  on_readable_init, on_readable_in, on_readable,
}

-- A SOCKS4 request as RFC-style text: version, command, port, address, user and a zero byte.
unfoldable pub request : ℕ → ℕ → ℕ → ℕ → ℕ → ℕ → ℕ → ℕ → List ℕ → List ℕ
request version command hi lo a b c d user =
    version ∷ command ∷ hi ∷ lo ∷ a ∷ b ∷ c ∷ d ∷ (user ++ 0 ∷ [])

abbrev pub NonZero : ℕ → Type 0
NonZero b = b ≢ 0

user_length-request :
    (user rest : List ℕ) → All NonZero user → user_length (user ++ 0 ∷ rest) ≡ length user
unfolding user_length
user_length-request [] rest h = refl
user_length-request (b ∷ bs) rest h = ground (arith, user_length-request bs rest h.1)

drop-user : (user rest : List ℕ) → drop (suc (length user)) (user ++ 0 ∷ rest) ≡ rest
drop-user [] rest = refl
drop-user (b ∷ bs) rest = drop-user bs rest

port_of_bytes : (hi lo : ℕ) → hi < 256 → lo < 256 → bit_or (hi * 2 ^ 8) lo % 2 ^ 16 ≡ hi * 256 + lo
port_of_bytes hi lo h l = omega (arith, bit_or_disjoint 8 hi lo l)

low_byte : (n : ℕ) → bit_and n 0xff ≡ n % 256
low_byte n = bit_and_ones 8 n 255 refl

module _ (net : Network) where
  open net use {World, update_event_interest}

  module _ (version command hi lo a b c d : ℕ) (user rest : List ℕ) where
    -- The same bytes with what follows them, bracketed to the right.
    abbrev received : List ℕ
    received = version ∷ command ∷ hi ∷ lo ∷ a ∷ b ∷ c ∷ d ∷ (user ++ 0 ∷ rest)

    abbrev granted : Bool
    granted = (version == 4) && (command == 1)

    abbrev pub parsed : Socks4 → Socks4
    parsed p = record p {
      state = if granted then established else failed;
      destination_port = hi * 256 + lo;
      destination_ip = a ∷ b ∷ c ∷ d ∷ [];
      user_id = user;
    }

    abbrev pub answered : Connection → Connection
    answered self = record self {
      receive_buffer = rest;
      send_buffer =
          self.send_buffer ++ 0 ∷ (if granted then 0x5a else 0x5b) ∷ hi ∷ lo ∷ a ∷ b ∷ c ∷ d ∷ [];
      want_write = true;
      closed = if granted then self.closed else true;
    }

    status_received : status_of received ≡ (if granted then 0x5a else 0x5b)
    unfolding status_of
    status_received = ground arith

    reply_bytes :
        (status : ℕ)
        → hi < 256
        → lo < 256
        → reply status (hi * 256 + lo) (a ∷ b ∷ c ∷ d ∷ [])
          ≡ 0 ∷ status ∷ hi ∷ lo ∷ a ∷ b ∷ c ∷ d ∷ []
    unfolding reply
    reply_bytes status h l = ground (arith, low_byte (hi * 256 + lo))

    drop-received : drop (suc (8 + length user)) received ≡ rest
    drop-received =
        let e : 8 + length user ≡ suc (suc (suc (suc (suc (suc (suc (suc (length user)))))))) =
          omega arith in
        rw e (drop-user user rest)

    take_received :
        (p : Socks4) (self : Connection)
        → All NonZero user
        → hi < 256
        → lo < 256
        → take_request (with_destination received p) (record self { receive_buffer = received })
          ≡ (parsed p, answered self)
    unfolding take_request with_destination status_of
    take_received p self u h l =
        rw
          (
            user_length-request user rest u,
            take-append user (0 ∷ rest),
            drop-received,
            port_of_bytes hi lo h l,
          )
          (ground (arith, status_received, reply_bytes 0x5a h l, reply_bytes 0x5b h l))

    -- In the initial state a request that has come whole, with a port of two bytes and a user
    -- without a zero byte, is answered and consumed: the port, the address and the user are read
    -- off, the bytes behind the request stay in the receive buffer, the reply repeats port and
    -- address behind 0x5a if version and command are 4 and 1, and behind 0x5b otherwise; in that case
    -- the connection is also marked as closed.
    pub on_readable-request :
        (p : Socks4) (self : Connection) (peer : Peer) (poller : ℤ) (w : World)
        → p.state ≡ init
        → All NonZero user
        → hi < 256
        → lo < 256
        → on_readable net p
            (record self { receive_buffer = request version command hi lo a b c d user ++ rest })
            peer
            poller
            w
          ≡ (parsed p, answered self, peer, (update_event_interest poller self.id true true w).1)
    unfolding on_readable on_readable_in on_readable_init request end_of_user
    on_readable-request p self peer poller w e u h l =
        rw (e, append_assoc user (0 ∷ []) rest)
          (ground (
            arith,
            length-append user (0 ∷ rest),
            user_length-request user rest u,
            take_received p self u h l,
          ))
