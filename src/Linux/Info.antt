-- ===== src/Linux/Info.antt =====
-- core/os/linux/network_linux.cc: the look-ups of addresses, `SocketToAddress` and `GetSocketInfo`.
-- The event loop calls them for its log lines. `none` stands for an exception of `std::stoi`.
use proxy_server_sa.Base.{
  ℕ, ◌-◌, ◌%◌, ◌^◌, Bool, true, false, not, ◌&&◌, Option, some, List, [], if◌then◌else◌, bit_or,
  ◌>>=◌,
}
use proxy_server_sa.Base.Decimal.{stoi}
use proxy_server_sa.Base.Int.{ℤ, pos, negsuc, minus_one, is_negative, ◌==ℤ◌}

-- The calls that answer questions about a socket: each gives back its result and what it writes if
-- it succeeds.
pub record Lookup : Type 1 where
  pub Address : Type 0
  pub getpeername : ℤ → ℤ × Address
  pub getsockname : ℤ → ℤ × Address
  pub getnameinfo : Address → ℕ → ℤ × List ℕ × List ℕ
  pub getsockopt : ℤ → ℤ → ℤ → ℤ × ℤ
  pub ss_family : Address → ℤ
  pub af_inet6 : ℤ
  pub ni_numerichost : ℕ
  pub ni_numericserv : ℕ
  pub sol_socket : ℤ
  pub so_sndbuf : ℤ
  pub so_rcvbuf : ℤ
  pub so_keepalive : ℤ
  pub ipproto_tcp : ℤ
  pub tcp_nodelay : ℤ

pub record ConnectionInfo : Type 0 where
  pub socket_id : ℤ
  pub source_ip : List ℕ
  pub source_port : ℕ
  pub local_ip : List ℕ
  pub local_port : ℕ
  pub is_ipv6 : Bool
  pub info_available : Bool
  pub send_buffer_size : ℤ
  pub recv_buffer_size : ℤ
  pub keepalive_enabled : Bool
  pub tcp_nodelay : Bool

-- `ConnectionInfo info{};`
abbrev pub no_info : ConnectionInfo
no_info = record {
  socket_id = minus_one;
  source_ip = [];
  source_port = 0;
  local_ip = [];
  local_port = 0;
  is_ipv6 = false;
  info_available = false;
  send_buffer_size = pos 0;
  recv_buffer_size = pos 0;
  keepalive_enabled = false;
  tcp_nodelay = false;
}

-- `static_cast<uint16_t>`
unfoldable pub to_uint16 : ℤ → ℕ
to_uint16 (pos n) = n % 2 ^ 16
to_uint16 (negsuc n) = 2 ^ 16 - 1 - n % 2 ^ 16

module _ (l : Lookup) where
  open l use {Address, getpeername, getsockname, getnameinfo, getsockopt}

  -- `SocketToAddress`, with the two strings it would write to: the returned value and both after.
  unfoldable pub socket_to_address : ℤ → List ℕ → ℕ → Option (Bool × List ℕ × ℕ)
  unfolding to_uint16 stoi
  socket_to_address fd ip port =
      let (r, address) = getpeername fd in
      let (rc, host, serv) = getnameinfo address (bit_or l.ni_numerichost l.ni_numerichost) in
      if is_negative r
      then some (false, ip, port)
      else if not (rc ==ℤ pos 0)
      then some (false, ip, port)
      else (stoi serv >>= λ p. some (true, host, to_uint16 p))

  -- The remote address.
  unfoldable pub with_remote : ℤ → ConnectionInfo → Option ConnectionInfo
  unfolding to_uint16 stoi
  with_remote fd info =
      let (r, address) = getpeername fd in
      let (rc, host, serv) = getnameinfo address (bit_or l.ni_numerichost l.ni_numericserv) in
      if (r ==ℤ pos 0) && (rc ==ℤ pos 0)
      then (stoi serv >>= λ p. some (record info {
        source_ip = host;
        source_port = to_uint16 p;
        is_ipv6 = l.ss_family address ==ℤ l.af_inet6;
        info_available = true;
      }))
      else some info

  -- The local address.
  unfoldable pub with_local : ℤ → ConnectionInfo → Option ConnectionInfo
  unfolding to_uint16 stoi
  with_local fd info =
      let (r, address) = getsockname fd in
      let (rc, host, serv) = getnameinfo address (bit_or l.ni_numerichost l.ni_numericserv) in
      if (r ==ℤ pos 0) && (rc ==ℤ pos 0)
      then (stoi serv >>= λ p. some (record info { local_ip = host; local_port = to_uint16 p }))
      else some info

  -- The options of the socket.
  unfoldable pub with_options : ℤ → ConnectionInfo → ConnectionInfo
  with_options fd info =
      let (sr, sndbuf) = getsockopt fd l.sol_socket l.so_sndbuf in
      let (rr, rcvbuf) = getsockopt fd l.sol_socket l.so_rcvbuf in
      let (kr, keepalive) = getsockopt fd l.sol_socket l.so_keepalive in
      let (nr, nodelay) = getsockopt fd l.ipproto_tcp l.tcp_nodelay in
      record info {
        send_buffer_size = if sr ==ℤ pos 0 then sndbuf else info.send_buffer_size;
        recv_buffer_size = if rr ==ℤ pos 0 then rcvbuf else info.recv_buffer_size;
        keepalive_enabled =
            if kr ==ℤ pos 0 then not (keepalive ==ℤ pos 0) else info.keepalive_enabled;
        tcp_nodelay = if nr ==ℤ pos 0 then not (nodelay ==ℤ pos 0) else info.tcp_nodelay;
      }

  -- `GetSocketInfo`: the returned value, and the record afterwards.
  unfoldable pub get_socket_info : ℤ → ConnectionInfo → Option (Bool × ConnectionInfo)
  unfolding with_remote with_local with_options
  get_socket_info fd info = do
    let start = record info { socket_id = fd }
    remote ← with_remote fd start
    both ← with_local fd remote
    some (both.info_available, with_options fd both)
