-- ===== src/Linux/Ports.antt =====
-- What the look-ups of addresses make of the service name.
use proxy_server_sa.Base.{
  ℕ, ◌^◌, ◌<◌, ◌≡◌, refl, ap, true, false, none, some, List, ◌∷◌, arith, bit_or,
}
use proxy_server_sa.Base.Decimal.{decimal, to_string, stoi, stoi-to_string}
use proxy_server_sa.Base.Int.{ℤ, pos, is_negative, ◌==ℤ◌}
use proxy_server_sa.Linux.Info.{
  Lookup, ConnectionInfo, to_uint16, socket_to_address, with_options, get_socket_info,
}

-- A letter is no digit, no sign and no space.
stoi_letter : (c : ℕ) (cs : List ℕ) → 58 < c → stoi (c ∷ cs) ≡ none
unfolding stoi
stoi_letter c cs h = ground arith

pub port_read : (p : ℕ) → p < 2 ^ 16 → stoi (decimal p) ≡ some (pos p)
unfolding to_string
port_read p h = stoi-to_string (pos p) (omega arith)

pub to_uint16-pos : (p : ℕ) → p < 2 ^ 16 → to_uint16 (pos p) ≡ p
unfolding to_uint16
to_uint16-pos p h = omega arith

module _ (l : Lookup) where
  open l use {getpeername, getsockname, getnameinfo}

  -- `SocketToAddress` asks for a numeric host twice and never for a numeric service: where the
  -- system gives the service a name, which starts with a letter, the call ends in an exception.
  pub socket_to_address_throws :
      (fd : ℤ) (ip : List ℕ) (port c : ℕ) (cs : List ℕ)
      → is_negative (getpeername fd).0 ≡ false
      → (getnameinfo (getpeername fd).1 (bit_or l.ni_numerichost l.ni_numerichost)).0 ≡ pos 0
      → (getnameinfo (getpeername fd).1 (bit_or l.ni_numerichost l.ni_numerichost)).2 ≡ c ∷ cs
      → 58 < c
      → socket_to_address l fd ip port ≡ none
  unfolding socket_to_address
  socket_to_address_throws fd ip port c cs n r s h = rw (n, r, s, stoi_letter c cs h) refl

  -- What the system says of either end of the socket: two results, the host and the service.
  abbrev pub remote : ℤ → ℤ × ℤ × List ℕ × List ℕ
  remote fd =
      let (r, address) = getpeername fd in
      let (rc, host, serv) = getnameinfo address (bit_or l.ni_numerichost l.ni_numericserv) in
      (r, rc, host, serv)

  abbrev pub local : ℤ → ℤ × ℤ × List ℕ × List ℕ
  local fd =
      let (r, address) = getsockname fd in
      let (rc, host, serv) = getnameinfo address (bit_or l.ni_numerichost l.ni_numericserv) in
      (r, rc, host, serv)

  -- Where both ends of a socket are known and the services come as numbers below 2 ^ 16,
  -- `GetSocketInfo` returns true and fills in the socket and the hosts and ports of both ends.
  pub get_socket_info_ports :
      (fd : ℤ) (info : ConnectionInfo) (rhost lhost : List ℕ) (rport lport : ℕ)
      → remote fd ≡ (pos 0, pos 0, rhost, decimal rport)
      → local fd ≡ (pos 0, pos 0, lhost, decimal lport)
      → rport < 2 ^ 16
      → lport < 2 ^ 16
      → (after : ConnectionInfo) × (get_socket_info l fd info ≡ some (true, after))
        × (after.socket_id ≡ fd)
        × (after.source_ip ≡ rhost)
        × (after.source_port ≡ rport)
        × (after.local_ip ≡ lhost)
        × (after.local_port ≡ lport)
  unfolding get_socket_info
  get_socket_info_ports fd info rhost lhost rport lport r q hp hq = (
    with_options l fd (record info {
      socket_id = fd;
      source_ip = rhost;
      source_port = rport;
      is_ipv6 = l.ss_family (getpeername fd).1 ==ℤ l.af_inet6;
      info_available = true;
      local_ip = lhost;
      local_port = lport;
    }),
    rw
        (
          ap (λ (t : ℤ × ℤ × List ℕ × List ℕ). t.0) r,
          ap (λ (t : ℤ × ℤ × List ℕ × List ℕ). t.1) r,
          ap (λ (t : ℤ × ℤ × List ℕ × List ℕ). t.2) r,
          ap (λ (t : ℤ × ℤ × List ℕ × List ℕ). t.3) r,
          ap (λ (t : ℤ × ℤ × List ℕ × List ℕ). t.0) q,
          ap (λ (t : ℤ × ℤ × List ℕ × List ℕ). t.1) q,
          ap (λ (t : ℤ × ℤ × List ℕ × List ℕ). t.2) q,
          ap (λ (t : ℤ × ℤ × List ℕ × List ℕ). t.3) q,
          port_read rport hp,
          port_read lport hq,
          to_uint16-pos rport hp,
          to_uint16-pos lport hq,
        )
        refl,
    refl,
    refl,
    refl,
    refl,
    refl,
  )
