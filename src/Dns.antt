-- ===== src/Dns.antt =====
-- core/dns.h with core/os/linux/dns_linux.cc, core/os/macos/dns_macos.cc and
-- core/os/windows/dns_windows.cc: the addresses of a host. What the system's library answers is a
-- parameter; its log lines are left out.
pub mod Results
mod Tests
use proxy_server_sa.Base.{
  ℕ, Bool, true, false, Option, none, some, List, [], ◌∷◌, ◌++◌, take, if◌then◌else◌,
}

-- `ai_family`
pub data Family : Type 0 where
  af_inet : Family
  af_inet6 : Family
  af_other : ℕ → Family

-- An entry of the list of `getaddrinfo`, with the bytes of `sin_addr` or `sin6_addr`.
pub record AddrInfo : Type 0 where
  pub ai_family : Family
  pub address : List ℕ

-- `get_addr_info` has no value for a return code other than 0 and the empty list for a null pointer.
pub record Resolver : Type 0 where
  pub wsa_startup : Bool
  pub get_addr_info : List ℕ → Option (List AddrInfo)
  pub inet_ntop : Family → List ℕ → List ℕ

pub record IpAddress : Type 0 where
  pub str : List ℕ
  pub family : Family
  pub bytes : List ℕ

-- What the loop writes into `ip`, where it writes all of it.
unfoldable pub ip_of : Resolver → AddrInfo → Option IpAddress
ip_of s p = elim p.ai_family [
  | af_inet ↦
      some
        (record { str = s.inet_ntop af_inet p.address; family = af_inet; bytes = take 4 p.address })
  | af_inet6 ↦ some (record {
    str = s.inet_ntop af_inet6 p.address;
    family = af_inet6;
    bytes = take 16 p.address;
  })
  | af_other n ↦ none
]

-- The loop on Linux.
unfoldable pub results_loop : Resolver → List AddrInfo → List IpAddress → List IpAddress
unfolding ip_of
results_loop s [] results = results
results_loop s (p ∷ l) results = elim (ip_of s p) [
  | none ↦ results_loop s l results
  | some ip ↦ results_loop s l (results ++ ip ∷ [])
]

-- `ResolveHostname` on Linux.
unfoldable pub resolve_hostname : Resolver → List ℕ → List IpAddress
unfolding results_loop
resolve_hostname s hostname = elim (s.get_addr_info hostname) [
  | none ↦ []
  | some l ↦ results_loop s l []
]

-- The loop on macOS and Windows, whose body ends once `ip` is written.
unfoldable pub dropping_loop : Resolver → List AddrInfo → List IpAddress → List IpAddress
unfolding ip_of
dropping_loop s [] results = results
dropping_loop s (p ∷ l) results = let ip = ip_of s p in dropping_loop s l results

-- `ResolveHostname` on macOS.
unfoldable pub macos_resolve_hostname : Resolver → List ℕ → List IpAddress
unfolding dropping_loop
macos_resolve_hostname s hostname = elim (s.get_addr_info hostname) [
  | none ↦ []
  | some l ↦ dropping_loop s l []
]

-- `ResolveHostname` on Windows.
unfoldable pub windows_resolve_hostname : Resolver → List ℕ → List IpAddress
unfolding dropping_loop
windows_resolve_hostname s hostname =
    let found : List IpAddress = elim (s.get_addr_info hostname) [
      | none ↦ []
      | some l ↦ dropping_loop s l []
    ] in
    if s.wsa_startup then found else []
