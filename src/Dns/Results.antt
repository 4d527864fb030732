-- ===== src/Dns/Results.antt =====
-- What `ResolveHostname` finds.
use proxy_server_sa.Base.{
  ℕ, ◌≡◌, ◌⊎◌, inl, inr, refl, ◌∙◌, sym, none, some, List, [], ◌∷◌, ◌++◌, append_assoc, append-nil,
  Option-cases, if_both,
}
use proxy_server_sa.Dns.{
  AddrInfo, Resolver, IpAddress, ip_of, results_loop, resolve_hostname, dropping_loop,
  macos_resolve_hostname, windows_resolve_hostname,
}

-- The addresses of the two families that the answer has, in its order.
unfoldable pub addresses : Resolver → List AddrInfo → List IpAddress
unfolding ip_of
addresses s [] = []
addresses s (p ∷ l) = elim (ip_of s p) [ none ↦ addresses s l | some ip ↦ ip ∷ addresses s l ]

results_loop_lem :
    (s : Resolver) (l : List AddrInfo) (results : List IpAddress)
    → results_loop s l results ≡ results ++ addresses s l
unfolding results_loop addresses
results_loop_lem s [] results = sym (append-nil results)
results_loop_lem s (p ∷ l) results = elim (Option-cases (ip_of s p)) [
  | inl x ↦ rw (x, results_loop, addresses) (results_loop_lem s l results)
  | inr (ip, x) ↦
      rw (x, results_loop, addresses)
        (results_loop_lem s l (results ++ ip ∷ []) ∙ append_assoc results (ip ∷ []) (addresses s l))
]

resolve_hostname-addresses :
    (s : Resolver) (hostname : List ℕ)
    → ((s.get_addr_info hostname ≡ none) × (resolve_hostname s hostname ≡ []))
      ⊎ ((l : List AddrInfo) × (s.get_addr_info hostname ≡ some l)
          × (resolve_hostname s hostname ≡ addresses s l))
unfolding resolve_hostname
resolve_hostname-addresses s hostname = elim (Option-cases (s.get_addr_info hostname)) [
  | inl x ↦ inl (x, rw (x, resolve_hostname) refl)
  | inr (l, x) ↦ inr (l, x, rw (x, resolve_hostname) (results_loop_lem s l []))
]

dropping_loop_lem :
    (s : Resolver) (l : List AddrInfo) (results : List IpAddress)
    → dropping_loop s l results ≡ results
unfolding dropping_loop
dropping_loop_lem s [] results = refl
dropping_loop_lem s (p ∷ l) results = dropping_loop_lem s l results

macos_finds_nothing : (s : Resolver) (hostname : List ℕ) → macos_resolve_hostname s hostname ≡ []
unfolding macos_resolve_hostname
macos_finds_nothing s hostname = elim (Option-cases (s.get_addr_info hostname)) [
  | inl x ↦ rw (x, macos_resolve_hostname) refl
  | inr (l, x) ↦ rw (x, macos_resolve_hostname) (dropping_loop_lem s l [])
]

windows_finds_nothing :
    (s : Resolver) (hostname : List ℕ) → windows_resolve_hostname s hostname ≡ []
unfolding windows_resolve_hostname
windows_finds_nothing s hostname = elim (Option-cases (s.get_addr_info hostname)) [
  | inl x ↦
      rw (x, windows_resolve_hostname)
        (if_both (λ (l : List IpAddress). l ≡ []) s.wsa_startup refl refl)
  | inr (l, x) ↦
      rw (x, windows_resolve_hostname)
        (if_both (λ (r : List IpAddress). r ≡ []) s.wsa_startup (dropping_loop_lem s l []) refl)
]

-- On Linux the result is the addresses of the two families, in the order of the answer, and nothing if
-- there is no answer. On macOS and on Windows it is empty for every host, whatever the system answers.
pub resolve_hostname_lem :
    (s : Resolver) (hostname : List ℕ)
    → (((s.get_addr_info hostname ≡ none) × (resolve_hostname s hostname ≡ []))
        ⊎ ((l : List AddrInfo) × (s.get_addr_info hostname ≡ some l)
            × (resolve_hostname s hostname ≡ addresses s l)))
      × ((macos_resolve_hostname s hostname ≡ []) × (windows_resolve_hostname s hostname ≡ []))
resolve_hostname_lem s hostname = (
  resolve_hostname-addresses s hostname,
  (macos_finds_nothing s hostname, windows_finds_nothing s hostname),
)
