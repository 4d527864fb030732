-- ===== src/Dns/Tests.antt =====
-- A host with an address of either family, and one of a third.
use proxy_server_sa.Base.{length, ◌≡◌, ◌⊎◌, refl, true, none, some, List, [], ◌∷◌}
use proxy_server_sa.Base.Text.{codes}
use proxy_server_sa.Dns.{
  af_inet, af_inet6, af_other, AddrInfo, Resolver, resolve_hostname, macos_resolve_hostname,
  windows_resolve_hostname,
}
use proxy_server_sa.Dns.Results.{addresses, resolve_hostname_lem}

abbrev answer : List AddrInfo
answer =
    record { ai_family = af_inet; address = 127 ∷ 0 ∷ 0 ∷ 1 ∷ [] }
    ∷ record { ai_family = af_other 3; address = [] }
    ∷ record {
      ai_family = af_inet6;
      address = 0 ∷ 0 ∷ 0 ∷ 0 ∷ 0 ∷ 0 ∷ 0 ∷ 0 ∷ 0 ∷ 0 ∷ 0 ∷ 0 ∷ 0 ∷ 0 ∷ 0 ∷ 1 ∷ [];
    }
    ∷ []

abbrev resolver : Resolver
resolver = record {
  wsa_startup = true;
  get_addr_info = λ h. some answer;
  inet_ntop = λ f a. codes "text";
}

resolve_hostname_lem_example :
    (((resolver.get_addr_info (codes "localhost") ≡ none)
        × (resolve_hostname resolver (codes "localhost") ≡ []))
      ⊎ ((l : List AddrInfo) × (resolver.get_addr_info (codes "localhost") ≡ some l)
          × (resolve_hostname resolver (codes "localhost") ≡ addresses resolver l)))
    × ((macos_resolve_hostname resolver (codes "localhost") ≡ [])
        × (windows_resolve_hostname resolver (codes "localhost") ≡ []))
resolve_hostname_lem_example = resolve_hostname_lem resolver (codes "localhost")

finds_all_on_linux : length (resolve_hostname resolver (codes "localhost")) ≡ 2
unfolding resolve_hostname
finds_all_on_linux = refl
