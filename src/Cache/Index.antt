-- ===== src/Cache/Index.antt =====
-- The index from URLs to nodes.
use proxy_server_sa.Base.{ℕ, ◌≡◌, none, some, List, [], ◌∷◌, arith, if◌then◌else◌}
use proxy_server_sa.Base.Text.{same_text, same_text_iff}
use proxy_server_sa.Cache.{Index, find_url, erase_url, assign_url}

pub find_url-erase_url :
    (u v : List ℕ) (m : Index)
    → find_url u (erase_url v m) ≡ (if same_text u v then none else find_url u m)
unfolding find_url erase_url
find_url-erase_url u v [] = ground arith
find_url-erase_url u v ((x, i) ∷ m) =
    ground
      (arith, same_text_iff u v, same_text_iff u x, same_text_iff v x, find_url-erase_url u v m)

pub find_url-assign_url :
    (u v : List ℕ) (i : ℕ) (m : Index)
    → find_url u (assign_url v i m) ≡ (if same_text u v then some i else find_url u m)
unfolding find_url assign_url
find_url-assign_url u v i [] = ground arith
find_url-assign_url u v i ((x, j) ∷ m) =
    ground
      (arith, same_text_iff u v, same_text_iff u x, same_text_iff v x, find_url-assign_url u v i m)
