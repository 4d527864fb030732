-- ===== src/Sha256/Tests.antt =====
-- SHA-256 on the messages of the unit tests, and what is proved of it on a short message.
use proxy_server_sa.Base.{ℕ, ◌/◌, ◌≡◌, refl, List, [], arith, length}
use proxy_server_sa.Base.Text.{codes}
use proxy_server_sa.Sha256.{preprocess, init_state, hex_state, compute}
use proxy_server_sa.Sha256.Padding.{preprocess-injective}
use proxy_server_sa.Sha256.Blocks.{blocks, after_blocks, compute-blocks}

of_abc :
    compute (codes "abc") ≡ codes "ba7816bf8f01cfea414140de5dae2223b00361a396177a9cb410ff61f20015ad"
unfolding compute
of_abc = refl

of_nothing : compute [] ≡ codes "e3b0c44298fc1c149afbf4c8996fb92427ae41e4649b934ca495991b7852b855"
unfolding compute
of_nothing = refl

abbrev message : List ℕ
message = codes "abc"

preprocess-injective_example : message ≡ message
preprocess-injective_example = preprocess-injective message message (omega arith) (omega arith) refl

compute-blocks_example :
    compute message
    ≡ hex_state
        (after_blocks (blocks (length (preprocess message) / 64) (preprocess message)) init_state)
compute-blocks_example = compute-blocks message
