-- ===== src/Kdf/Tests.antt =====
-- Instances of the theorems on concrete requests.
use libpogost.Base.{ℕ, ◌/◌, ◌%◌, ◌≤◌, ◌<◌, ◌≡◌, refl, List, [], ◌∷◌, arith, length, take, replicate}
use libpogost.Kdf.{put_be, tls_prf_256}
use libpogost.Kdf.Output.{kdf_tree_256-total, kdf_tree_256-accepts, tls_prf_256-take}

abbrev secret : List ℕ
secret = replicate 32 5

put_be_runs : put_be 256 ≡ 1 ∷ 0 ∷ []
unfolding put_be
put_be_runs = refl

abbrev derived : List ℕ
derived =
    (kdf_tree_256-total 2 secret (1 ∷ []) (2 ∷ []) (omega arith) (omega arith) (omega arith)).0

kdf_tree_256-accepts_example :
    (0 < 64)
    × (◌≡◌ {A = ℕ} (64 % 32) 0)
    × (64 / 32 ≤ 255)
    × (length {A = ℕ} (2 ∷ []) ≤ 255)
    × (length derived ≡ 64)
kdf_tree_256-accepts_example =
    kdf_tree_256-accepts 64 secret (1 ∷ []) (2 ∷ []) derived
      (kdf_tree_256-total 2 secret (1 ∷ []) (2 ∷ []) (omega arith) (omega arith) (omega arith)).1

tls_prf_256-take_example :
    (length (tls_prf_256 12 secret (1 ∷ []) (2 ∷ [])) ≡ 12)
    × (tls_prf_256 12 secret (1 ∷ []) (2 ∷ []) ≡ take 12 (tls_prf_256 48 secret (1 ∷ []) (2 ∷ [])))
tls_prf_256-take_example = tls_prf_256-take 12 48 secret (1 ∷ []) (2 ∷ []) (omega arith)
