-- ===== src/Streebog/Tests.antt =====
-- Instances of the theorems on concrete numbers and messages.
use libpogost.Base.{
  ℕ, ◌+◌, ◌%◌, ◌^◌, ◌≡◌, refl, List, [], ◌∷◌, ◌++◌, arith, length, replicate, Below,
}
use libpogost.Streebog.{Core, init, update, final, add512}
use libpogost.Streebog.Add.{value, value-add512}
use libpogost.Streebog.Update.{IsValid, pending, absorbed, update_refines, init-IsValid}
use libpogost.Streebog.Digest.{final-update-append}

abbrev ones : List ℕ
ones = replicate 8 0xffff_ffff_ffff_ffff

abbrev message : List ℕ
message = replicate 70 7

carries : add512 ones (1 ∷ replicate 7 0) ≡ replicate 8 0
unfolding add512
carries = refl

value-add512_example :
    (length (add512 ones ones) ≡ 8)
    × Below (2 ^ 64) (add512 ones ones)
    × (value (add512 ones ones) ≡ (value ones + value ones) % 2 ^ 512)
value-add512_example = value-add512 ones ones refl refl (omega arith) (omega arith)

update_refines_example :
    IsValid (update (init 256) message)
    × (◌≡◌ {A = Core × List ℕ}
        ((update (init 256) message).core, pending (update (init 256) message))
        (absorbed (init 256).core (pending (init 256) ++ message)))
    × ((update (init 256) message).digest_size ≡ (init 256).digest_size)
update_refines_example = update_refines (init 256) message (init-IsValid 256)

final-update-append_example :
    final (update (update (init 512) message) (1 ∷ []))
    ≡ final (update (init 512) (message ++ 1 ∷ []))
final-update-append_example = final-update-append (init 512) message (1 ∷ []) (init-IsValid 512)
