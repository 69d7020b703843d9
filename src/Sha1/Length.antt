-- ===== src/Sha1/Length.antt =====
-- A digest is 20 bytes.
use libpogost.Base.{
  ℕ, ◌+◌, ◌*◌, ◌≡◌, refl, inl, inr, List, [], ◌∷◌, arith, ltb, Bool-cases, length, Below,
}
use libpogost.Sha1.{State, words_bytes, last_hash, final}

words_bytes_lem :
    (hs : List ℕ) → (length (words_bytes hs) ≡ 4 * length hs) × Below 256 (words_bytes hs)
unfolding words_bytes
words_bytes_lem [] = (omega arith, tt)
words_bytes_lem (h ∷ hs) =
    let ih = words_bytes_lem hs in
    (omega (arith, ih.0), (omega arith, (omega arith, (omega arith, (omega arith, ih.1)))))

length-last_hash : (st : State) → length (last_hash st) ≡ 5
unfolding last_hash
length-last_hash st = elim (Bool-cases (ltb 56 (st.buffered.fill + 1))) [
  | inl e ↦ rw e refl
  | inr e ↦ rw e refl
]

-- Twenty bytes, whatever the state.
pub length-final : (st : State) → (length (final st) ≡ 20) × Below 256 (final st)
unfolding final
length-final st =
    let w = words_bytes_lem (last_hash st) in (omega (arith, w.0, length-last_hash st), w.1)
