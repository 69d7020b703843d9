-- ===== src/Streebog/Digest.antt =====
-- The digest of a state depends only on what the state stands for, so a message may be hashed in
-- any number of updates.
use libpogost.Base.{
  ℕ, suc, ◌+◌, ◌-◌, ◌<◌, ◌≡◌, refl, sym, ap, ap₂, ◌∙◌, false, List, [], ◌∷◌, ◌++◌, append_assoc,
  append-nil, arith, leb, ◌==◌, if◌then◌else◌, length, take, drop, replicate, length-append,
  length-replicate, length-take, take-append, drop-append, drop-eq-nil, drop-drop, blit, u64, ◌<<<◌,
}
use libpogost.Streebog.{Core, State, stage3, last_blocks, bytes_of_words, pad, update, final}
use libpogost.Streebog.Update.{IsValid, pending, absorbed, absorbed-append, update_refines}

-- The padding: the waiting bytes, a 1 and zeros.
module _ (st : State) (v : IsValid st) where
  abbrev wait : List ℕ
  wait = pending st

  abbrev zeros : List ℕ
  zeros = replicate (64 - st.fillsize) 0

  length-wait : length wait ≡ st.fillsize
  length-wait = omega (arith, v, length-take st.fillsize st.buffer)

  cleared : blit st.buffer st.fillsize zeros ≡ wait ++ zeros
  cleared =
      ap (λ t. wait ++ t)
        (ap (λ t. zeros ++ t)
            (drop-eq-nil (st.fillsize + length zeros) st.buffer
              (omega (arith, v, length-replicate {0} {A = ℕ} (64 - st.fillsize) 0)))
          ∙ append-nil zeros)

  tail_zeros : drop (st.fillsize + 1) (wait ++ zeros) ≡ replicate (63 - length wait) 0
  tail_zeros =
      let n : 64 - st.fillsize ≡ suc (63 - length wait) = omega (arith, v, length-wait) in
      sym (drop-drop 1 st.fillsize (wait ++ zeros))
      ∙ ap (drop 1) (drop-append st.fillsize wait zeros (sym length-wait))
      ∙ ap (λ k. drop 1 (replicate k 0)) n

  pad_lem : pad st.buffer st.fillsize ≡ wait ++ ((1 ∷ []) ++ replicate (63 - length wait) 0)
  pad_lem =
      let open_room : leb 64 st.fillsize ≡ false = ground (arith, v) in
      unfold pad in
      rw open_room (
        ap (λ b. blit b st.fillsize (1 ∷ [])) cleared
        ∙ ap₂ (λ a b. a ++ ((1 ∷ []) ++ b)) (take-append st.fillsize wait zeros (sym length-wait))
            tail_zeros)

-- The digest as a function of what a state stands for.
abbrev pub digest_of : ℕ → Core × List ℕ → List ℕ
digest_of size r = final (record {
  buffer = r.1 ++ ((1 ∷ []) ++ replicate (63 - length r.1) 0);
  hash = [];
  core = r.0;
  fillsize = length r.1;
  digest_size = size;
})

pad_again :
    (xs : List ℕ)
    → length xs < 64
    → pad (xs ++ ((1 ∷ []) ++ replicate (63 - length xs) 0)) (length xs)
      ≡ xs ++ ((1 ∷ []) ++ replicate (63 - length xs) 0)
pad_again xs h =
    pad_lem st v
    ∙ ap (λ t. t ++ ((1 ∷ []) ++ replicate (63 - length t) 0)) (take-append (length xs) xs _ refl)
  where
    st : State
    st = record {
      buffer = xs ++ ((1 ∷ []) ++ replicate (63 - length xs) 0);
      hash = [];
      core = record { h = []; n = []; sigma = [] };
      fillsize = length xs;
      digest_size = 0;
    }

    v : IsValid st
    v = record {
      whole = omega (
        arith,
        length-append xs ((1 ∷ []) ++ replicate (63 - length xs) 0),
        length-replicate {0} {A = ℕ} (63 - length xs) 0,
      );
      room = h;
    }

pub final-eq-digest_of :
    (st : State) → IsValid st → final st ≡ digest_of st.digest_size (st.core, pending st)
final-eq-digest_of st v =
    unfold final stage3 in
    ap₂ (λ n p. cut (last_blocks st.core (u64 (n <<< 3)) p)) (sym (length-wait st v)) pad_eq
  where
    cut : List ℕ → List ℕ
    cut hash = bytes_of_words (if st.digest_size == 32 then drop 4 hash else take 8 hash)

    pad_eq :
        pad st.buffer st.fillsize
        ≡ pad
            (pending st ++ ((1 ∷ []) ++ replicate (63 - length (pending st)) 0))
            (length (pending st))
    pad_eq = pad_lem st v ∙ sym (pad_again (pending st) (omega (arith, v, length-wait st v)))

-- Hashing a message in two updates gives the digest of one update with the whole message,
-- wherever the message is cut and however full the buffer of the valid state is.
pub final-update-append :
    (st : State) (xs ys : List ℕ)
    → IsValid st
    → final (update (update st xs) ys) ≡ final (update st (xs ++ ys))
final-update-append st xs ys v =
    let a = update_refines st xs v in
    let b = update_refines (update st xs) ys a.0 in
    let c = update_refines st (xs ++ ys) v in
    let joined =
      b.1
      ∙ ap (λ r. absorbed r.0 (r.1 ++ ys)) a.1
      ∙ sym (absorbed-append st.core (pending st ++ xs) ys)
      ∙ ap (absorbed st.core) (append_assoc (pending st) xs ys)
      ∙ sym c.1 in
    final-eq-digest_of (update (update st xs) ys) b.0
    ∙ ap₂ digest_of (b.2 ∙ a.2 ∙ sym c.2) joined
    ∙ sym (final-eq-digest_of (update st (xs ++ ys)) c.0)
