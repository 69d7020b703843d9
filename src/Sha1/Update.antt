-- ===== src/Sha1/Update.antt =====
-- The buffering of `sha1_update`.
use libpogost.Base.{
  ℕ, zero, suc, ◌+◌, ◌-◌, ◌≤◌, ◌<◌, min, ◌≡◌, refl, sym, ap, ◌∙◌, inl, inr, true, false, List, [],
  ◌∷◌, append-nil, arith, ltb, ◌==◌, if◌then◌else◌, Bool-cases, length, drop, length-take,
  length-drop, take-eq_self, drop-eq-nil, blit, Buffered, IsBuffered, waiting, blocks_into, TakesIn,
  filled_up, blocks_into-short, copied-TakesIn, length-filled_up, through_block,
}
use libpogost.Sha1.{State, sha1_block, init, take_in, update_loop, update}

module _ (st : Buffered (List ℕ)) (v : IsBuffered 64 st) where
  nothing-TakesIn : TakesIn 64 sha1_block st [] st
  nothing-TakesIn = record {
    valid = v;
    view = sym (
        ap (blocks_into 64 sha1_block st.core) (append-nil (waiting st))
        ∙ blocks_into-short 64 sha1_block (omega arith) st.core (waiting st)
            (omega (arith, v, length-take st.fill st.buffer)));
  }

update_loop-nil : (fuel : ℕ) (st : Buffered (List ℕ)) → update_loop fuel st [] ≡ st
unfolding update_loop
update_loop-nil zero st = refl
update_loop-nil (suc fuel) st = refl

-- One round, where `n` bytes are taken.
update_loop-suc :
    (fuel : ℕ) (st : Buffered (List ℕ)) (text : List ℕ) (n : ℕ)
    → 0 < length text
    → n ≡ min (length text) (64 - st.fill)
    → update_loop (suc fuel) st text ≡ update_loop fuel (take_in st n text) (drop n text)
unfolding update_loop
update_loop-suc fuel st text n p e =
    let some_left : ltb 0 (length text) ≡ true = ground arith in
    let taken : (if ltb (length text) (64 - st.fill) then length text else 64 - st.fill) ≡ n =
      smaller (length text) (64 - st.fill) ∙ sym e in
    rw some_left (ap (λ k. update_loop fuel (take_in st k text) (drop k text)) taken)
  where
    smaller : (x y : ℕ) → (if ltb x y then x else y) ≡ min x y
    smaller x y = ground arith

-- The two outcomes of a round.
take_in_short :
    (st : Buffered (List ℕ)) (xs : List ℕ)
    → st.fill + length xs < 64
    → take_in st (length xs) xs
      ≡ record { core = st.core; buffer = blit st.buffer st.fill xs; fill = st.fill + length xs }
unfolding take_in
take_in_short st xs fits =
    let e : (st.fill + length xs == 64) ≡ false = ground arith in
    rw e (
      ap
        (λ t. record {
          core = st.core;
          buffer = blit st.buffer st.fill t;
          fill = st.fill + length xs;
        })
        (take-eq_self (length xs) xs (omega arith)))

take_in_long :
    (st : Buffered (List ℕ)) (xs : List ℕ)
    → st.fill < 64
    → take_in st (64 - st.fill) xs ≡ record {
      core = sha1_block st.core (filled_up 64 sha1_block st xs);
      buffer = filled_up 64 sha1_block st xs;
      fill = 0;
    }
unfolding take_in
take_in_long st xs room =
    let e : (st.fill + (64 - st.fill) == 64) ≡ true = ground arith in rw e refl

update_loop-TakesIn :
    (fuel : ℕ) (st : Buffered (List ℕ)) (text : List ℕ)
    → IsBuffered 64 st
    → length text ≤ fuel
    → TakesIn 64 sha1_block st text (update_loop fuel st text)
update_loop-TakesIn fuel st [] v h = rw (update_loop-nil fuel st) (nothing-TakesIn st v)
update_loop-TakesIn zero st (x ∷ text) v h = absurd (omega arith)
update_loop-TakesIn (suc fuel) st (x ∷ text) v h =
    elim (Bool-cases (ltb (st.fill + length (x ∷ text)) 64)) [
      | inl short ↦
          let fits : st.fill + length xs < 64 = ground arith in
          let e = update_loop-suc fuel st xs (length xs) (omega arith) (omega arith) in
          let none_left = drop-eq-nil (length xs) xs (omega arith) in
          let done = take_in_short st xs fits in
          rw (e, none_left, done, update_loop-nil fuel copied)
            (copied-TakesIn 64 sha1_block (omega arith) st xs v fits)
      | inr long ↦
          let full : 64 ≤ st.fill + length xs = ground arith in
          let n = 64 - st.fill in
          let e = update_loop-suc fuel st xs n (omega arith) (omega arith) in
          let ih =
            update_loop-TakesIn fuel hashed (drop n xs)
              (record {
                whole = length-filled_up 64 sha1_block (omega arith) st xs v full;
                room = omega arith;
              })
              (omega (arith, v, length-drop n xs)) in
          rw (e, take_in_long st xs v.room)
            (record {
              valid = ih.valid;
              view = ih.view ∙ sym (through_block 64 sha1_block (omega arith) st xs v full);
            })
    ]
  where
    xs : List ℕ
    xs = x ∷ text

    copied : Buffered (List ℕ)
    copied = record {
      core = st.core;
      buffer = blit st.buffer st.fill xs;
      fill = st.fill + length xs;
    }

    hashed : Buffered (List ℕ)
    hashed = record {
      core = sha1_block st.core (filled_up 64 sha1_block st xs);
      buffer = filled_up 64 sha1_block st xs;
      fill = 0;
    }

-- An update takes all of its input into the buffer and the hash value, and counts its bits.
pub update-TakesIn :
    (st : State) (text : List ℕ)
    → IsBuffered 64 st.buffered
    → TakesIn 64 sha1_block st.buffered text (update st text).buffered
unfolding update
update-TakesIn st text v = update_loop-TakesIn (length text) st.buffered text v (omega arith)

pub init-IsBuffered : IsBuffered 64 init.buffered
unfolding init
init-IsBuffered = record { whole = refl; room = omega arith }
