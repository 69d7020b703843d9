-- ===== src/Base/Buffering.antt =====
-- A buffer of less than one block before a core that takes whole blocks, as hash functions keep
-- it. What a state stands for is its core and the bytes that wait; the lemmas say what copying
-- input behind these bytes does, whether or not it fills the block.
use Prim.Native.Nat.{ℕ, zero, suc, ◌+◌, ◌-◌, ◌%◌, ◌≤◌, ◌<◌}
use mathlib.Core.Path.{◌≡◌, refl, sym, ap, ◌∙◌}
use mathlib.Core.List.{List, ◌++◌, append_assoc}
use mathlib.Core.Logic.{inl, inr}
use native.Mathlib.Nat.{mod-eq-sub-mod, mod-eq_of_lt}
use native.Mathlib.Omega.{arith}
use libpogost.Base.Tests.{leb, Bool-cases}
use libpogost.Base.Lists.{
  length, take, drop, length-append, length-take, length-drop, take-append-drop, take-eq_self, blit,
  length-blit, take-blit,
}
use libpogost.Base.Blocks.{
  absorb, absorb-short, absorb-long, length-absorb, absorb_all-append, absorb_all-block,
}

pub record Buffered {ℓ} (S : Type ℓ) : Type ℓ where
  pub core : S
  pub buffer : List ℕ
  pub fill : ℕ

pub record IsBuffered {ℓ} {S : Type ℓ} (n : ℕ) (st : Buffered S) : Type 0 where
  pub whole : length st.buffer ≡ n
  pub room : st.fill < n

-- The bytes that wait.
abbrev pub waiting {ℓ} : {S : Type ℓ} → Buffered S → List ℕ
waiting st = take st.fill st.buffer

abbrev pub stands {ℓ} : {S : Type ℓ} → Buffered S → S × List ℕ
stands st = (st.core, waiting st)

module _ {ℓ} {S : Type ℓ} (n : ℕ) (step : S → List ℕ → S) where
  -- The specification: input cut into blocks of `n` bytes, and the bytes that are left.
  abbrev pub blocks_into : S → List ℕ → S × List ℕ
  blocks_into c xs = absorb n n step (length xs) c xs

  -- A state that stands for what `st` stands for and the input behind it.
  pub record TakesIn (st : Buffered S) (xs : List ℕ) (st' : Buffered S) : Type ℓ where
    pub valid : IsBuffered n st'
    pub view : stands st' ≡ blocks_into st.core (waiting st ++ xs)

  abbrev pub filled_up : Buffered S → List ℕ → List ℕ
  filled_up st xs = blit st.buffer st.fill (take (n - st.fill) xs)

  module _ (pos : 0 < n) where
    pub blocks_into-append :
        (c : S) (xs ys : List ℕ)
        → blocks_into c (xs ++ ys) ≡ (let r = blocks_into c xs in blocks_into r.0 (r.1 ++ ys))
    blocks_into-append = absorb_all-append n n step pos (omega arith)

    pub length-blocks_into : (c : S) (xs : List ℕ) → length (blocks_into c xs).1 < n
    length-blocks_into c xs =
        length-absorb n n step pos (omega arith) (length xs) c xs (omega arith)

    absorb_short_length :
        (fuel : ℕ) (c : S) (xs : List ℕ)
        → length xs < n
        → length (absorb n n step fuel c xs).1 ≡ length xs % n
    absorb_short_length fuel c xs h =
        ap (λ r. length r.1) (absorb-short n n step fuel c xs h) ∙ sym (mod-eq_of_lt h)

    remainder :
        (fuel : ℕ) (c : S) (xs : List ℕ)
        → length xs ≤ fuel
        → length (absorb n n step fuel c xs).1 ≡ length xs % n
    remainder zero c xs h = absorb_short_length zero c xs (omega arith)
    remainder (suc fuel) c xs h = elim (Bool-cases (leb n (length xs))) [
      | inl e ↦
          let long : n ≤ length xs = ground arith in
          let l = length-drop n xs in
          ap (λ r. length r.1) (absorb-long n n step fuel c xs long)
          ∙ remainder fuel (step c (take n xs)) (drop n xs) (omega arith)
          ∙ ap (λ k. k % n) l
          ∙ sym (mod-eq-sub-mod long)
      | inr e ↦ absorb_short_length (suc fuel) c xs (ground arith)
    ]

    -- Whole blocks are taken: the remainder of the length is left.
    pub length-blocks_into_mod : (c : S) (xs : List ℕ) → length (blocks_into c xs).1 ≡ length xs % n
    length-blocks_into_mod c xs = remainder (length xs) c xs (omega arith)

    pub blocks_into-block :
        (c : S) (b ys : List ℕ) → n ≡ length b → blocks_into c (b ++ ys) ≡ blocks_into (step c b) ys
    blocks_into-block c b ys e = absorb_all-block n n step pos (omega arith) c b ys e refl

    pub blocks_into-short : (c : S) (xs : List ℕ) → length xs < n → blocks_into c xs ≡ (c, xs)
    blocks_into-short c xs h = absorb-short n n step (length xs) c xs h

    module _ (st : Buffered S) (xs : List ℕ) (v : IsBuffered n st) where
      -- The input does not fill the block.
      pub copied-TakesIn :
          st.fill + length xs < n
          → TakesIn st xs (record {
            core = st.core;
            buffer = blit st.buffer st.fill xs;
            fill = st.fill + length xs;
          })
      copied-TakesIn short =
          let l = length-append (waiting st) xs in
          let w = length-take st.fill st.buffer in
          record {
            valid = record {
              whole = length-blit st.buffer st.fill xs (omega (arith, v)) ∙ v.whole;
              room = short;
            };
            view =
                ap (λ t. (st.core, t))
                  (take-blit st.buffer st.fill xs (st.fill + length xs) refl (omega (arith, v)))
                ∙ sym (blocks_into-short st.core (waiting st ++ xs) (omega (arith, v)));
          }

      -- The input fills the block.
      module _ (long : n ≤ st.fill + length xs) where
        length-head : length (take (n - st.fill) xs) ≡ n - st.fill
        length-head = omega (arith, length-take (n - st.fill) xs)

        pub length-filled_up : length (filled_up st xs) ≡ n
        length-filled_up =
            length-blit st.buffer st.fill (take (n - st.fill) xs) (omega (arith, v, length-head))
            ∙ v.whole

        filled_up-eq : filled_up st xs ≡ waiting st ++ take (n - st.fill) xs
        filled_up-eq =
            sym (take-eq_self n (filled_up st xs) (omega (arith, length-filled_up)))
            ∙ take-blit st.buffer st.fill (take (n - st.fill) xs) n (omega (arith, v, length-head))
                (omega (arith, v))

        pub through_block :
            blocks_into st.core (waiting st ++ xs)
            ≡ blocks_into (step st.core (filled_up st xs)) (drop (n - st.fill) xs)
        through_block =
            ap (λ t. blocks_into st.core (waiting st ++ t))
              (sym (take-append-drop (n - st.fill) xs))
            ∙ ap (blocks_into st.core)
                (sym (append_assoc (waiting st) (take (n - st.fill) xs) (drop (n - st.fill) xs)))
            ∙ ap (λ t. blocks_into st.core (t ++ drop (n - st.fill) xs)) (sym filled_up-eq)
            ∙ blocks_into-block st.core (filled_up st xs) (drop (n - st.fill) xs)
                (sym length-filled_up)
