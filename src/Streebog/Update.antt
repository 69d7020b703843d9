-- ===== src/Streebog/Update.antt =====
-- The buffering of `streebog_update`: what a state stands for is the blocks that went into its
-- core and the bytes that wait; what the rest of the buffer holds makes no difference.
use libpogost.Base.{
  ℕ, ◌+◌, ◌-◌, ◌≤◌, ◌<◌, min, ◌≡◌, refl, sym, ap, ◌∙◌, inl, inr, true, false, List, [], ◌++◌,
  append_assoc, arith, ltb, ◌==◌, ==_iff, Bool-cases, length, take, drop, length-append,
  length-take, take-append-drop, take-eq_self, drop-eq-nil, eq-nil_of_length, blit, length-blit,
  take-blit, absorb, absorb-short, length-absorb, absorb_all-append, absorb_all-block,
}
use libpogost.Streebog.{Core, State, stage2, init, fill_up, settle, update}

pub record IsValid (st : State) : Type 0 where
  pub whole : length st.buffer ≡ 64
  pub room : st.fillsize < 64

-- The bytes that wait in the buffer.
abbrev pub pending : State → List ℕ
pending st = take st.fillsize st.buffer

-- The specification of an update: the waiting bytes and the input, cut into blocks.
abbrev pub absorbed : Core → List ℕ → Core × List ℕ
absorbed c xs = absorb 64 64 stage2 (length xs) c xs

record Advances (st : State) (xs : List ℕ) (st' : State) : Type 0 where
  valid : IsValid st'
  view : ◌≡◌ {A = Core × List ℕ} (st'.core, pending st') (absorbed st.core (pending st ++ xs))
  size : st'.digest_size ≡ st.digest_size

pub absorbed-short : (c : Core) (xs : List ℕ) → length xs < 64 → absorbed c xs ≡ (c, xs)
absorbed-short c xs h = absorb-short 64 64 stage2 (length xs) c xs h

pub absorbed-append :
    (c : Core) (xs ys : List ℕ)
    → absorbed c (xs ++ ys) ≡ (let r = absorbed c xs in absorbed r.0 (r.1 ++ ys))
absorbed-append = absorb_all-append 64 64 stage2 (omega arith) (omega arith)

-- The end of an update, with an empty buffer.
settle_lem :
    (st : State) (r : Core × List ℕ)
    → length st.buffer ≡ 64
    → st.fillsize ≡ 0
    → length r.1 < 64
    → IsValid (settle st r)
      × (◌≡◌ {A = Core × List ℕ} ((settle st r).core, pending (settle st r)) r)
      × ((settle st r).digest_size ≡ st.digest_size)
unfolding settle
settle_lem st r whole empty short = elim (Bool-cases (ltb 0 (length r.1))) [
  | inl e ↦ rw e (
    record { whole = length-blit st.buffer 0 r.1 (omega arith) ∙ whole; room = short },
    ap (λ t. (r.0, t)) (take-blit st.buffer 0 r.1 (length r.1) (omega arith) (omega arith)),
    refl,
  )
  | inr e ↦ rw e (
    record { whole = whole; room = omega arith },
    ap (λ t. (r.0, t))
        (ap (λ n. take n st.buffer) empty ∙ sym (eq-nil_of_length r.1 (ground arith))),
    refl,
  )
]

-- Nothing waits: the input goes into blocks as it comes.
update-Advances_empty :
    (st : State) (xs : List ℕ) → IsValid st → st.fillsize ≡ 0 → Advances st xs (update st xs)
update-Advances_empty st xs v e = rw shape (record {
  valid = s.0;
  view = s.1 ∙ ap (λ t. absorbed st.core (t ++ xs)) (sym (ap (λ n. take n st.buffer) e));
  size = s.2;
})
  where
    shape : update st xs ≡ settle st (absorbed st.core xs)
    shape = unfold update fill_up in ground arith

    s :
        IsValid (settle st (absorbed st.core xs))
        × (◌≡◌ {A = Core × List ℕ}
            ((settle st (absorbed st.core xs)).core, pending (settle st (absorbed st.core xs)))
            (absorbed st.core xs))
        × ((settle st (absorbed st.core xs)).digest_size ≡ st.digest_size)
    s = settle_lem st (absorbed st.core xs) v.whole e (
        length-absorb 64 64 stage2 (omega arith) (omega arith) (length xs) st.core xs (omega arith))

module _ (st : State) (xs : List ℕ) (v : IsValid st) where
  abbrev chunk : ℕ
  chunk = min (64 - st.fillsize) (length xs)

  abbrev head_bytes : List ℕ
  head_bytes = take chunk xs

  abbrev filled : List ℕ
  filled = blit st.buffer st.fillsize head_bytes

  length-head_bytes : length head_bytes ≡ chunk
  length-head_bytes = omega (arith, length-take chunk xs)

  length-filled : length filled ≡ 64
  length-filled =
      length-blit st.buffer st.fillsize head_bytes (omega (arith, v, length-head_bytes)) ∙ v.whole

  take-filled : take (st.fillsize + chunk) filled ≡ pending st ++ head_bytes
  take-filled =
      take-blit st.buffer st.fillsize head_bytes (st.fillsize + chunk)
        (omega (arith, length-head_bytes)) (omega (arith, v))

  -- The input does not fill the buffer up.
  module _ (some_wait : 0 < st.fillsize) (short : st.fillsize + length xs < 64) where
    waits : update st xs ≡ record st { buffer = filled; fillsize = st.fillsize + chunk }
    waits =
        let a : (st.fillsize == 0) ≡ false = ground arith in
        let b : (st.fillsize + chunk == 64) ≡ false = ground arith in
        let e : drop chunk xs ≡ [] = drop-eq-nil chunk xs (omega arith) in
        unfold update fill_up settle absorb in rw (a, b, e)

    update-Advances_short : Advances st xs (update st xs)
    update-Advances_short = rw waits (record {
      valid = record { whole = length-filled; room = omega arith };
      view =
          ap (λ t. (st.core, t))
            (take-filled ∙ ap (λ t. pending st ++ t) (take-eq_self chunk xs (omega arith)))
          ∙ sym (
              absorbed-short st.core (pending st ++ xs)
                (omega (arith, length-append (pending st) xs, length-take st.fillsize st.buffer)));
      size = refl;
    })

  -- The input fills the buffer up, and goes on behind it.
  module _ (some_wait : 0 < st.fillsize) (long : 64 ≤ st.fillsize + length xs) where
    abbrev emptied : State
    emptied = record st { buffer = filled; core = stage2 st.core filled; fillsize = 0 }

    abbrev behind : Core × List ℕ
    behind = absorbed (stage2 st.core filled) (drop chunk xs)

    flushes : update st xs ≡ settle emptied behind
    flushes =
        let a : (st.fillsize == 0) ≡ false = ground arith in
        let b : (st.fillsize + chunk == 64) ≡ true = ground arith in
        unfold update fill_up in rw (a, b)

    filled-eq : filled ≡ pending st ++ head_bytes
    filled-eq = sym (take-eq_self 64 filled (omega (arith, length-filled))) ∙ at_end
      where
        full : 64 ≡ st.fillsize + chunk
        full = omega arith

        at_end : take 64 filled ≡ pending st ++ head_bytes
        at_end = ap (λ n. take n filled) full ∙ take-filled

    through : absorbed st.core (pending st ++ xs) ≡ behind
    through =
        ap (λ t. absorbed st.core (pending st ++ t)) (sym (take-append-drop chunk xs))
        ∙ ap (absorbed st.core) (sym (append_assoc (pending st) head_bytes (drop chunk xs)))
        ∙ ap (λ t. absorbed st.core (t ++ drop chunk xs)) (sym filled-eq)
        ∙ absorb_all-block 64 64 stage2 (omega arith) (omega arith) st.core filled (drop chunk xs)
            (sym length-filled) refl

    update-Advances_long : Advances st xs (update st xs)
    update-Advances_long =
        let s = settle_lem emptied behind length-filled refl (
          length-absorb 64 64 stage2 (omega arith) (omega arith) (length (drop chunk xs))
            (stage2 st.core filled) (drop chunk xs) (omega arith)) in
        rw flushes (record { valid = s.0; view = s.1 ∙ sym through; size = s.2 })

update-Advances : (st : State) (xs : List ℕ) → IsValid st → Advances st xs (update st xs)
update-Advances st xs v = elim (Bool-cases (st.fillsize == 0)) [
  | inl e ↦ update-Advances_empty st xs v ((==_iff _ _).0 e)
  | inr e ↦ elim (Bool-cases (ltb (st.fillsize + length xs) 64)) [
    | inl short ↦ update-Advances_short st xs v (ground arith) (ground arith)
    | inr long ↦ update-Advances_long st xs v (ground arith) (ground arith)
  ]
]

-- An update keeps a state valid. What it then stands for is the waiting bytes and the input, cut
-- into blocks of 64 bytes, each hashed into the core, with less than a block left waiting.
pub update_refines :
    (st : State) (xs : List ℕ)
    → IsValid st
    → IsValid (update st xs)
      × (◌≡◌ {A = Core × List ℕ}
          ((update st xs).core, pending (update st xs))
          (absorbed st.core (pending st ++ xs)))
      × ((update st xs).digest_size ≡ st.digest_size)
update_refines st xs v = let a = update-Advances st xs v in (a.valid, a.view, a.size)

pub init-IsValid : (bits : ℕ) → IsValid (init bits)
unfolding init
init-IsValid bits = record { whole = refl; room = omega arith }
