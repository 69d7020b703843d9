-- ===== src/Gost341194/Update.antt =====
-- The buffering of `update`: a state stands for the blocks that went into its core and the bytes
-- that wait. The parts of a message count only as one message.
use libpogost.Base.{
  ℕ, ◌+◌, ◌-◌, ◌≤◌, ◌<◌, ◌≡◌, refl, sym, ap, ◌∙◌, inl, inr, true, false, List, [], ◌∷◌, ◌++◌,
  append_assoc, append-nil, arith, ltb, Bool-cases, length, take, drop, length-take, take-eq_self,
  eq-nil_of_length, length-blit, take-blit, IsBuffered, waiting, stands, blocks_into, TakesIn,
  filled_up, blocks_into-append, length-blocks_into, blocks_into-short, copied-TakesIn,
  length-filled_up, through_block,
}
use libpogost.Gost341194.{
  Core, State, take_block, take_rest, init, update, feed, finish, final,
  gost3411_94_cryptopro_parts, gost3411_94_cryptopro,
}

abbrev absorbed : Core → List ℕ → Core × List ℕ
absorbed = blocks_into 32 take_block

take_rest_lem :
    (core : Core) (rem rest : List ℕ)
    → length rem ≡ 32
    → IsBuffered 32 (take_rest core rem rest)
      × (stands (take_rest core rem rest) ≡ absorbed core rest)
unfolding take_rest
take_rest_lem core rem rest whole =
    let r = absorbed core rest in
    let short = length-blocks_into 32 take_block (omega arith) core rest in
    elim (Bool-cases (ltb 0 (length r.1))) [
      | inl e ↦ rw e (
        record { whole = length-blit rem 0 r.1 (omega arith) ∙ whole; room = short },
        ap (λ t. (r.0, t)) (take-blit rem 0 r.1 (length r.1) (omega arith) (omega arith)),
      )
      | inr e ↦ rw e (
        record { whole = whole; room = omega arith },
        ap (λ t. (r.0, t)) (sym (eq-nil_of_length r.1 (ground arith))),
      )
    ]

module _ (st : State) (xs : List ℕ) (v : IsBuffered 32 st) where
  update-TakesIn_empty : st.fill ≡ 0 → TakesIn 32 take_block st xs (update st xs)
  unfolding update
  update-TakesIn_empty e =
      let none_wait : ltb 0 st.fill ≡ false = ground arith in
      let r = take_rest_lem st.core st.buffer xs v.whole in
      rw none_wait (record {
        valid = r.0;
        view = r.1 ∙ ap (λ n. absorbed st.core (take n st.buffer ++ xs)) (sym e);
      })

  update-TakesIn_short :
      0 < st.fill → st.fill + length xs < 32 → TakesIn 32 take_block st xs (update st xs)
  unfolding update
  update-TakesIn_short some_wait short =
      let a : ltb 0 st.fill ≡ true = ground arith in
      let b : ltb (length xs) (32 - st.fill) ≡ true = ground arith in
      let c : ltb (st.fill + length xs) 32 ≡ true = ground arith in
      let whole = take-eq_self (length xs) xs (omega arith) in
      rw (a, b, c, whole) (copied-TakesIn 32 take_block (omega arith) st xs v short)

  update-TakesIn_long :
      0 < st.fill → 32 ≤ st.fill + length xs → TakesIn 32 take_block st xs (update st xs)
  unfolding update
  update-TakesIn_long some_wait long =
      let a : ltb 0 st.fill ≡ true = ground arith in
      let b : ltb (length xs) (32 - st.fill) ≡ false = ground arith in
      let c : ltb (st.fill + (32 - st.fill)) 32 ≡ false = ground (arith, v) in
      let full = length-filled_up 32 take_block (omega arith) st xs v long in
      let r =
        take_rest_lem (take_block st.core (filled_up 32 take_block st xs))
          (filled_up 32 take_block st xs) (drop (32 - st.fill) xs) full in
      rw (a, b, c)
        (record {
          valid = r.0;
          view = r.1 ∙ sym (through_block 32 take_block (omega arith) st xs v long);
        })

-- An update keeps the buffer short of a block. What the state then stands for is the waiting
-- bytes and the input, cut into blocks of 32 bytes.
pub update-TakesIn :
    (st : State) (xs : List ℕ) → IsBuffered 32 st → TakesIn 32 take_block st xs (update st xs)
update-TakesIn st xs v = elim (Bool-cases (ltb 0 st.fill)) [
  | inr e ↦ update-TakesIn_empty st xs v (ground arith)
  | inl e ↦ elim (Bool-cases (ltb (st.fill + length xs) 32)) [
    | inl short ↦ update-TakesIn_short st xs v (ground arith) (ground arith)
    | inr long ↦ update-TakesIn_long st xs v (ground arith) (ground arith)
  ]
]

-- A part that is skipped when it is empty.
feed-TakesIn :
    (st : State) (xs : List ℕ) → IsBuffered 32 st → TakesIn 32 take_block st xs (feed st xs)
unfolding feed
feed-TakesIn st [] v = record {
  valid = v;
  view = sym (
      ap (absorbed st.core) (append-nil (waiting st))
      ∙ blocks_into-short 32 take_block (omega arith) st.core (waiting st)
          (omega (arith, v, length-take st.fill st.buffer)));
}
feed-TakesIn st (x ∷ xs) v =
    let some_left : ltb 0 (length (x ∷ xs)) ≡ true = ground arith in
    rw some_left (update-TakesIn st (x ∷ xs) v)

-- The digest as a function of what a state stands for.
abbrev digest_of : Core × List ℕ → List ℕ
digest_of r = finish r.0 (length r.1) r.1

final-eq-digest_of : (st : State) → IsBuffered 32 st → final st ≡ digest_of (stands st)
unfolding final
final-eq-digest_of st v =
    let l : st.fill ≡ length (waiting st) = omega (arith, v, length-take st.fill st.buffer) in
    ap (λ n. finish st.core n (waiting st)) l

three_parts :
    (st : State) (a b c : List ℕ)
    → IsBuffered 32 st
    → final (feed (feed (feed st a) b) c)
      ≡ digest_of (absorbed st.core (waiting st ++ (a ++ (b ++ c))))
three_parts st a b c v =
    let f = feed-TakesIn st a v in
    let g = feed-TakesIn (feed st a) b f.valid in
    let h = feed-TakesIn (feed (feed st a) b) c g.valid in
    final-eq-digest_of (feed (feed (feed st a) b) c) h.valid
    ∙ ap digest_of (
        h.view
        ∙ ap (λ q. absorbed q.0 (q.1 ++ c)) (g.view ∙ ap (λ q. absorbed q.0 (q.1 ++ b)) f.view)
        ∙ ap (λ q. absorbed q.0 (q.1 ++ c)) (joins (waiting st) a b)
        ∙ joins (waiting st) (a ++ b) c
        ∙ ap (λ t. absorbed st.core (waiting st ++ t)) (append_assoc a b c))
  where
    joins :
        (p x y : List ℕ)
        → (let q = absorbed st.core (p ++ x) in absorbed q.0 (q.1 ++ y))
          ≡ absorbed st.core (p ++ (x ++ y))
    joins p x y =
        sym (blocks_into-append 32 take_block (omega arith) st.core (p ++ x) y)
        ∙ ap (absorbed st.core) (append_assoc p x y)

-- The parts of a message count only as one message, whichever of them are empty.
pub gost3411_94_cryptopro-append :
    (a b c : List ℕ) → gost3411_94_cryptopro_parts a b c ≡ gost3411_94_cryptopro (a ++ (b ++ c))
unfolding gost3411_94_cryptopro gost3411_94_cryptopro_parts init
gost3411_94_cryptopro-append a b c =
    let whole = a ++ (b ++ c) in
    three_parts init a b c start
    ∙ ap (λ t. digest_of (absorbed init.core (waiting init ++ t))) (sym (append-nil whole))
    ∙ sym (three_parts init whole [] [] start)
  where
    start : IsBuffered 32 init
    start = record { whole = refl; room = omega arith }
