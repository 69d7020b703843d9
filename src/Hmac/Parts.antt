-- ===== src/Hmac/Parts.antt =====
-- The parts of a message to the keyed hash: they are read as one message, and empty parts make
-- no difference. A digest of the keyed hash has the length of its kind.
use libpogost.Base.{
  ℕ, ◌/◌, ◌<◌, ◌≡◌, refl, sym, ap, ap₂, ◌∙◌, true, List, [], ◌∷◌, ◌++◌, append_assoc, append-nil,
  arith, ltb, ◌==◌, if◌then◌else◌, length, take, length-take,
}
use libpogost.Streebog.{Core, State, init, update, final}
use libpogost.Streebog.Update.{
  IsValid, pending, absorbed, absorbed-append, absorbed-short, update_refines, init-IsValid,
}
use libpogost.Streebog.Digest.{digest_of, final-eq-digest_of}
use libpogost.Streebog.Length.{init-IsWhole, init-digest_size, update-IsWhole, length-final}
use libpogost.Hmac.{
  feed, key_block, xor_all, hmac_parts, hmac_streebog256, hmac_streebog512, hmac_streebog256_parts,
  hmac_streebog512_parts,
}

-- What a state stands for.
abbrev view : State → Core × List ℕ
view st = (st.core, pending st)

-- `st` stands for the core and the waiting bytes `r`, and keeps its kind of digest.
record Holds (size : ℕ) (r : Core × List ℕ) (st : State) : Type 0 where
  valid : IsValid st
  stands : ◌≡◌ {A = Core × List ℕ} (st.core, pending st) r
  kind : st.digest_size ≡ size

Holds-self : (st : State) → IsValid st → Holds st.digest_size (st.core, pending st) st
Holds-self st v = record { valid = v; stands = refl; kind = refl }

update-Holds :
    {size : ℕ} {r : Core × List ℕ} {st : State} (xs : List ℕ)
    → Holds size r st
    → Holds size (absorbed r.0 (r.1 ++ xs)) (update st xs)
update-Holds {st = st} xs h =
    let u = update_refines st xs h.valid in
    record {
      valid = u.0;
      stands = u.1 ∙ ap (λ q. absorbed q.0 (q.1 ++ xs)) h.stands;
      kind = u.2 ∙ h.kind;
    }

-- A part that is skipped when it is empty.
feed-Holds :
    {size : ℕ} {r : Core × List ℕ} {st : State} (xs : List ℕ)
    → Holds size r st
    → Holds size (absorbed r.0 (r.1 ++ xs)) (feed st xs)
feed-Holds {size} {r} {st} [] h = record {
  valid = unfold feed in h.valid;
  stands =
      unfold feed in
      h.stands
      ∙ sym
          (ap (absorbed r.0) (append-nil r.1) ∙ absorbed-short r.0 r.1 (short r h.stands h.valid));
  kind = unfold feed in h.kind;
}
  where
    short :
        (q : Core × List ℕ)
        → ◌≡◌ {A = Core × List ℕ} (st.core, pending st) q
        → IsValid st
        → length q.1 < 64
    short q e v =
        rw (← ap (λ (t : Core × List ℕ). t.1) e)
          (omega (arith, v, length-take st.fillsize st.buffer))
feed-Holds {st = st} (x ∷ xs) h =
    let some_left : ltb 0 (length (x ∷ xs)) ≡ true = ground arith in
    unfold feed in rw some_left (update-Holds (x ∷ xs) h)

final-Holds :
    {size : ℕ} {r : Core × List ℕ} {st : State} → Holds size r st → final st ≡ digest_of size r
final-Holds {st = st} h = final-eq-digest_of st h.valid ∙ ap₂ digest_of h.kind h.stands

-- Three parts in a row.
three_parts :
    {size : ℕ} {r : Core × List ℕ} {st : State} (a b c : List ℕ)
    → Holds size r st
    → final (feed (feed (feed st a) b) c) ≡ digest_of size (absorbed r.0 (r.1 ++ (a ++ (b ++ c))))
three_parts {size} {r} {st} a b c h =
    final-Holds (feed-Holds c (feed-Holds b (feed-Holds a h)))
    ∙ ap (digest_of size) (
        ap (λ q. absorbed q.0 (q.1 ++ c)) (joins r.0 r.1 a b)
        ∙ joins r.0 r.1 (a ++ b) c
        ∙ ap (λ t. absorbed r.0 (r.1 ++ t)) (append_assoc a b c))
  where
    joins :
        (k : Core) (p x y : List ℕ)
        → (let q = absorbed k (p ++ x) in absorbed q.0 (q.1 ++ y)) ≡ absorbed k (p ++ (x ++ y))
    joins k p x y = sym (absorbed-append k (p ++ x) y) ∙ ap (absorbed k) (append_assoc p x y)

-- The parts of a message to `hmac_parts` count only as one message, whichever of them are empty.
pub hmac_parts-append :
    (bits : ℕ) (key a b c : List ℕ)
    → hmac_parts bits key a b c ≡ hmac_parts bits key (a ++ (b ++ c)) [] []
unfolding hmac_parts
hmac_parts-append bits key a b c =
    let start = update (init bits) (xor_all 0x36 (key_block bits key)) in
    let h = Holds-self start (update_refines (init bits) _ (init-IsValid bits)).0 in
    let whole = a ++ (b ++ c) in
    ap
      (λ inner. final (
        update (update (init bits) (xor_all 0x5c (key_block bits key)))
          (take (if bits == 256 then 32 else 64) inner)))
      (three_parts a b c h
        ∙ ap (λ t. digest_of start.digest_size (absorbed start.core (pending start ++ t)))
            (sym (append-nil whole))
        ∙ sym (three_parts whole [] [] h))

-- The length of a digest.
abbrev pub digest_size : ℕ → ℕ
digest_size bits = if bits / 8 == 32 then 32 else 64

-- Whatever the key and the parts, the result of `hmac_parts` is 32 bytes long for 256 bits and
-- 64 bytes for 512 bits.
length-hmac_parts :
    (bits : ℕ) (key a b c : List ℕ) → length (hmac_parts bits key a b c) ≡ digest_size bits
unfolding hmac_parts
length-hmac_parts bits key a b c = second bits (xor_all 0x5c (key_block bits key)) _
  where
    size_kept : (n : ℕ) (xs ys : List ℕ) → (update (update (init n) xs) ys).digest_size ≡ n / 8
    size_kept n xs ys =
        let u = update_refines (init n) xs (init-IsValid n) in
        (update_refines (update (init n) xs) ys u.0).2 ∙ u.2 ∙ init-digest_size n

    second :
        (n : ℕ) (xs ys : List ℕ) → length (final (update (update (init n) xs) ys)) ≡ digest_size n
    second n xs ys =
        let u = update_refines (init n) xs (init-IsValid n) in
        length-final _ (
          update-IsWhole (update (init n) xs) ys u.0
            (update-IsWhole (init n) xs (init-IsValid n) (init-IsWhole n)))
        ∙ ap (λ k. if k == 32 then 32 else 64) (size_kept n xs ys)

pub length-hmac_streebog256_parts :
    (key a b c : List ℕ) → length (hmac_streebog256_parts key a b c) ≡ 32
unfolding hmac_streebog256_parts
length-hmac_streebog256_parts key a b c = length-hmac_parts 256 key a b c

pub length-hmac_streebog256 : (key input : List ℕ) → length (hmac_streebog256 key input) ≡ 32
unfolding hmac_streebog256
length-hmac_streebog256 key input = length-hmac_parts 256 key input [] []

pub length-hmac_streebog512_parts :
    (key a b : List ℕ) → length (hmac_streebog512_parts key a b) ≡ 64
unfolding hmac_streebog512_parts
length-hmac_streebog512_parts key a b = length-hmac_parts 512 key a b []

pub length-hmac_streebog512 : (key input : List ℕ) → length (hmac_streebog512 key input) ≡ 64
unfolding hmac_streebog512
length-hmac_streebog512 key input = length-hmac_parts 512 key input [] []
