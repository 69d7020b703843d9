-- ===== src/Pfx/Pad.antt =====
-- The padding of the last block, and its removal.
use libpogost.Base.{
  ℕ, zero, suc, ◌+◌, ◌-◌, ◌≤◌, ◌<◌, ◌≡◌, refl, sym, ap, ◌∙◌, true, false, some, List, ◌++◌, arith,
  ltb, ◌==◌, ==_iff, length, replicate, length-append, length-replicate, take-append, byte_at,
  byte_at-append_right,
}
use libpogost.Pfx.{pads_ok, unpad}

byte_at-replicate : (n i x : ℕ) → i < n → byte_at (replicate n x) i ≡ x
byte_at-replicate zero i x h = absurd (omega arith)
byte_at-replicate (suc n) zero x h = refl
byte_at-replicate (suc n) (suc i) x h = byte_at-replicate n i x (omega arith)

module _ (text : List ℕ) (p : ℕ) where
  abbrev padded : List ℕ
  padded = text ++ replicate p p

  length-padded : length padded ≡ length text + p
  length-padded =
      length-append text (replicate p p) ∙ ap (λ n. length text + n) (length-replicate p p)

  byte_at-padded : (i : ℕ) → i < p → byte_at padded (length padded - 1 - i) ≡ p
  byte_at-padded i h =
      let l = length-padded in
      byte_at-append_right text (replicate p p) (length padded - 1 - i) (omega arith)
      ∙ byte_at-replicate p (length padded - 1 - i - length text) p (omega arith)

  pads_ok-padded : (left i : ℕ) → left + i ≤ p → pads_ok left i p padded ≡ true
  unfolding pads_ok
  pads_ok-padded zero i h = refl
  pads_ok-padded (suc left) i h =
      let e = byte_at-padded i (omega arith) in
      let t : (byte_at padded (length padded - 1 - i) == p) ≡ true = (==_iff _ p).1 e in
      let later = pads_ok-padded left (i + 1) (omega arith) in rw (t, later) refl

  -- From 1 to 8 bytes of padding are taken off again.
  pub unpad-padded : 0 < p → p ≤ 8 → unpad padded ≡ some text
  unfolding unpad
  unpad-padded pos fits =
      let l = length-padded in
      let z : length padded - 1 - 0 ≡ length padded - 1 = omega arith in
      let e : byte_at padded (length padded - 1) ≡ p =
        ap (λ k. byte_at padded k) (sym z) ∙ byte_at-padded 0 pos in
      let a : ltb p 1 ≡ false = ground arith in
      let b : ltb 8 p ≡ false = ground arith in
      let c : ltb (length padded) p ≡ false = not_below (length padded) p (omega arith) in
      let d = pads_ok-padded p 0 (omega arith) in
      rw (e, a, b, c, d)
        (ap some (take-append (length padded - p) text (replicate p p) (omega arith)))
    where
      not_below : (x y : ℕ) → y ≤ x → ltb x y ≡ false
      not_below x y h = ground arith
