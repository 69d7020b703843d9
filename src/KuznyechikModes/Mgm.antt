-- ===== src/KuznyechikModes/Mgm.antt =====
-- The authenticated encryption MGM of src/generic/gost_tls_generic.c over the block cipher, with
-- the multiplication in the field of 2 ^ 128 elements, and the nonces of TLS 1.3.
pub mod Words
pub mod Field
pub mod Nonce
pub mod Sealed
mod Tests
use libpogost.Base.{
  ℕ, zero, suc, ◌+◌, ◌-◌, ◌*◌, bit_and, bit_or, bit_xor, Bool, not, Option, none, some, List, [],
  ◌++◌, ltb, if◌then◌else◌, length, set, take, drop, replicate, u8, u64, ◌<<<◌, ◌>>>◌, byte_at,
  xor_bytes, memeq,
}
use libpogost.Kdf.{put_be64}
use libpogost.KuznyechikModes.{BlockCipher}

-- The loop of `get_be64` with the value so far.
pub get_be64_loop : ℕ → ℕ → List ℕ → ℕ
get_be64_loop zero v in_ = v
get_be64_loop (suc left) v in_ =
    get_be64_loop left (bit_or (u64 (v <<< 8)) (byte_at in_ 0)) (drop 1 in_)

pub get_be64 : List ℕ → ℕ
unfolding get_be64_loop
get_be64 in_ = get_be64_loop 8 0 in_

-- The two halves of `x`, and those of the result so far.
pub record Product : Type 0 where
  pub x_hi : ℕ
  pub x_lo : ℕ
  pub res_hi : ℕ
  pub res_lo : ℕ

-- `if ((y >> i) & 1)`
pub add_if : Bool → Product → Product
add_if bit s =
    if bit
    then record s { res_hi = bit_xor s.res_hi s.x_hi; res_lo = bit_xor s.res_lo s.x_lo }
    else s

-- What a round does to `x`: a shift to the left, and 0x87 for the bit that leaves.
pub double_x : Product → Product
double_x s =
    let x_lo = u64 (s.x_lo <<< 1) in
    record s {
      x_hi = bit_or (u64 (s.x_hi <<< 1)) (s.x_lo >>> 63);
      x_lo = if ltb 0 (bit_and (s.x_hi >>> 63) 1) then bit_xor x_lo 0x87 else x_lo;
    }

-- `for (i = 0; i < 64; i++)` over the bits of `y`, with the rounds to go.
pub mul_loop : ℕ → ℕ → ℕ → Product → Product
mul_loop zero i y s = s
mul_loop (suc left) i y s =
    mul_loop left (i + 1) y (double_x (add_if (ltb 0 (bit_and (y >>> i) 1)) s))

pub gf128_mul : List ℕ → List ℕ → List ℕ
unfolding mul_loop double_x add_if get_be64
gf128_mul x y =
    let start : Product = record {
      x_hi = get_be64 x;
      x_lo = get_be64 (drop 8 x);
      res_hi = 0;
      res_lo = 0;
    } in
    let done = mul_loop 64 0 (get_be64 y) (mul_loop 64 0 (get_be64 (drop 8 y)) start) in
    put_be64 done.res_hi ++ put_be64 done.res_lo

pub mgm_incr_r : List ℕ → List ℕ
unfolding get_be64
mgm_incr_r b = take 8 b ++ put_be64 (u64 (get_be64 (drop 8 b) + 1))

pub mgm_incr_l : List ℕ → List ℕ
unfolding get_be64
mgm_incr_l b = put_be64 (u64 (get_be64 b + 1)) ++ drop 8 b

-- `out_nonce[15 - i] ^= (u8)((seq >> (8 * i)) & 0xff)`, with the rounds to go.
nonce_loop : ℕ → ℕ → ℕ → List ℕ → List ℕ
nonce_loop zero i seq nonce = nonce
nonce_loop (suc left) i seq nonce =
    nonce_loop left (i + 1) seq
      (set nonce (15 - i) (bit_xor (byte_at nonce (15 - i)) (u8 (bit_and (seq >>> (8 * i)) 0xff))))

pub make_nonce : List ℕ → ℕ → List ℕ
unfolding nonce_loop
make_nonce iv seq =
    let nonce = nonce_loop 8 0 seq (take 16 iv) in set nonce 0 (bit_and (byte_at nonce 0) 0x7f)

module _ (E : BlockCipher) where
  -- `while (p_done < in_len)`, with the input to go.
  pub stream_loop : ℕ → E.Ctx → List ℕ → List ℕ → List ℕ
  unfolding mgm_incr_r
  stream_loop zero ctx y rest = []
  stream_loop (suc fuel) ctx y rest =
      let n = if ltb (length rest) 16 then length rest else 16 in
      let later = stream_loop fuel ctx (mgm_incr_r y) (drop n rest) in
      if ltb 0 (length rest) then xor_bytes (take n rest) (E.encrypt ctx y) ++ later else []

  -- The encryption of `in`, and its decryption.
  pub stream : E.Ctx → List ℕ → List ℕ → List ℕ
  stream ctx nonce in_ =
      let y = set nonce 0 (bit_and (byte_at nonce 0) 0x7f) in
      if ltb 0 (length in_) then stream_loop (length in_) ctx (E.encrypt ctx y) in_ else []

  -- One block into the sum, with the counter `z`.
  pub sum_block : E.Ctx → List ℕ → List ℕ → List ℕ → List ℕ
  unfolding gf128_mul
  sum_block ctx z sum block = xor_bytes sum (gf128_mul (E.encrypt ctx z) block)

  -- `while (aad_done < aad_len)`, and the same loop over the cipher text: `z` and `sum`.
  pub sum_loop : ℕ → E.Ctx → List ℕ → List ℕ → List ℕ → List ℕ × List ℕ
  unfolding sum_block mgm_incr_l
  sum_loop zero ctx z sum rest = (z, sum)
  sum_loop (suc fuel) ctx z sum rest =
      let n = if ltb (length rest) 16 then length rest else 16 in
      let block = take n rest ++ replicate (16 - n) 0 in
      let later = sum_loop fuel ctx (mgm_incr_l z) (sum_block ctx z sum block) (drop n rest) in
      if ltb 0 (length rest) then later else (z, sum)

  -- The tag of the associated bytes and the cipher text.
  pub mgm_tag : E.Ctx → List ℕ → List ℕ → List ℕ → List ℕ
  unfolding sum_loop sum_block
  mgm_tag ctx nonce aad ct =
      let z = E.encrypt ctx (set nonce 0 (bit_or (byte_at nonce 0) 0x80)) in
      let a = sum_loop (length aad) ctx z (replicate 16 0) aad in
      let c = sum_loop (length ct) ctx a.0 a.1 ct in
      let len_block = put_be64 (u64 (length aad * 8)) ++ put_be64 (u64 (length ct * 8)) in
      E.encrypt ctx (sum_block ctx c.0 c.1 len_block)

  -- The cipher text and the tag.
  pub mgm_encrypt : List ℕ → List ℕ → List ℕ → List ℕ → List ℕ × List ℕ
  mgm_encrypt key nonce aad in_ =
      let ctx = E.setkey key in let out = stream ctx nonce in_ in (out, mgm_tag ctx nonce aad out)

  -- Minus one is `none`: `out` is cleared.
  pub mgm_decrypt : List ℕ → List ℕ → List ℕ → List ℕ → List ℕ → Option (List ℕ)
  mgm_decrypt key nonce aad in_ tag =
      let ctx = E.setkey key in
      if not (memeq (mgm_tag ctx nonce aad in_) tag) then none else some (stream ctx nonce in_)
