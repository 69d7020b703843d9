-- ===== src/Gost28147/Context.antt =====
-- The functions of src/generic/gost28147_generic.c on the opaque `struct gost28147_ctx`, which
-- holds a `struct gost28147_state`.
use libpogost.Base.{ℕ, Bool, true, Option, none, some, List}
use libpogost.Gost28147.{State, setkey_raw, encrypt_raw, decrypt_raw}
use libpogost.Gost28147.Sbox.{sbox_cryptopro_a}

-- `none` is the result -1; `ctx` says that the pointer is not null.
unfoldable pub setkey_cryptopro_a : Bool → Option (List ℕ) → Option State
unfolding setkey_raw
setkey_cryptopro_a true (some key) = some (setkey_raw key sbox_cryptopro_a)
setkey_cryptopro_a _ _ = none

unfoldable pub encrypt : State → List ℕ → List ℕ
unfolding encrypt_raw
encrypt ctx in_ = encrypt_raw ctx in_

unfoldable pub decrypt : State → List ℕ → List ℕ
unfolding decrypt_raw
decrypt ctx in_ = decrypt_raw ctx in_
