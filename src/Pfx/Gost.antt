-- ===== src/Pfx/Gost.antt =====
-- src/generic/pfx_generic.c and the end of src/generic/cryptopro_keybag_generic.c: the parts of
-- containers over the GOST algorithms. `none` is the result -1; `out` and `mac` say that the
-- pointers for the results are not null.
pub mod RoundTrip
use libpogost.Base.{
  ◌>>=◌, ℕ, Bool, true, false, not, ◌||◌, Option, none, some, List, ◌==◌, if◌then◌else◌, take, drop,
  Buffer, bytes, is_null, len, contents, is_missing,
}
use libpogost.Hmac.{hmac_streebog512, pbkdf2_streebog512}
use libpogost.Gost28147.{setkey_raw}
use libpogost.Gost28147.Sbox.{sbox_tc26_z}
use libpogost.Gost28147.Modes.{cfb_crypt}
use libpogost.Keybag.{kdf, wrap, blob_crypt}

pfx_mac_streebog512 : Bool → Buffer → Buffer → Buffer → ℕ → Option (List ℕ)
pfx_mac_streebog512 out text pass salt iter =
    if not out || (is_missing text || (is_missing pass || (is_missing salt || iter == 0)))
    then none
    else do
      dk ← pbkdf2_streebog512 true 96 pass salt iter
      some (hmac_streebog512 (take 32 (drop 64 dk)) (contents text))

gost_pfx_mac : Bool → Buffer → Buffer → Buffer → ℕ → Option (List ℕ)
unfolding pfx_mac_streebog512
gost_pfx_mac out text pass salt iter = pfx_mac_streebog512 out text pass salt iter

-- The two directions, which differ in one argument of `gost28147_cfb_crypt` only.
gost89_crypt : Bool → Bool → Buffer → Buffer → Buffer → ℕ → Option (List ℕ) → Option (List ℕ)
gost89_crypt enc out in_ pass salt iter (some iv) =
    if not out
      || (is_missing in_ || (is_missing pass || (is_null salt || (len salt == 0 || iter == 0))))
    then none
    else do
      key ← pbkdf2_streebog512 true 32 pass salt iter
      done ← cfb_crypt (some (setkey_raw key sbox_tc26_z)) out in_ (some iv) enc true
      some done.1
gost89_crypt enc out in_ pass salt iter none = none

pub gost89_encrypt : Bool → Buffer → Buffer → Buffer → ℕ → Option (List ℕ) → Option (List ℕ)
unfolding gost89_crypt
gost89_encrypt out in_ pass salt iter iv = gost89_crypt true out in_ pass salt iter iv

pub gost89_decrypt : Bool → Buffer → Buffer → Buffer → ℕ → Option (List ℕ) → Option (List ℕ)
unfolding gost89_crypt
gost89_decrypt out in_ pass salt iter iv = gost89_crypt false out in_ pass salt iter iv

pub cp80_wrap :
    Bool → Bool → Buffer → Buffer → Buffer → ℕ → Option (List ℕ) → Option (List ℕ × List ℕ)
cp80_wrap enc mac raw_key pass salt iter (some ukm) =
    if not enc || (not mac || (is_null raw_key || is_null salt))
    then none
    else do key ← kdf true pass salt iter; wrap enc mac raw_key (some key) (bytes (take 8 ukm)) 1
cp80_wrap enc mac raw_key pass salt iter none = none

pub cp80_encrypt : Bool → Buffer → Buffer → Buffer → ℕ → Option (List ℕ)
cp80_encrypt out blob pass salt iter =
    if not out || (is_missing blob || is_null salt)
    then none
    else do key ← kdf true pass salt iter; blob_crypt out blob (some key) salt 1

pub cp80_decrypt : Bool → Buffer → Buffer → Buffer → ℕ → Option (List ℕ)
cp80_decrypt out blob pass salt iter =
    if not out || (is_missing blob || (is_null pass || is_null salt))
    then none
    else do key ← kdf true pass salt iter; blob_crypt out blob (some key) salt 0
