-- ===== src/Router/Padding.antt =====
-- `pkcs7Pad` and `pkcs7Unpad` of services/api/internal/router/tplink.go.
pub mod Laws
mod Tests
use homelink_monitor.Base.{
  ℕ, ◌+◌, ◌-◌, ◌%◌, ◌^◌, ◌||◌, not, [], ◌∷◌, ◌++◌, Text, bytes, Result, ok, err, if◌then◌else◌,
  length, take, drop, replicate, all, ltb, ◌==◌,
}

-- `data[len(data)-1]`; `a` if there is no byte.
abbrev pub last_byte : ℕ → Text → ℕ
last_byte a [] = a
last_byte a (x ∷ input) = last_byte x input

-- `byte(padding)` wraps at 256.
unfoldable pub pkcs7_pad : Text → ℕ → Text
pkcs7_pad input block_size =
    let padding = block_size - length input % block_size in
    input ++ replicate padding (padding % 2 ^ 8)

abbrev pub drop_padding : Text → ℕ → ℕ → Result Text
drop_padding input block_size padding =
    if padding == 0 || ltb block_size padding || ltb (length input) padding
    then err (bytes "invalid PKCS7 padding")
    else if all (λ value. value == padding) (drop (length input - padding) input)
    then ok (take (length input - padding) input)
    else err (bytes "invalid PKCS7 padding")

unfoldable pub pkcs7_unpad : Text → ℕ → Result Text
pkcs7_unpad input block_size =
    if length input == 0 || not (length input % block_size == 0)
    then err (bytes "invalid PKCS7 data")
    else drop_padding input block_size (last_byte 0 input)
