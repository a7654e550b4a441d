-- ===== src/Router/Crypto.antt =====
-- RSA, AES and the signatures of services/api/internal/router/tplink.go, over the primitives of the
-- library.
pub mod Rounds
use homelink_monitor.Base.{
  ℕ, zero, suc, ◌+◌, ◌-◌, ◌%◌, ◌^◌, Bool, true, false, Option, none, some, List, [], ◌∷◌, ◌++◌,
  Text, bytes, Result, ok, err, if◌then◌else◌, length, take, drop, replicate, leb, ltb, ◌==◌, ℤ,
  pos, negsuc,
}
use homelink_monitor.Router.Library.{Library, PublicKey}
use homelink_monitor.Router.Padding.{pkcs7_pad, pkcs7_unpad}

infixl 5 ◌>>=◌
-- A chain of calls that may fail and change no state.
abbrev pub ◌>>=◌ : {A B : Type 0} → Result A → (A → Result B) → Result B
ok a >>= f = f a
err e >>= f = err e

unfoldable pub left_pad_hex : Text → ℕ → Text
left_pad_hex value size =
    if leb size (length value) then value else replicate (size - length value) b'0' ++ value

-- `e.IsInt64()`.
abbrev pub is_int64 : ℤ → Bool
is_int64 (pos n) = ltb n (2 ^ 63)
is_int64 (negsuc n) = ltb n (2 ^ 63)

-- A number that `SetString` may refuse.
abbrev pub read_hex : Option ℤ → Text → Result ℤ
read_hex none e = err e
read_hex (some n) e = ok n

-- The pieces of 53 bytes that `for start := 0; start < len(s); start += 53` cuts; the rounds are
-- bounded by the length.
unfoldable pub chunks_from : ℕ → Text → List Text
chunks_from zero s = []
chunks_from (suc fuel) s = elim (length s == 0) [
  | true ↦ []
  | false ↦ take 53 s ∷ chunks_from fuel (drop 53 s)
]

unfoldable pub chunks : Text → List Text
unfolding chunks_from
chunks s = chunks_from (length s) s

abbrev pub block_size : ℕ
block_size = 16

module _ {F : Type 0} (lib : Library F) where
  -- The key, and the length of its modulus in hex.
  unfoldable pub rsa_public_key : Text → Text → Result (PublicKey × ℕ)
  rsa_public_key n_hex e_hex = do
    n ← read_hex (lib.parse_hex n_hex) (bytes "invalid RSA modulus")
    e ← read_hex (lib.parse_hex e_hex) (bytes "invalid RSA exponent")
    if is_int64 e then ok ((n, e), length n_hex) else err (bytes "RSA exponent is too large")

  unfoldable pub rsa_encrypt_pkcs1v15 : ℕ → Text → Text → Text → Result Text
  rsa_encrypt_pkcs1v15 draw value n_hex e_hex = do
    key ← rsa_public_key n_hex e_hex
    encrypted ← lib.encrypt_pkcs1v15 draw key.0 value
    ok (left_pad_hex (lib.hex encrypted) key.1)

  unfoldable pub rsa_encrypt_oaep : ℕ → Text → Text → Text → Result Text
  rsa_encrypt_oaep draw value n_hex e_hex = do
    key ← rsa_public_key n_hex e_hex
    encrypted ← lib.encrypt_oaep draw key.0 value
    ok (left_pad_hex (lib.hex encrypted) key.1)

  unfoldable pub aes_cbc_encrypt_base64 : Text → Text → Text → Result Text
  aes_cbc_encrypt_base64 key iv plain = do
    _ ← lib.new_cipher key
    ok (lib.base64 (lib.cbc_encrypt key iv (pkcs7_pad plain block_size)))

  abbrev pub decrypt_blocks : Text → Text → Text → Result Text
  decrypt_blocks key iv raw =
      if length raw % block_size == 0
      then lib.new_cipher key >>= (λ _. pkcs7_unpad (lib.cbc_decrypt key iv raw) block_size)
      else err (bytes "invalid AES ciphertext size")

  unfoldable pub aes_cbc_decrypt_base64 : Text → Text → Text → Result Text
  aes_cbc_decrypt_base64 key iv encrypted = do
    raw ← lib.unbase64 encrypted
    decrypt_blocks key iv raw

  -- One encryption for each piece; `draw` counts them.
  unfoldable pub sign_chunks : ℕ → Text → Text → List Text → Result Text
  sign_chunks draw n_hex e_hex [] = ok []
  sign_chunks draw n_hex e_hex (piece ∷ pieces) =
      rsa_encrypt_oaep draw piece n_hex e_hex >>= λ chunk.
      sign_chunks (suc draw) n_hex e_hex pieces >>= λ rest. ok (chunk ++ rest)

  unfoldable pub mac_chunks : Text → List Text → Text
  mac_chunks key [] = []
  mac_chunks key (piece ∷ pieces) = lib.hex (lib.hmac_sha256 key piece) ++ mac_chunks key pieces

  -- `randomDigits`, from the n-th random byte on.
  unfoldable pub random_digits : ℕ → ℕ → Text
  random_digits n zero = []
  random_digits n (suc length) = elim (lib.random_byte n) [
    | none ↦ b'0' ∷ random_digits (suc n) length
    | some b ↦ (b'0' + b % 10) ∷ random_digits (suc n) length
  ]
