-- ===== src/Router/Crypto/Rounds.antt =====
-- What is encrypted is decrypted, and what is cut into pieces is whole.
use homelink_monitor.Base.{
  ℕ, zero, suc, ◌-◌, ◌%◌, ◌≤◌, ◌<◌, ◌≡◌, refl, ap, ◌∙◌, true, List, [], ◌∷◌, ◌++◌, Text, ok,
  if◌then◌else◌, length, take, drop, replicate, leb, ◌==◌, arith, All, Bool-cases, inl, inr,
  length-append, length-drop, length-take, length-replicate, take-append-drop,
}
use homelink_monitor.Router.Library.{Library}
use homelink_monitor.Router.Padding.{pkcs7_pad}
use homelink_monitor.Router.Padding.Laws.{pkcs7_unpad_iff, length-pkcs7_pad}
use homelink_monitor.Router.Crypto.{
  ◌>>=◌, left_pad_hex, chunks_from, chunks, aes_cbc_encrypt_base64, aes_cbc_decrypt_base64,
}

abbrev pub concat : List Text → Text
concat [] = []
concat (s ∷ texts) = s ++ concat texts

abbrev pub IsPiece : Text → Type 0
IsPiece s = (0 < length s) × (length s ≤ 53)

chunks_from_lem :
    (fuel : ℕ) (s : Text)
    → length s ≤ fuel
    → (concat (chunks_from fuel s) ≡ s) × All IsPiece (chunks_from fuel s)
unfolding chunks_from
chunks_from_lem zero [] h = (refl, tt)
chunks_from_lem zero (a ∷ s) h = absurd (omega arith)
chunks_from_lem (suc fuel) s h = elim (Bool-cases (length s == 0)) [
  | inl empty ↦ rw (empty, chunks_from) (nil_of_length s (ground arith), tt)
  | inr more ↦
      let (whole, pieces) = chunks_from_lem fuel (drop 53 s) (ground (arith, length-drop 53 s)) in
      rw (more, chunks_from)
        (
          ap (λ rest. take 53 s ++ rest) whole ∙ take-append-drop 53 s,
          ((ground (arith, length-take 53 s), omega (arith, length-take 53 s)), pieces),
        )
]
  where
    nil_of_length : (s : Text) → length s ≡ 0 → [] ≡ s
    nil_of_length [] e = refl
    nil_of_length (a ∷ s) e = absurd (omega arith)

-- The pieces that are signed make up the text, and each has 1 to 53 bytes.
pub chunks_lem : (s : Text) → (concat (chunks s) ≡ s) × All IsPiece (chunks s)
unfolding chunks
chunks_lem s = chunks_from_lem (length s) s (omega arith)

-- A number in hex is padded to the length of the modulus, and never cut.
pub length-left_pad_hex :
    (value : Text) (size : ℕ)
    → (length (left_pad_hex value size) ≡ (if leb size (length value) then length value else size))
unfolding left_pad_hex
length-left_pad_hex value size = ground (
  arith,
  length-append (replicate (size - length value) b'0') value,
  length-replicate {A = ℕ} (size - length value) b'0',
)

-- If base64 decodes what it encodes, and AES takes the key and, on whole blocks, inverts itself and
-- keeps the length, then what `aesCBCEncryptBase64` returns is decrypted to the plain text.
pub aes_cbc_decrypt_base64-encrypt :
    {F : Type 0} (lib : Library F) (key iv plain : Text)
    → ((s : Text) → lib.unbase64 (lib.base64 s) ≡ ok s)
    → lib.new_cipher key ≡ ok tt
    → ((s : Text) → length s % 16 ≡ 0 → length (lib.cbc_encrypt key iv s) ≡ length s)
    → ((s : Text) → length s % 16 ≡ 0 → lib.cbc_decrypt key iv (lib.cbc_encrypt key iv s) ≡ s)
    → (aes_cbc_encrypt_base64 lib key iv plain >>= λ encrypted.
        aes_cbc_decrypt_base64 lib key iv encrypted)
      ≡ ok plain
unfolding aes_cbc_encrypt_base64 aes_cbc_decrypt_base64
aes_cbc_decrypt_base64-encrypt lib key iv plain base64_inverse key_fits keeps inverse =
    let whole : length (pkcs7_pad plain 16) % 16 ≡ 0 = length-pkcs7_pad plain 16 (omega arith) in
    let fits : (length (lib.cbc_encrypt key iv (pkcs7_pad plain 16)) % 16 == 0) ≡ true =
      ap (λ n. n % 16 == 0) (keeps (pkcs7_pad plain 16) whole) ∙ ap (λ n. n == 0) whole in
    rw
      (
        key_fits,
        base64_inverse (lib.cbc_encrypt key iv (pkcs7_pad plain 16)),
        fits,
        inverse (pkcs7_pad plain 16) whole,
      )
      ((pkcs7_unpad_iff (pkcs7_pad plain 16) plain 16 (omega arith) (omega arith)).1 refl)
