-- ===== src/Router/Padding/Laws.antt =====
-- Padding and its removal are inverse to each other.
use native.Mathlib.Nat.{
  div-add-mod, mod-lt, mul-mod_right, add-mod_right, mod-eq_of_lt, mul-suc, mul-add-mod_self_left,
}
use mathlib.Core.Bool.{true≢false}
use homelink_monitor.Base.{
  ℕ, zero, suc, ◌+◌, ◌-◌, ◌*◌, ◌/◌, ◌%◌, ◌^◌, ◌≤◌, ◌<◌, ◌≡◌, refl, ap, ◌∙◌, sym, true, ◌||◌, not,
  [], ◌∷◌, ◌++◌, Text, ok, err, length, take, drop, replicate, all, ltb, ◌==◌, arith, Bool-cases,
  inl, inr, length-append, length-replicate, length-drop, length-take, take-append-drop,
  take-length_append, drop-length_append, ◌↔◌,
}
use homelink_monitor.Router.Padding.{last_byte, pkcs7_pad, drop_padding, pkcs7_unpad}

blocks : (n b : ℕ) → 0 < b → n + (b - n % b) ≡ b * (n / b) + b
blocks n b h = omega (arith, div-add-mod n b, mod-lt n h)

padded_length : (n b : ℕ) → 0 < b → (n + (b - n % b)) % b ≡ 0
padded_length n b h =
    ap (λ m. m % b) (blocks n b h) ∙ add-mod_right (b * (n / b)) b ∙ mul-mod_right b (n / b)

last_byte-replicate : (a p n : ℕ) (input : Text) → last_byte a (input ++ replicate (suc n) p) ≡ p
last_byte-replicate a p zero [] = refl
last_byte-replicate a p (suc n) [] = last_byte-replicate p p n []
last_byte-replicate a p n (x ∷ input) = last_byte-replicate x p n input

all-replicate : (p n : ℕ) → all (λ value. value == p) (replicate n p) ≡ true
all-replicate p zero = refl
all-replicate p (suc n) = ground (arith, all-replicate p n)

replicate-all :
    (p : ℕ) (input : Text)
    → all (λ value. value == p) input ≡ true
    → input ≡ replicate (length input) p
replicate-all p [] h = refl
replicate-all p (x ∷ input) h = elim (Bool-cases (x == p)) [
  | inl e ↦
      ap (λ l. x ∷ l) (replicate-all p input (rw e at h))
      ∙ ap (λ y. y ∷ replicate (length input) p) (ground arith)
  | inr e ↦ absurd (true≢false (sym (rw e at h)))
]

before : (k p b n : ℕ) → p ≤ b → n ≡ b * k + b → n - p ≡ b * k + (b - p)
before k p b n high e = omega arith

unpad_length : (k p b n : ℕ) → 1 ≤ p → p ≤ b → n ≡ b * k + b → b - (n - p) % b ≡ p
unpad_length k p b n low high e =
    ap (λ m. b - m % b) (before k p b n high e)
    ∙ ap (λ m. b - m) (mul-add-mod_self_left b k (b - p) ∙ mod-eq_of_lt (omega arith))
    ∙ omega arith

drop_padding_of :
    (input rest : Text) (b p : ℕ)
    → length rest ≡ p
    → 1 ≤ p
    → p ≤ b
    → all (λ value. value == p) rest ≡ true
    → drop_padding (input ++ rest) b p ≡ ok input
drop_padding_of input rest b p e low high same =
    let at_end : length (input ++ rest) - p ≡ length input =
      omega (arith, length-append input rest) in
    let fits : p ≤ length (input ++ rest) = omega (arith, length-append input rest) in
    rw (at_end, drop-length_append input rest, take-length_append input rest, same) (ground arith)

-- What `drop_padding` takes away is padding.
record IsPadded (input : Text) (b p : ℕ) (rest : Text) : Type 0 where
  low : 1 ≤ p
  high : p ≤ b
  fits : p ≤ length input
  padded : input ≡ rest ++ replicate p p
  rest_length : length rest ≡ length input - p

whole_padding :
    (input : Text) (b p : ℕ) (rest : Text)
    → 1 ≤ p
    → p ≤ b
    → p ≤ length input
    → all (λ value. value == p) (drop (length input - p) input) ≡ true
    → take (length input - p) input ≡ rest
    → IsPadded input b p rest
whole_padding input b p rest low high fits same taken = record {
  low = low;
  high = high;
  fits = fits;
  padded =
      sym (take-append-drop (length input - p) input)
      ∙ ap (λ l. l ++ drop (length input - p) input) taken
      ∙ ap (λ l. rest ++ l) (replicate-all p (drop (length input - p) input) same)
      ∙ ap (λ n. rest ++ replicate n p) (omega (arith, length-drop (length input - p) input));
  rest_length = ap length (sym taken) ∙ omega (arith, length-take (length input - p) input);
}

ok-inj : {A : Type 0} {a b : A} → ok a ≡ ok b → a ≡ b
ok-inj e = cc

err≢ok : {A : Type 0} {m : Text} {b : A} → err m ≡ ok b → ⊥
err≢ok e = cc

drop_padding-ok :
    (input : Text) (b p : ℕ) (rest : Text)
    → drop_padding input b p ≡ ok rest
    → IsPadded input b p rest
drop_padding-ok input b p rest e = elim (Bool-cases (p == 0 || ltb b p || ltb (length input) p)) [
  | inl bad ↦ absurd (ground arith)
  | inr good ↦ elim (Bool-cases (all (λ value. value == p) (drop (length input - p) input))) [
    | inl same ↦
        whole_padding input b p rest (ground arith) (ground arith) (ground arith) same
          (ok-inj (rw (good, same) at e))
    | inr other ↦ absurd (err≢ok (rw (good, other) at e))
  ]
]

pad_of :
    (input : Text) (p b : ℕ)
    → 1 ≤ p
    → p ≤ b
    → (length input + p) % b ≡ 0
    → pkcs7_unpad (input ++ replicate p p) b ≡ ok input
unfolding pkcs7_unpad
pad_of input zero b low high whole = absurd (omega arith)
pad_of input (suc n) b low high whole =
    let long : length (input ++ replicate (suc n) (suc n)) ≡ length input + suc n =
      length-append input (replicate (suc n) (suc n))
      ∙ ap (λ m. length input + m) (length-replicate (suc n) (suc n)) in
    rw (long, whole, last_byte-replicate 0 (suc n) n input)
      (ground (
        arith,
        drop_padding_of input (replicate (suc n) (suc n)) b (suc n)
            (length-replicate (suc n) (suc n)) low high (all-replicate (suc n) (suc n)),
      ))

-- A padding of 1 to 255 bytes is written as one byte.
pkcs7_pad_of :
    (input : Text) (b : ℕ)
    → 0 < b
    → b ≤ 255
    → pkcs7_pad input b ≡ input ++ replicate (b - length input % b) (b - length input % b)
unfolding pkcs7_pad
pkcs7_pad_of input b low high =
    ap (λ value. input ++ replicate (b - length input % b) value) (mod-eq_of_lt (omega arith))

unpad_inverts :
    (input : Text) (b : ℕ) → 0 < b → b ≤ 255 → pkcs7_unpad (pkcs7_pad input b) b ≡ ok input
unpad_inverts input b low high =
    ap (λ l. pkcs7_unpad l b) (pkcs7_pad_of input b low high)
    ∙ pad_of input (b - length input % b) b (omega (arith, mod-lt (length input) low)) (omega arith)
        (padded_length (length input) b low)

padding_amount : (q p b n : ℕ) → 1 ≤ p → p ≤ b → p ≤ n → n ≡ b * q → b - (n - p) % b ≡ p
padding_amount zero p b n low high fits e = absurd (omega arith)
padding_amount (suc k) p b n low high fits e =
    unpad_length k p b n low high (omega (arith, mul-suc b k))

-- A padded text of whole blocks is what the padding of the rest gives.
IsPadded-eq :
    (input : Text) (b p : ℕ) (rest : Text)
    → 0 < b
    → b ≤ 255
    → length input % b ≡ 0
    → IsPadded input b p rest
    → input ≡ pkcs7_pad rest b
IsPadded-eq input b p rest low high whole h =
    let amount : b - length rest % b ≡ p =
      ap (λ n. b - n % b) h.rest_length
      ∙ padding_amount (length input / b) p b (length input) h.low h.high h.fits
          (omega (arith, div-add-mod (length input) b)) in
    h.padded ∙ ap (λ n. rest ++ replicate n n) (sym amount) ∙ sym (pkcs7_pad_of rest b low high)

pkcs7_unpad-eq :
    (input rest : Text) (b : ℕ)
    → 0 < b
    → b ≤ 255
    → pkcs7_unpad input b ≡ ok rest
    → input ≡ pkcs7_pad rest b
unfolding pkcs7_unpad
pkcs7_unpad-eq input rest b low high e =
    elim (Bool-cases (length input == 0 || not (length input % b == 0))) [
      | inl bad ↦ absurd (err≢ok (rw bad at e))
      | inr good ↦
          IsPadded-eq input b (last_byte 0 input) rest low high (ground arith)
            (drop_padding-ok input b (last_byte 0 input) rest (rw good at e))
    ]

-- For blocks of 1 to 255 bytes, `pkcs7Unpad` succeeds exactly on what `pkcs7Pad` makes, and returns
-- what was padded.
pub pkcs7_unpad_iff :
    (input rest : Text) (b : ℕ)
    → 0 < b
    → b ≤ 255
    → (pkcs7_unpad input b ≡ ok rest) ↔ (input ≡ pkcs7_pad rest b)
pkcs7_unpad_iff input rest b low high = (
  pkcs7_unpad-eq input rest b low high,
  λ e. ap (λ l. pkcs7_unpad l b) e ∙ unpad_inverts rest b low high,
)

-- The padded text has whole blocks.
pub length-pkcs7_pad : (input : Text) (b : ℕ) → 0 < b → length (pkcs7_pad input b) % b ≡ 0
unfolding pkcs7_pad
length-pkcs7_pad input b low =
    ap (λ n. n % b)
      (length-append input (replicate (b - length input % b) ((b - length input % b) % 2 ^ 8))
        ∙ ap (λ n. length input + n)
            (length-replicate (b - length input % b) ((b - length input % b) % 2 ^ 8)))
    ∙ padded_length (length input) b low
