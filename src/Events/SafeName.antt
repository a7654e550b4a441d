-- ===== src/Events/SafeName.antt =====
-- `safeName` of services/api/internal/events/outbox.go. Its loop ranges over the runes of the name:
-- a byte that is part of an earlier rune is skipped.
use homelink_monitor.Base.{
  ℕ, zero, suc, ◌≤◌, ◌≡◌, refl, ap, Bool, true, ◌&&◌, ◌||◌, [], ◌∷◌, arith, leb, ◌==◌,
  if◌then◌else◌, Bool-cases, inl, inr, ◌⊎◌, ◌↔◌, Text, All, length, bytes,
}

abbrev is_between : ℕ → ℕ → ℕ → Bool
is_between lo hi b = leb lo b && leb b hi

abbrev is_continuation : ℕ → Bool
is_continuation b = is_between 0x80 0xbf b

-- The first bytes of a rune of three or four bytes, after Go's table of UTF-8.
starts_three : ℕ → ℕ → Bool
starts_three a b =
    (a == 0xe0 && is_between 0xa0 0xbf b)
    || (is_between 0xe1 0xec a && is_continuation b)
    || (a == 0xed && is_between 0x80 0x9f b)
    || (is_between 0xee 0xef a && is_continuation b)

starts_four : ℕ → ℕ → Bool
starts_four a b =
    (a == 0xf0 && is_between 0x90 0xbf b)
    || (is_between 0xf1 0xf3 a && is_continuation b)
    || (a == 0xf4 && is_between 0x80 0x8f b)

-- How many bytes after `a` belong to its rune; none if the bytes are no UTF-8.
unfoldable pub rune_tail : ℕ → Text → ℕ
unfolding starts_three starts_four
rune_tail a [] = 0
rune_tail a (b ∷ []) = if is_between 0xc2 0xdf a && is_continuation b then 1 else 0
rune_tail a (b ∷ c ∷ []) =
    if is_between 0xc2 0xdf a && is_continuation b
    then 1
    else if starts_three a b && is_continuation c
    then 2
    else 0
rune_tail a (b ∷ c ∷ d ∷ s) =
    if is_between 0xc2 0xdf a && is_continuation b
    then 1
    else if starts_three a b && is_continuation c
    then 2
    else if starts_four a b && is_continuation c && is_continuation d
    then 3
    else 0

-- The runes that are kept.
abbrev pub is_safe : ℕ → Bool
is_safe r =
    (leb b'a' r && leb r b'z')
    || (leb b'A' r && leb r b'Z')
    || (leb b'0' r && leb r b'9')
    || r == b'.'
    || r == b'-'
    || r == b'_'

-- `skip` is the number of bytes of the last rune that are still to come.
unfoldable pub safe_from : ℕ → Text → Text
safe_from skip [] = []
safe_from (suc skip) (a ∷ s) = safe_from skip s
safe_from zero (a ∷ s) = (if is_safe a then a else b'-') ∷ safe_from (rune_tail a s) s

unfoldable pub safe_name : Text → Text
unfolding safe_from rune_tail
safe_name name = safe_from 0 name

-- The bytes from `lo` to `hi`.
abbrev IsBetween : ℕ → ℕ → ℕ → Type 0
IsBetween lo hi a = (lo ≤ a) × (a ≤ hi)

-- An ASCII letter or digit, '-' (45), '.' (46) or '_' (95), by the codes.
abbrev pub IsSafe : ℕ → Type 0
IsSafe a = IsBetween 97 122 a ⊎ IsBetween 65 90 a ⊎ IsBetween 48 57 a ⊎ IsBetween 45 46 a ⊎ (a ≡ 95)

is_safe_iff : (a : ℕ) → (is_safe a ≡ true) ↔ IsSafe a
is_safe_iff a = (λ h. ground arith, λ h. ground arith)

IsSafe-kept : (a : ℕ) → IsSafe (if is_safe a then a else b'-')
IsSafe-kept a = elim (Bool-cases (is_safe a)) [
  | inl e ↦ rw e ((is_safe_iff a).0 e)
  | inr e ↦ rw e (ground arith)
]

safe_from-All : (skip : ℕ) (s : Text) → All IsSafe (safe_from skip s)
unfolding safe_from
safe_from-All skip [] = tt
safe_from-All (suc skip) (a ∷ s) = safe_from-All skip s
safe_from-All zero (a ∷ s) = (IsSafe-kept a, safe_from-All (rune_tail a s) s)

length-safe_from : (skip : ℕ) (s : Text) → length (safe_from skip s) ≤ length s
unfolding safe_from
length-safe_from skip [] = omega arith
length-safe_from (suc skip) (a ∷ s) = omega (arith, length-safe_from skip s)
length-safe_from zero (a ∷ s) = omega (arith, length-safe_from (rune_tail a s) s)

-- A safe byte is a rune of its own.
rune_tail_of_safe : (a : ℕ) (s : Text) → is_safe a ≡ true → rune_tail a s ≡ 0
unfolding rune_tail
rune_tail_of_safe a [] h = refl
rune_tail_of_safe a (b ∷ []) h = ground arith
rune_tail_of_safe a (b ∷ c ∷ []) h = ground arith
rune_tail_of_safe a (b ∷ c ∷ d ∷ s) h = ground arith

safe_from_of_safe : (s : Text) → All IsSafe s → safe_from 0 s ≡ s
unfolding safe_from
safe_from_of_safe [] h = refl
safe_from_of_safe (a ∷ s) (p, h) =
    rw (rune_tail_of_safe a s ((is_safe_iff a).1 p), (is_safe_iff a).1 p)
      (ap (λ t. a ∷ t) (safe_from_of_safe s h))

-- Whatever the name, each byte of the result is an ASCII letter, a digit, '.', '-' or '_'; the
-- result is no longer than the name; and a name that has only such bytes is kept as it is, so that a
-- second call changes nothing.
pub safe_name_lem :
    (name : Text)
    → All IsSafe (safe_name name)
      × (length (safe_name name) ≤ length name)
      × (All IsSafe name → safe_name name ≡ name)
      × (safe_name (safe_name name) ≡ safe_name name)
unfolding safe_name
safe_name_lem name = (
  safe_from-All 0 name,
  length-safe_from 0 name,
  safe_from_of_safe name,
  safe_from_of_safe (safe_from 0 name) (safe_from-All 0 name),
)

slash_and_accent : safe_name (b'a' ∷ b'/' ∷ 0xc3 ∷ 0xa9 ∷ b'.' ∷ []) ≡ bytes "a--."
unfolding safe_name bytes
slash_and_accent = refl
