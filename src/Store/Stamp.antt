-- ===== src/Store/Stamp.antt =====
-- `ts` and `parseTS` of services/api/internal/store/store.go: a time as the RFC3339Nano text that
-- the tables hold and that SQLite compares byte by byte. A time is one of the years 1 to 9999: then
-- that text has a fixed width up to the seconds, its order is that of the seconds, and each such text
-- stands for one number of seconds, so this number is kept in its place. The calendar that package time
-- computes is not modelled, nor are the years from 10000 on, whose texts are longer and which Go does not
-- read back. The rest, the fraction without its trailing zeros and "Z", is kept as bytes.
use native.Mathlib.Nat.{div-add-mod, div-lt_iff_lt-mul, mod-lt, pow-suc, pow-zero}
use homelink_monitor.Base.{
  ℕ, zero, suc, ◌+◌, ◌-◌, ◌*◌, ◌/◌, ◌%◌, ◌^◌, ◌<◌, ◌≡◌, Bool, true, false, ◌&&◌, ◌||◌, Option, none,
  some, [], ◌∷◌, arith, ltb, leb, ◌==◌, if◌then◌else◌, Text, Bool-cases, inl, inr, ap, ◌∙◌, Result,
  ok, err, bytes,
}
use homelink_monitor.Domain.{Time, second}

pub record Stamp : Type 0 where
  pub seconds : ℕ
  pub fraction : Text

-- The digits of `n`, of `k` decimal places, up to the last one that is not 0, and "Z".
unfoldable pub fraction_digits : ℕ → ℕ → Text
fraction_digits zero n = b'Z' ∷ []
fraction_digits (suc k) n =
    let rest = fraction_digits k (n % 10 ^ k) in
    if n == 0 then b'Z' ∷ [] else (48 + n / 10 ^ k) ∷ rest

unfoldable pub fraction_text : ℕ → Text
fraction_text n = if n == 0 then b'Z' ∷ [] else b'.' ∷ fraction_digits 9 n

unfoldable pub ts : Time → Stamp
ts t = record { seconds = t / second; fraction = fraction_text (t % second) }

-- Reads at most `k` digits up to "Z" (more digits are dropped by Go).
unfoldable pub parse_digits : ℕ → Text → Option ℕ
parse_digits k [] = none
parse_digits zero (c ∷ s) = if c == b'Z' then some 0 else none
parse_digits (suc k) (c ∷ s) = elim (c == b'Z') [
  | true ↦ some 0
  | false ↦ elim (leb b'0' c && leb c b'9') [
    | true ↦ elim (parse_digits k s) [ none ↦ none | some n ↦ some ((c - 48) * 10 ^ k + n) ]
    | false ↦ none
  ]
]

unfoldable pub parse_fraction : Text → Option ℕ
parse_fraction [] = none
parse_fraction (c ∷ s) = if c == b'Z' then some 0 else if c == b'.' then parse_digits 9 s else none

unfoldable pub parse_ts : Stamp → Result Time
parse_ts s = elim (parse_fraction s.fraction) [
  | none ↦ err (bytes "parsing time")
  | some n ↦ ok (s.seconds * second + n)
]

-- SQLite's `<` on two texts, byte by byte.
unfoldable pub text_lt : Text → Text → Bool
text_lt [] [] = false
text_lt [] (b ∷ t) = true
text_lt (a ∷ s) [] = false
text_lt (a ∷ s) (b ∷ t) = ltb a b || (a == b && text_lt s t)

unfoldable pub stamp_lt : Stamp → Stamp → Bool
unfolding text_lt
stamp_lt a b = ltb a.seconds b.seconds || (a.seconds == b.seconds && text_lt a.fraction b.fraction)

-- `a <= b` on two texts.
abbrev pub stamp_le : Stamp → Stamp → Bool
stamp_le a b = if stamp_lt b a then false else true

pow_pos : (k : ℕ) → 0 < 10 ^ k
pow_pos zero = omega (arith, pow-zero 10)
pow_pos (suc k) = omega (arith, pow-suc 10 k, pow_pos k)

leading_digit : (k n : ℕ) → n < 10 ^ suc k → n / 10 ^ k < 10
leading_digit k n h = (div-lt_iff_lt-mul (pow_pos k)).1 (omega (arith, pow-suc 10 k))

parse_digits-cons :
    (k d r : ℕ) (s : Text)
    → d < 10
    → parse_digits k s ≡ some r
    → parse_digits (suc k) ((48 + d) ∷ s) ≡ some (d * 10 ^ k + r)
unfolding parse_digits
parse_digits-cons k d r s small e = ground arith

parse_digits-fraction_digits :
    (k n : ℕ) → n < 10 ^ k → parse_digits k (fraction_digits k n) ≡ some n
unfolding parse_digits fraction_digits
parse_digits-fraction_digits zero n h = ground (arith, pow-zero 10)
parse_digits-fraction_digits (suc k) n h = elim (Bool-cases (n == 0)) [
  | inl z ↦ rw z (ground arith)
  | inr nz ↦ rw nz (
      parse_digits-cons k (n / 10 ^ k) (n % 10 ^ k) (fraction_digits k (n % 10 ^ k))
        (leading_digit k n h) (parse_digits-fraction_digits k (n % 10 ^ k) (mod-lt n (pow_pos k)))
      ∙ ap some (omega (arith, div-add-mod n (10 ^ k))))
]

parse_fraction-fraction_text : (n : ℕ) → n < second → parse_fraction (fraction_text n) ≡ some n
unfolding parse_fraction fraction_text
parse_fraction-fraction_text n h = ground (arith, parse_digits-fraction_digits 9 n)

-- The seconds and the fraction that `ts` writes are read back, to the nanosecond.
pub parse_ts-ts : (t : Time) → parse_ts (ts t) ≡ ok t
unfolding parse_ts ts
parse_ts-ts t =
    rw (parse_fraction-fraction_text (t % second) (omega arith), parse_ts) (ap ok (omega arith))

-- The texts of times in different seconds are in the order of the times.
pub stamp_lt_of_seconds : (a b : Time) → a / second < b / second → stamp_lt (ts a) (ts b) ≡ true
unfolding stamp_lt ts
stamp_lt_of_seconds a b h = ground arith

-- The text of a whole second stands behind the text of every later time in that second.
pub stamp_lt_inverted :
    (a b : Time) → a % second ≡ 0 → a < b → b / second ≡ a / second → stamp_lt (ts b) (ts a) ≡ true
unfolding stamp_lt ts fraction_text
stamp_lt_inverted a b whole later same = ground arith
