-- ===== src/Base/Int.antt =====
-- Go's `int`: signed integers over the native numbers, under the library's names.
use Prim.Native.Nat.{ℕ, suc, ◌+◌, ◌-◌, ◌*◌, ◌%◌, ◌^◌, ◌≤◌, ◌<◌}
use native.Mathlib.Omega.{arith}
use mathlib.Core.Bool.{Bool, true}
use mathlib.Core.Path.{◌≡◌, refl}
use native.Mathlib.Decide.{ℕ_discrete}
use homelink_monitor.Base.Tests.{ltb, leb, if◌then◌else◌}

-- `negsuc n` is -(n + 1).
pub data ℤ : Type 0 where
  pos : ℕ → ℤ
  negsuc : ℕ → ℤ

abbrev pub pos_part : ℤ → ℕ
pos_part (pos n) = n
pos_part (negsuc n) = 0

abbrev pub neg_part : ℤ → ℕ
neg_part (pos n) = 0
neg_part (negsuc n) = suc n

infix 50 ◌≤ℤ◌
abbrev pub ◌≤ℤ◌ : ℤ → ℤ → Type 0
a ≤ℤ b = pos_part a + neg_part b ≤ pos_part b + neg_part a

abbrev pub ltb_ℤ : ℤ → ℤ → Bool
ltb_ℤ a b = ltb (pos_part a + neg_part b) (pos_part b + neg_part a)

pub ℤ-discrete : Discrete ℤ
ℤ-discrete = hlevel ℕ_discrete

-- a - b, as an integer.
abbrev pub sub_ℕ : ℕ → ℕ → ℤ
sub_ℕ a b = if leb b a then pos (a - b) else negsuc (b - a - 1)

abbrev pub times_ℕ : ℤ → ℕ → ℤ
times_ℕ (pos n) k = pos (n * k)
times_ℕ (negsuc n) k = sub_ℕ 0 (suc n * k)

-- The signed number that 64 bits stand for.
abbrev pub signed_64 : ℕ → ℤ
signed_64 m = if ltb m (2 ^ 63) then pos m else sub_ℕ m (2 ^ 64)

-- What is left of an integer in a signed word of 64 bits.
unfoldable pub wrap_64 : ℤ → ℤ
wrap_64 z = signed_64 ((pos_part z + (2 ^ 64 - neg_part z % 2 ^ 64)) % 2 ^ 64)

pub wrap_64_small : (m : ℕ) → m < 2 ^ 63 → wrap_64 (pos m) ≡ pos m
unfolding wrap_64
wrap_64_small m h =
    let whole : (m + (2 ^ 64 - 0 % 2 ^ 64)) % 2 ^ 64 ≡ m = omega arith in
    let positive : ltb m (2 ^ 63) ≡ true = ground arith in rw (whole, positive) refl
