-- ===== src/Store/Users/Accounts.antt =====
-- Users by their keys: what a deletion takes away.
use homelink_monitor.Base.{
  ℕ, ◌+◌, ◌≤◌, ◌≡◌, refl, Bool, true, false, not, List, [], ◌∷◌, arith, length, select, any,
  Bool-cases, inl, inr, ◌==◌, ℤ, pos, negsuc, All,
}
use homelink_monitor.Store.Schema.{UserRow, SessionRow}
use homelink_monitor.Store.Users.{is_key}

abbrev pub has_id : ℕ → List UserRow → Bool
has_id n rows = any (λ r. r.id == n) rows

-- No key stands twice, as PRIMARY KEY demands.
abbrev pub IsDistinct : List UserRow → Type 0
IsDistinct [] = Unit
IsDistinct (r ∷ rows) = (has_id r.id rows ≡ false) × IsDistinct rows

abbrev pub without : ℤ → List UserRow → List UserRow
without id rows = select (λ r. not (is_key id r.id)) rows

length-without_of_absent :
    (id : ℤ) (n : ℕ) (rows : List UserRow)
    → is_key id n ≡ true
    → has_id n rows ≡ false
    → length (without id rows) ≡ length rows
length-without_of_absent id n [] k h = refl
length-without_of_absent (pos m) n (r ∷ rows) k h =
    ground (arith, length-without_of_absent (pos m) n rows)
length-without_of_absent (negsuc m) n (r ∷ rows) k h = cc

-- A key takes one row away at most.
pub length-without :
    (id : ℤ) (rows : List UserRow) → IsDistinct rows → length rows ≤ length (without id rows) + 1
length-without id [] d = omega arith
length-without id (r ∷ rows) d = elim (Bool-cases (is_key id r.id)) [
  | inl hit ↦ rw hit (omega (arith, length-without_of_absent id r.id rows hit d.0))
  | inr miss ↦ rw miss (omega (arith, length-without id rows d.1))
]

-- Another key keeps its row.
pub has_id-without :
    (id : ℤ) (n : ℕ) (rows : List UserRow)
    → is_key id n ≡ false
    → has_id n rows ≡ true
    → has_id n (without id rows) ≡ true
has_id-without id n [] k h = h
has_id-without (pos m) n (r ∷ rows) k h = ground (arith, has_id-without (pos m) n rows)
has_id-without (negsuc m) n (r ∷ rows) k h = ground (arith, has_id-without (negsuc m) n rows)

-- No session of the key is left.
abbrev pub HasNoSession : ℤ → List SessionRow → Type 0
HasNoSession id sessions = All (λ (s : SessionRow). is_key id s.user_id ≡ false) sessions

pub select-HasNoSession :
    (id : ℤ) (sessions : List SessionRow)
    → HasNoSession id (select (λ s. not (is_key id s.user_id)) sessions)
select-HasNoSession id [] = tt
select-HasNoSession id (s ∷ sessions) = elim (Bool-cases (is_key id s.user_id)) [
  | inl hit ↦ rw hit (select-HasNoSession id sessions)
  | inr miss ↦ rw miss (miss, select-HasNoSession id sessions)
]
