-- ===== src/Store/Users/Keys.antt =====
-- The keys of users: none stands twice, and none is above the last one given.
use homelink_monitor.Base.{
  ℕ, ◌+◌, ◌≤◌, ◌≡◌, refl, Bool, false, Option, none, some, List, [], ◌∷◌, ◌++◌, arith, length,
  length-append, select, Bool-cases, inl, inr, ◌==◌, ℤ, All, All-append, Text,
}
use homelink_monitor.Domain.{Time}
use homelink_monitor.Store.Schema.{Db, Table, UserRow, update_where}
use homelink_monitor.Store.Schema.Order.{select-All, update_where-All}
use homelink_monitor.Store.Users.{updated_row, add_user, set_user, remove_user, is_key}
use homelink_monitor.Store.Users.Accounts.{has_id, IsDistinct}

abbrev IsBelow : ℕ → List UserRow → Type 0
IsBelow n rows = All (λ (r : UserRow). r.id ≤ n) rows

abbrev pub HasKeys : Table UserRow → Type 0
HasKeys t = IsDistinct t.rows × IsBelow t.last_id t.rows

IsBelow-le : (n m : ℕ) (rows : List UserRow) → n ≤ m → IsBelow n rows → IsBelow m rows
IsBelow-le n m [] le h = tt
IsBelow-le n m (r ∷ rows) le (first, rest) = (omega arith, IsBelow-le n m rows le rest)

has_id-snoc :
    (n : ℕ) (r : UserRow) (rows : List UserRow)
    → has_id n rows ≡ false
    → (r.id == n) ≡ false
    → has_id n (rows ++ r ∷ []) ≡ false
has_id-snoc n r [] h new = ground arith
has_id-snoc n r (x ∷ rows) h new = ground (arith, has_id-snoc n r rows)

snoc-IsDistinct :
    (n : ℕ) (r : UserRow) (rows : List UserRow)
    → IsBelow n rows
    → r.id ≡ n + 1
    → IsDistinct rows
    → IsDistinct (rows ++ r ∷ [])
snoc-IsDistinct n r [] below e h = (refl, tt)
snoc-IsDistinct n r (x ∷ rows) (first, below) e (apart, h) =
    (has_id-snoc x.id r rows apart (ground arith), snoc-IsDistinct n r rows below e h)

-- A change that keeps the keys.
has_id-update_where :
    (n : ℕ) (test : UserRow → Bool) (change : UserRow → UserRow) (rows : List UserRow)
    → ((r : UserRow) → (change r).id ≡ r.id)
    → has_id n (update_where test change rows) ≡ has_id n rows
has_id-update_where n test change [] same = refl
has_id-update_where n test change (r ∷ rows) same = elim (Bool-cases (test r)) [
  | inl yes_ ↦ rw (yes_, same r, has_id-update_where n test change rows same) refl
  | inr no_ ↦ rw (no_, has_id-update_where n test change rows same) refl
]

update_where-IsDistinct :
    (test : UserRow → Bool) (change : UserRow → UserRow) (rows : List UserRow)
    → ((r : UserRow) → (change r).id ≡ r.id)
    → IsDistinct rows
    → IsDistinct (update_where test change rows)
update_where-IsDistinct test change [] same h = tt
update_where-IsDistinct test change (r ∷ rows) same (apart, h) = elim (Bool-cases (test r)) [
  | inl yes_ ↦
      rw (yes_, same r, has_id-update_where r.id test change rows same)
        (apart, update_where-IsDistinct test change rows same h)
  | inr no_ ↦
      rw (no_, has_id-update_where r.id test change rows same)
        (apart, update_where-IsDistinct test change rows same h)
]

length-update_where :
    {R : Type 0} (test : R → Bool) (change : R → R) (rows : List R)
    → length (update_where test change rows) ≡ length rows
length-update_where test change [] = refl
length-update_where test change (r ∷ rows) = omega (arith, length-update_where test change rows)

-- A row that is taken away brings no key.
has_id-select :
    (n : ℕ) (keep : UserRow → Bool) (rows : List UserRow)
    → has_id n rows ≡ false
    → has_id n (select keep rows) ≡ false
has_id-select n keep [] h = h
has_id-select n keep (r ∷ rows) h = ground (arith, has_id-select n keep rows)

select-IsDistinct :
    (keep : UserRow → Bool) (rows : List UserRow) → IsDistinct rows → IsDistinct (select keep rows)
select-IsDistinct keep [] h = tt
select-IsDistinct keep (r ∷ rows) (apart, h) = elim (Bool-cases (keep r)) [
  | inl yes_ ↦ rw yes_ (has_id-select r.id keep rows apart, select-IsDistinct keep rows h)
  | inr no_ ↦ rw no_ (select-IsDistinct keep rows h)
]

updated_row-id :
    (username role : Text) (hash : Option Text) (now : Time) (r : UserRow)
    → (updated_row username role hash now r).id ≡ r.id
updated_row-id username role none now r = refl
updated_row-id username role (some hash) now r = refl

module _ {F : Type 0} (d : Db F) where
  pub add_user-HasKeys :
      (username hash role : Text) (now : Time)
      → HasKeys d.users
      → HasKeys (add_user username hash role now d).users
  unfolding add_user
  add_user-HasKeys username hash role now (distinct, below) = (
    snoc-IsDistinct d.users.last_id _ d.users.rows below refl distinct,
    All-append _ d.users.rows _ (IsBelow-le _ _ d.users.rows (omega arith) below) (omega arith, tt),
  )

  pub set_user-HasKeys :
      (id : ℤ) (username role : Text) (hash : Option Text) (now : Time)
      → HasKeys d.users
      → HasKeys (set_user id username role hash now d).users
  unfolding set_user
  set_user-HasKeys id username role hash now (distinct, below) = (
    update_where-IsDistinct _ _ d.users.rows (updated_row-id username role hash now) distinct,
    update_where-All _ (λ r. is_key id r.id) (updated_row username role hash now) d.users.rows
        (λ r le. rw (updated_row-id username role hash now r) le) below,
  )

  pub remove_user-HasKeys : (id : ℤ) → HasKeys d.users → HasKeys (remove_user id d).users
  unfolding remove_user
  remove_user-HasKeys id (distinct, below) =
      (select-IsDistinct _ d.users.rows distinct, select-All _ _ d.users.rows below)

  pub length-add_user :
      (username hash role : Text) (now : Time)
      → length (add_user username hash role now d).users.rows ≡ length d.users.rows + 1
  unfolding add_user
  length-add_user username hash role now = length-append d.users.rows _

  pub length-set_user :
      (id : ℤ) (username role : Text) (hash : Option Text) (now : Time)
      → length (set_user id username role hash now d).users.rows ≡ length d.users.rows
  unfolding set_user
  length-set_user id username role hash now =
      length-update_where (λ r. is_key id r.id) (updated_row username role hash now) d.users.rows
