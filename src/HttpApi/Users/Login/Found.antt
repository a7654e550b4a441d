-- ===== src/HttpApi/Users/Login/Found.antt =====
-- The user that a login finds: its row, and the row's key.
use homelink_monitor.Base.{
  ℕ, ◌≡◌, refl, Bool, true, false, Option, none, some, List, [], ◌∷◌, Text, text_eq, arith,
  Result-cases, ok, Ends, proceed-Ends, find, ◌==◌, Bool-cases, inl, inr,
}
use homelink_monitor.Domain.{User}
use homelink_monitor.Store.Stamp.{parse_ts}
use homelink_monitor.Store.Schema.{Db, UserRow, returns}
use homelink_monitor.Store.Schema.Rules.{execute-Ends}
use homelink_monitor.Store.Users.{
  UserWithPassword, user_by_username, scan_user, scan_user_with_password,
}
use homelink_monitor.Store.Users.Accounts.{has_id, IsDistinct}
use homelink_monitor.Auth.{Bcrypt, check_password}

-- A row found by its name is found by its key.
has_id_of_find :
    (test : UserRow → Bool) (rows : List UserRow) (r : UserRow)
    → find test rows ≡ some r
    → has_id r.id rows ≡ true
has_id_of_find test [] r e = cc
has_id_of_find test (x ∷ rows) r e = elim (Bool-cases (test x)) [
  | inl hit ↦
      let same : some x ≡ some r = rw hit at e in let here : x ≡ r = cc in rw here (ground arith)
  | inr miss ↦
      let later : find test rows ≡ some r = rw miss at e in
      ground (arith, has_id_of_find test rows r later)
]

pub find_by_key :
    (test : UserRow → Bool) (rows : List UserRow) (r : UserRow)
    → IsDistinct rows
    → find test rows ≡ some r
    → find (λ u. u.id == r.id) rows ≡ some r
find_by_key test [] r distinct e = cc
find_by_key test (x ∷ rows) r (apart, distinct) e = elim (Bool-cases (test x)) [
  | inl hit ↦
      let same : some x ≡ some r = rw hit at e in
      let here : x ≡ r = cc in
      let key : (x.id == r.id) ≡ true = rw here (ground arith) in rw (key, here) refl
  | inr miss ↦
      let later : find test rows ≡ some r = rw miss at e in
      let there : has_id r.id rows ≡ true = has_id_of_find test rows r later in
      let other : (x.id == r.id) ≡ false = differs x.id r.id rows apart there in
      rw other (find_by_key test rows r distinct later)
]
  where
    differs :
        (n m : ℕ) (rows : List UserRow)
        → has_id n rows ≡ false
        → has_id m rows ≡ true
        → (n == m) ≡ false
    differs n m rows h k = elim (Bool-cases (n == m)) [
      | inl same ↦ let e : n ≡ m = ground arith in absurd (cc)
      | inr other ↦ other
    ]

-- A user and hash that were read from a row of this name.
abbrev pub IsFound : Text → List UserRow → Option UserWithPassword → Type 0
IsFound name rows none = Unit
IsFound name rows (some u) =
    (r : UserRow) × (find (λ x. text_eq x.username name) rows ≡ some r)
    × (scan_user r ≡ ok u.user)
    × (r.password_hash ≡ u.password_hash)

module _ {F : Type 0} (name : Text) (rows : List UserRow) where
  scanned-IsFound :
      (row : Option UserRow) (d : Db F)
      → (find (λ x. text_eq x.username name) rows ≡ row) × (d.users.rows ≡ rows)
      → Ends
          (λ found s. IsFound name rows found × (s.users.rows ≡ rows))
          (λ s. Unit)
          (returns (scan_user_with_password row) d)
  unfolding scan_user_with_password
  scanned-IsFound none d (e, same) = (tt, same)
  scanned-IsFound (some r) d (e, same) = elim (Result-cases (scan_user r)) [
    | inl (_, bad) ↦ rw (scan_user_with_password, bad) tt
    | inr (_, good) ↦ rw (scan_user_with_password, good) ((r, e, good, refl), same)
  ]

  pub user_by_username-IsFound :
      (d : Db F)
      → d.users.rows ≡ rows
      → Ends
          (λ found s. IsFound name rows found × (s.users.rows ≡ rows))
          (λ s. Unit)
          (user_by_username name d)
  unfolding user_by_username
  user_by_username-IsFound d same =
      proceed-Ends
        (λ row s. (find (λ x. text_eq x.username name) rows ≡ row) × (s.users.rows ≡ rows))
        (λ found s. IsFound name rows found × (s.users.rows ≡ rows)) (λ s. Unit) _ _
        (execute-Ends (λ s. s.users.rows ≡ rows) (λ s. Unit)
          (λ row s. (find (λ x. text_eq x.username name) rows ≡ row) × (s.users.rows ≡ rows))
          (λ s. (ok (find (λ r. text_eq r.username name) s.users.rows), s)) d.faults d
          (λ s faults h. h) (λ s h. tt) (λ s h. (rw h refl, h)) same)
        scanned-IsFound

  pub check_password-IsFound :
      (bcrypt : Bcrypt) (password : Text) (found : Option UserWithPassword) (d : Db F)
      → IsFound name rows found × (d.users.rows ≡ rows)
      → Ends
          (λ u s.
            IsFound name rows (some u)
            × (bcrypt.matches u.password_hash password ≡ true)
            × (s.users.rows ≡ rows))
          (λ s. Unit)
          (returns (check_password bcrypt password found) d)
  check_password-IsFound bcrypt password none d h = tt
  check_password-IsFound bcrypt password (some u) d h =
      elim (Bool-cases (bcrypt.matches u.password_hash password)) [
        | inl right ↦ rw right (h.0, right, h.1)
        | inr wrong ↦ rw wrong tt
      ]

-- The key of a user is that of the row that it was read from.
pub scan_user-id : (r : UserRow) (u : User) → scan_user r ≡ ok u → u.id ≡ r.id
unfolding scan_user
scan_user-id r u e = elim (Result-cases (parse_ts r.created_at)) [
  | inl (_, bad) ↦ absurd (ground arith)
  | inr (created, good) ↦ elim (Result-cases (parse_ts r.updated_at)) [
    | inl (_, bad) ↦ absurd (ground arith)
    | inr (updated, fine) ↦ ground arith
  ]
]
