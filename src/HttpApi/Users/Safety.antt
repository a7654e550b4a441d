-- ===== src/HttpApi/Users/Safety.antt =====
-- What the handlers of users guarantee, whichever statements fail.
use homelink_monitor.Base.{
  ℕ, ◌≤◌, ◌<◌, ◌≡◌, refl, Bool, true, false, Option, none, some, List, arith, length, leb,
  Bool-cases, inl, inr, Result, ok, err, Ends, handle-Ends, if-either, ℤ,
}
use homelink_monitor.Domain.{User}
use homelink_monitor.Store.Schema.{Db, UserRow}
use homelink_monitor.Store.Schema.Rules.{execute-Ends}
use homelink_monitor.Store.Users.{user_count, delete_user, remove_user}
use homelink_monitor.Store.Users.Accounts.{
  has_id, IsDistinct, without, length-without, has_id-without,
}
use homelink_monitor.HttpApi.Users.{is_current, reply_on, delete_counted, delete_user_handler}

-- The user who asks, if there is one, is among the users.
abbrev pub IsThere : Option User → List UserRow → Type 0
IsThere none rows = Unit
IsThere (some u) rows = has_id u.id rows ≡ true

-- There is a user, and the one who asks is among them.
abbrev pub IsInhabited : Option User → List UserRow → Type 0
IsInhabited current rows = (1 ≤ length rows) × IsThere current rows

without-IsThere :
    (id : ℤ) (current : Option User) (rows : List UserRow)
    → is_current id current ≡ false
    → IsThere current rows
    → IsThere current (without id rows)
without-IsThere id none rows o h = tt
without-IsThere id (some u) rows o h = has_id-without id u.id rows o h

module _ {F : Type 0} (id : ℤ) (current : Option User) (other : is_current id current ≡ false) where
  -- What holds between two statements.
  abbrev IsKept : Db F → Type 0
  IsKept d = IsInhabited current d.users.rows × IsDistinct d.users.rows

  abbrev IsReady : Db F → Type 0
  IsReady d = IsKept d × (1 < length d.users.rows)

  remove_user-IsInhabited :
      (d : Db F) → IsReady d → IsInhabited current (remove_user id d).users.rows
  unfolding remove_user
  remove_user-IsInhabited d (((n, there), distinct), m) = (
    omega (arith, length-without id d.users.rows distinct),
    without-IsThere id current d.users.rows other there,
  )

  delete_user-IsInhabited :
      (cascade : Bool) (d : Db F)
      → IsReady d
      → Ends
          (λ (_ : Unit {0}) s. IsInhabited current s.users.rows)
          (λ s. IsInhabited current s.users.rows)
          (delete_user cascade id d)
  unfolding delete_user
  delete_user-IsInhabited cascade d ready =
      execute-Ends IsReady (λ s. IsInhabited current s.users.rows)
        (λ (_ : Unit {0}) s. IsInhabited current s.users.rows) _ d.faults d (λ s faults h. h)
        (λ s h. h.0.0)
        (λ s h.
          if-either (λ (x : Db F). IsInhabited current x.users.rows) cascade _ _
            (remove_user-IsInhabited s h) (remove_user-IsInhabited s h))
        ready

  delete_counted-IsInhabited :
      (cascade : Bool) (n : ℕ) (d : Db F)
      → (n ≡ length d.users.rows) × IsKept d
      → IsInhabited current (delete_counted cascade id n d).1.users.rows
  delete_counted-IsInhabited cascade n d (e, kept) = elim (Bool-cases (leb n 1)) [
    | inl last ↦ rw last kept.0
    | inr more ↦ rw more (
        handle-Ends (λ (_ : Unit {0}) s. IsInhabited current s.users.rows)
          (λ s. IsInhabited current s.users.rows) (λ x. IsInhabited current x.1.users.rows)
          (delete_user cascade id d) _ _ (delete_user-IsInhabited cascade d (kept, ground arith))
          (λ e s h. h) (λ _ s h. h))
  ]

  pub delete_uncurrent-IsInhabited :
      (cascade : Bool) (d : Db F)
      → IsKept d
      → IsInhabited current (reply_on user_count 500 (delete_counted cascade id) d).1.users.rows
  unfolding user_count
  delete_uncurrent-IsInhabited cascade d kept =
      handle-Ends (λ n s. (n ≡ length s.users.rows) × IsKept s)
        (λ s. IsInhabited current s.users.rows) (λ x. IsInhabited current x.1.users.rows)
        (user_count d) _ _
        (execute-Ends IsKept (λ s. IsInhabited current s.users.rows)
          (λ n s. (n ≡ length s.users.rows) × IsKept s) (λ s. (ok (length s.users.rows), s))
          d.faults d (λ s faults h. h) (λ s h. h.0) (λ s h. (refl, h)) kept)
        (λ e s h. h) (λ n s h. delete_counted-IsInhabited cascade n s h)

-- Whichever statements fail and whether or not deletions cascade, `deleteUser` leaves a user, and
-- the user who asks among the users, if that held before and no key stood twice.
pub delete_user_handler-IsInhabited :
    {F : Type 0} (cascade : Bool) (path_id : Result ℤ) (current : Option User) (d : Db F)
    → IsInhabited current d.users.rows
    → IsDistinct d.users.rows
    → IsInhabited current (delete_user_handler cascade path_id current d).1.users.rows
unfolding delete_user_handler
delete_user_handler-IsInhabited cascade (err e) current d h distinct = h
delete_user_handler-IsInhabited cascade (ok id) current d h distinct =
    elim (Bool-cases (is_current id current)) [
      | inl hit ↦ rw hit h
      | inr other ↦ rw other (delete_uncurrent-IsInhabited id current other cascade d (h, distinct))
    ]
