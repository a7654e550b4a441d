-- ===== src/HttpApi/Users/Race.antt =====
-- Two deletions of users whose statements mix: net/http runs each request in a goroutine of its own, and
-- `deleteUser` counts the users in one statement and deletes in the next.
use homelink_monitor.Base.{
  ℕ, ◌==◌, bytes, ◌≡◌, refl, Bool, true, false, [], ◌∷◌, arith, Result, ok, err, ℤ, pos, handle,
}
use homelink_monitor.Store.Schema.{Db, UserRow}
use homelink_monitor.Store.Users.{user_count, delete_user, remove_user}
use homelink_monitor.HttpApi.Users.{json, status, Response, write_error, reply_on, delete_counted}

-- Where `deleteUser` stands, once the keys have been compared: before the count, before the
-- deletion, or at its end.
pub data Deletion : Type 0 where
  counting : Deletion
  counted : ℕ → Deletion
  replied : Response → Deletion

module _ {F : Type 0} (cascade : Bool) where
  abbrev after_count : Result ℕ × Db F → Deletion × Db F
  after_count (ok n, d) = (counted n, d)
  after_count (err e, d) = (replied (write_error 500 e), d)

  -- The next statement of the deletion of a key.
  unfoldable pub move : ℤ → Deletion → Db F → Deletion × Db F
  move id counting d = after_count (user_count d)
  move id (counted n) d =
      (replied (delete_counted cascade id n d).0, (delete_counted cascade id n d).1)
  move id (replied x) d = (replied x, d)

  -- Two moves with nothing between them are the handler.
  then_counted :
      (id : ℤ) (r : Result ℕ × Db F)
      → move id (after_count r).0 (after_count r).1 ≡ (
        replied (handle r (λ e s. (write_error 500 e, s)) (delete_counted cascade id)).0,
        (handle r (λ e s. (write_error 500 e, s)) (delete_counted cascade id)).1,
      )
  unfolding move
  then_counted id (ok n, d) = refl
  then_counted id (err e, d) = refl

  pub move-move :
      (id : ℤ) (d : Db F)
      → move id (move id counting d).0 (move id counting d).1 ≡ (
        replied (reply_on user_count 500 (delete_counted cascade id) d).0,
        (reply_on user_count 500 (delete_counted cascade id) d).1,
      )
  unfolding move
  move-move id d = then_counted id (user_count d)

-- Both count, and then both delete.
abbrev pub mixed : {F : Type 0} → Bool → ℤ → ℤ → Db F → (Deletion × Deletion) × Db F
mixed cascade first second d =
    let (a, d1) = move cascade first counting d in
    let (b, d2) = move cascade second counting d1 in
    let (a', d3) = move cascade first a d2 in
    let (b', d4) = move cascade second b d3 in ((a', b'), d4)

-- The database with two users, and no statement that fails.
abbrev pub with_two : {F : Type 0} → Db F → UserRow → UserRow → ℕ → Db F
with_two d a b n = record d { users = record { rows = a ∷ b ∷ []; last_id = n }; faults = [] }

abbrev pub deleted : Deletion
deleted = replied (json 200 (status (bytes "deleted")))

-- On every database with exactly two users, when no statement fails: if two requests delete one of
-- them each, and both count before either deletes, then both reply 200 and no user is left. The
-- guard for the last user holds only if no other request runs between the two statements.
pub mixed-nil :
    {F : Type 0} (cascade : Bool) (d : Db F) (a b : UserRow) (n : ℕ)
    → (a.id == b.id) ≡ false
    → ((mixed cascade (pos b.id) (pos a.id) (with_two d a b n)).0 ≡ (deleted, deleted))
      × ((mixed cascade (pos b.id) (pos a.id) (with_two d a b n)).1.users.rows ≡ [])
unfolding move user_count delete_user remove_user
mixed-nil true d a b n apart =
    let self_a : (a.id == a.id) ≡ true = ground arith in
    let self_b : (b.id == b.id) ≡ true = ground arith in
    let apart' : (b.id == a.id) ≡ false = ground arith in rw (apart', self_b, self_a) (refl, refl)
mixed-nil false d a b n apart =
    let self_a : (a.id == a.id) ≡ true = ground arith in
    let self_b : (b.id == b.id) ≡ true = ground arith in
    let apart' : (b.id == a.id) ≡ false = ground arith in rw (apart', self_b, self_a) (refl, refl)
