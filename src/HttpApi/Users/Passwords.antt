-- ===== src/HttpApi/Users/Passwords.antt =====
-- A new password ends the sessions of its user: what `updateUser` guarantees.
use homelink_monitor.Base.{
  ℕ, ◌≡◌, refl, false, some, Text, is_empty, arith, Result, ok, err, handle-Ends, proceed-Ends,
  handle, ℤ, find, Option,
}
use homelink_monitor.Domain.{Time}
use homelink_monitor.Store.Schema.{execute, UserRow, Db, returns}
use homelink_monitor.Store.Schema.Rules.{execute-Ends, returns-Ends}
use homelink_monitor.Store.Users.{delete_sessions_for_user, update_user, user_by_id, scan_user_row}
use homelink_monitor.Store.Users.Accounts.{HasNoSession, select-HasNoSession}
use homelink_monitor.Auth.{Bcrypt, hash_password}
use homelink_monitor.HttpApi.Users.{
  is_key, Response, write_error, or_reply, reply_on, user_reply, drop_sessions, UserRequest,
  normalize, update_user_handler, validate_user_request,
}

module _ {S A : Type 0} (P : Response × S → Type 0) (code : ℕ) (next : A → S → Response × S) where
  -- A property of every error reply and of what follows holds of the whole.
  or_reply-lem :
      (r : Result A) (s : S)
      → ((e : Text) → P (write_error code e, s))
      → ((a : A) → r ≡ ok a → P (next a s))
      → P (or_reply r code next s)
  or_reply-lem (ok a) s bad good = good a refl
  or_reply-lem (err e) s bad good = bad e

  handled-lem :
      (r : Result A × S)
      → ((e : Text) (s : S) → P (write_error code e, s))
      → ((a : A) (s : S) → P (next a s))
      → P (handle r (λ e s'. (write_error code e, s')) next)
  handled-lem (ok a, s) bad good = good a s
  handled-lem (err e, s) bad good = bad e s

module _ {F : Type 0} (id : ℤ) where
  abbrev IsSignedOut : Db F → Type 0
  IsSignedOut d = HasNoSession id d.sessions.rows

  -- A reply of success comes with no session of the user.
  abbrev IsDone : Response × Db F → Type 0
  IsDone x = x.0.code ≡ 200 → IsSignedOut x.1

  user_reply-IsDone : (d : Db F) → IsSignedOut d → IsDone (user_reply id d)
  unfolding user_reply user_by_id
  user_reply-IsDone d h =
      handle-Ends (λ _ s. IsSignedOut s) IsSignedOut IsDone (user_by_id id d) _ _
        (proceed-Ends (λ _ s. IsSignedOut s) (λ _ s. IsSignedOut s) IsSignedOut
          (execute d.faults (λ s. (ok (find (λ r. is_key id r.id) s.users.rows), s)) d)
          (λ row. returns (scan_user_row row))
          (execute-Ends IsSignedOut IsSignedOut (λ (_ : Option UserRow) s. IsSignedOut s)
            (λ s. (ok (find (λ r. is_key id r.id) s.users.rows), s)) d.faults d (λ s faults w. w)
            (λ s w. w) (λ s w. w) h)
          (λ row s w. returns-Ends IsSignedOut (scan_user_row row) s w))
        (λ e s w c. w) (λ user s w c. w)

  drop_sessions-IsDone : (hash : Text) (d : Db F) → IsDone (drop_sessions id (some hash) d)
  unfolding delete_sessions_for_user
  drop_sessions-IsDone hash d =
      handle-Ends (λ (_ : Unit {0}) s. IsSignedOut s) (λ s. Unit) IsDone
        (delete_sessions_for_user id d) _ _
        (execute-Ends (λ s. Unit) (λ s. Unit) (λ (_ : Unit {0}) s. IsSignedOut s) _ d.faults d
          (λ s faults w. tt) (λ s w. tt) (λ s w. select-HasNoSession id s.sessions.rows) tt)
        (λ e s w c. ground arith) (λ _ s w. user_reply-IsDone s w)

  updated-IsDone :
      (username role hash : Text) (now : Time) (d : Db F)
      → IsDone (
          reply_on
            (update_user id username role (some hash) now)
            400
            (λ _. drop_sessions id (some hash))
            d)
  updated-IsDone username role hash now d =
      handled-lem IsDone 400 _ (update_user id username role (some hash) now d)
        (λ e s c. ground arith) (λ _ s. drop_sessions-IsDone hash s)

  hashed-IsDone :
      (username role : Text) (hashed : Result Text) (now : Time) (d : Db F)
      → IsDone (
          or_reply
            (elim hashed [ err e ↦ err e | ok hash ↦ ok (some hash) ])
            400
            (λ hash.
              reply_on (update_user id username role hash now) 400 (λ _. drop_sessions id hash))
            d)
  hashed-IsDone username role (ok hash) now d = updated-IsDone username role hash now d
  hashed-IsDone username role (err e) now d = λ c. ground arith

-- When `updateUser` is given a password that is not empty and replies 200, no session of that user
-- is left, whichever other statements fail.
pub update_user_handler-HasNoSession :
    {F : Type 0} (bcrypt : Bcrypt) (id : ℤ) (sent : UserRequest) (now : Time) (d : Db F)
    → is_empty sent.password ≡ false
    → (update_user_handler bcrypt (ok id) (ok sent) now d).0.code ≡ 200
    → HasNoSession id (update_user_handler bcrypt (ok id) (ok sent) now d).1.sessions.rows
unfolding update_user_handler normalize
update_user_handler-HasNoSession bcrypt id sent now d given =
    or_reply-lem (IsDone id) 400 _ (validate_user_request (normalize sent) false) d
      (λ e c. ground arith)
      (λ _ valid. rw given (
        hashed-IsDone id (normalize sent).username (normalize sent).role
          (hash_password bcrypt sent.password) now d))
