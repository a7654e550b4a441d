-- ===== src/HttpApi/Users/Logout.antt =====
-- A session that has been logged out lets nothing through `authMiddleware`.
use homelink_monitor.Base.{
  ◌≡◌, refl, Bool, false, not, Option, none, some, List, [], ◌∷◌, Text, text_eq, is_empty, arith,
  ok, Ends, handle-Ends, proceed-Ends, select, Bool-cases, inl, inr, All, ◌⊎◌,
}
use homelink_monitor.Domain.{Time, User}
use homelink_monitor.Store.Schema.{Db, UserRow, SessionRow, returns}
use homelink_monitor.Store.Schema.Rules.{execute-Ends}
use homelink_monitor.Store.Users.{
  is_live, join_users, session_user, user_by_session, delete_session, scan_user_row,
}
use homelink_monitor.Auth.{user_for_request, logout}
use homelink_monitor.HttpApi.Users.{
  Response, write_error, logout_handler, auth_middleware, for_user,
}

-- The reply of a request that is let through to no handler.
abbrev pub IsRefused : {S : Type 0} → Response × S → Type 0
IsRefused x = (x.0.code ≡ 401) ⊎ (x.0.code ≡ 500)

module _ (digest : Text → Text) where
  -- No session of the token is left.
  abbrev pub IsLoggedOut : Text → List SessionRow → Type 0
  IsLoggedOut token sessions =
      All (λ (s : SessionRow). text_eq s.token_hash (digest token) ≡ false) sessions

  select-IsLoggedOut :
      (token : Text) (sessions : List SessionRow)
      → IsLoggedOut token (select (λ s. not (text_eq s.token_hash (digest token))) sessions)
  select-IsLoggedOut token [] = tt
  select-IsLoggedOut token (s ∷ sessions) =
      elim (Bool-cases (text_eq s.token_hash (digest token))) [
        | inl hit ↦ rw hit (select-IsLoggedOut token sessions)
        | inr miss ↦ rw miss (miss, select-IsLoggedOut token sessions)
      ]

  select_of_logged_out :
      (token : Text) (now : Time) (sessions : List SessionRow)
      → IsLoggedOut token sessions
      → select (is_live digest token now) sessions ≡ []
  select_of_logged_out token now [] h = refl
  select_of_logged_out token now (s ∷ sessions) (miss, h) =
      rw miss (select_of_logged_out token now sessions h)

  module _ {F : Type 0} (token : Text) (now : Time) where
    session_user_of_logged_out :
        (d : Db F) → IsLoggedOut token d.sessions.rows → session_user digest token now d ≡ none
    unfolding session_user join_users
    session_user_of_logged_out d h =
        rw (session_user, select_of_logged_out token now d.sessions.rows h, join_users) refl

    pub user_by_session-Ends :
        (d : Db F)
        → session_user digest token now d ≡ none
        → Ends
            (λ (found : Option User) s. found ≡ none)
            (λ s. Unit)
            (user_by_session digest token now d)
    unfolding user_by_session scan_user_row session_user
    user_by_session-Ends d h =
        proceed-Ends (λ (row : Option UserRow) s. row ≡ none)
          (λ (found : Option User) s. found ≡ none) (λ s. Unit) _
          (λ row. returns (scan_user_row row))
          (execute-Ends (λ s. session_user digest token now s ≡ none) (λ s. Unit)
            (λ (row : Option UserRow) s. row ≡ none)
            (λ s. (ok (session_user digest token now s), s)) d.faults d (λ s faults w. w)
            (λ s w. tt) (λ s w. w) h)
          (λ row s e. rw (e, scan_user_row) refl)

  module _ {F : Type 0} (next : User → Db F → Response × Db F) (now : Time) where
    auth_middleware-IsRefused :
        (token : Text) (d : Db F)
        → (is_empty token ≡ false → IsLoggedOut token d.sessions.rows)
        → IsRefused (auth_middleware write_error (user_for_request digest (some token) now) next d)
    unfolding auth_middleware user_for_request
    auth_middleware-IsRefused token d h = elim (Bool-cases (is_empty token)) [
      | inl empty ↦ rw (user_for_request, empty) (inl refl)
      | inr given ↦
          rw (user_for_request, given)
            (handle-Ends (λ (found : Option User) s. found ≡ none) (λ s. Unit) (λ x. IsRefused x)
              (user_by_session digest token now d) _ (for_user write_error next)
              (user_by_session-Ends token now d (session_user_of_logged_out token now d (h given)))
              (λ e s w. inr refl) (λ found s e. rw e (inl refl)))
    ]

module _ {F : Type 0} (digest : Text → Text) (secure : Bool) (token : Text) where
  logout-Ends :
      (d : Db F)
      → is_empty token ≡ false
      → Ends
          (λ (_ : Unit {0}) s. IsLoggedOut digest token s.sessions.rows)
          (λ s. Unit)
          (logout digest token d)
  unfolding logout delete_session
  logout-Ends d given =
      rw (logout, given)
        (execute-Ends (λ s. Unit) (λ s. Unit)
          (λ (_ : Unit {0}) s. IsLoggedOut digest token s.sessions.rows) _ d.faults d
          (λ s faults w. tt) (λ s w. tt) (λ s w. select-IsLoggedOut digest token s.sessions.rows)
          tt)

  logout_handler-IsLoggedOut :
      (d : Db F)
      → is_empty token ≡ false
      → (logout_handler digest secure (some token) d).0.code ≡ 200
      → IsLoggedOut digest token (logout_handler digest secure (some token) d).1.sessions.rows
  unfolding logout_handler
  logout_handler-IsLoggedOut d given =
      handle-Ends (λ (_ : Unit {0}) s. IsLoggedOut digest token s.sessions.rows) (λ s. Unit)
        (λ (x : Response × Db F). x.0.code ≡ 200 → IsLoggedOut digest token x.1.sessions.rows)
        (logout digest token d) _ _ (logout-Ends d given) (λ e s w c. ground arith) (λ _ s w c. w)

-- On the database that `logout` leaves when it replies 200 to a session cookie, `authMiddleware`
-- answers a request with that cookie by 401 (or 500, if the database fails), at any time and
-- whatever handler it guards.
pub logout_handler-IsRefused :
    {F : Type 0} (digest : Text → Text) (secure : Bool) (token : Text) (d : Db F)
    (next : User → Db F → Response × Db F) (now : Time)
    → (logout_handler digest secure (some token) d).0.code ≡ 200
    → IsRefused (
        auth_middleware write_error
          (user_for_request digest (some token) now)
          next
          (logout_handler digest secure (some token) d).1)
logout_handler-IsRefused digest secure token d next now done =
    auth_middleware-IsRefused digest next now token (logout_handler digest secure (some token) d).1
      (λ given. logout_handler-IsLoggedOut digest secure token d given done)
