-- ===== src/HttpApi/Users.antt =====
-- The handlers of users and sessions of services/api/internal/httpapi/api.go. What echo reads from
-- the request (the bound body, the path parameter, the cookie) is an argument.
pub mod Login
pub mod Logout
pub mod Passwords
mod Tests
pub mod Race
pub mod Safety
pub mod Sound
use homelink_monitor.Base.{
  ℕ, Bool, true, false, ◌&&◌, not, Option, none, some, List, Text, text_eq, bytes, is_empty,
  trim_space, Result, ok, err, Eff, handle, if◌then◌else◌, leb, ℤ, pos,
}
use homelink_monitor.Domain.{Time, User}
use homelink_monitor.Store.Schema.{Db}
use homelink_monitor.Store.Users.{
  is_key, user_count, create_user, users, user_by_id, update_user, delete_user,
  delete_sessions_for_user,
}
use homelink_monitor.Auth.{
  Bcrypt, Cookie, validate_username, hash_password, session_cookie, cleared_cookie, login, logout,
}

pub data Body : Type 0 where
  error : Text → Body
  status : Text → Body
  one_user : Option User → Body
  many_users : List User → Body

pub record Response : Type 0 where
  pub code : ℕ
  pub body : Body
  pub cookie : Option Cookie

abbrev pub json : ℕ → Body → Response
json code body = record { code = code; body = body; cookie = none }

abbrev pub write_error : ℕ → Text → Response
write_error code e = json code (error e)

pub record UserRequest : Type 0 where
  pub username : Text
  pub password : Text
  pub role : Text

unfoldable pub normalize : UserRequest → UserRequest
normalize r = record {
  username = trim_space r.username;
  password = r.password;
  role = trim_space (if is_empty r.role then bytes "admin" else r.role);
}

abbrev check_role : UserRequest → Bool → Result (Unit {0})
check_role r password_required =
    if not (text_eq r.role (bytes "admin"))
    then err (bytes "unsupported role")
    else if password_required && is_empty r.password
    then err (bytes "password is required")
    else ok tt

abbrev after_username : Result (Unit {0}) → UserRequest → Bool → Result (Unit {0})
after_username (err e) r password_required = err e
after_username (ok _) r password_required = check_role r password_required

unfoldable pub validate_user_request : UserRequest → Bool → Result (Unit {0})
validate_user_request r password_required =
    after_username (validate_username r.username) r password_required

-- A check that reads no state: its error is answered with the code.
abbrev pub or_reply : {S A : Type 0} → Result A → ℕ → (A → S → Response × S) → S → Response × S
or_reply (ok a) code next s = next a s
or_reply (err e) code next s = (write_error code e, s)

-- A call of the store: its error is answered with the code.
abbrev pub reply_on : {S A : Type 0} → Eff S A → ℕ → (A → S → Response × S) → S → Response × S
reply_on call code next s = handle (call s) (λ e s'. (write_error code e, s')) next

-- `req.Password` as a hash, if it is not empty.
abbrev pub optional_hash : Bcrypt → Text → Result (Option Text)
optional_hash bcrypt password =
    if is_empty password
    then ok none
    else elim (hash_password bcrypt password) [ err e ↦ err e | ok hash ↦ ok (some hash) ]

-- `ok && current.ID == id`.
abbrev pub is_current : ℤ → Option User → Bool
is_current id none = false
is_current id (some user) = is_key id user.id

abbrev logged_in : Bool → Text → User → Response
logged_in secure fresh user = record {
  code = 200;
  body = one_user (some user);
  cookie = some (session_cookie secure fresh);
}

abbrev logged_out : Bool → Response
logged_out secure = record {
  code = 200;
  body = status (bytes "ok");
  cookie = some (cleared_cookie secure);
}

module _ {F : Type 0} where
  unfoldable pub user_reply : ℤ → Db F → Response × Db F
  user_reply id = reply_on (user_by_id id) 500 (λ user d. (json 200 (one_user user), d))

  unfoldable pub list_users : Db F → Response × Db F
  list_users = reply_on users 500 (λ items d. (json 200 (many_users items), d))

  -- What `deleteUser` does once the count is known.
  abbrev delete_counted : Bool → ℤ → ℕ → Db F → Response × Db F
  delete_counted cascade id count d =
      if leb count 1
      then (write_error 400 (bytes "cannot delete the last user"), d)
      else reply_on (delete_user cascade id) 400 (λ _ d'. (json 200 (status (bytes "deleted")), d'))
          d

  abbrev delete_known : Bool → Option User → ℤ → Db F → Response × Db F
  delete_known cascade current id d =
      if is_current id current
      then (write_error 400 (bytes "cannot delete the current user"), d)
      else reply_on user_count 500 (delete_counted cascade id) d

  unfoldable pub delete_user_handler : Bool → Result ℤ → Option User → Db F → Response × Db F
  delete_user_handler cascade path_id current = or_reply path_id 400 (delete_known cascade current)

  -- A new password signs the user out.
  abbrev pub drop_sessions : ℤ → Option Text → Db F → Response × Db F
  drop_sessions id none = user_reply id
  drop_sessions id (some hash) = reply_on (delete_sessions_for_user id) 500 (λ _. user_reply id)

  module _ (bcrypt : Bcrypt) where
    unfoldable pub create_user_handler : Result UserRequest → Time → Db F → Response × Db F
    create_user_handler bound now = or_reply bound 400 (λ sent.
        or_reply (validate_user_request (normalize sent) true) 400 (λ _.
          or_reply (hash_password bcrypt (normalize sent).password) 400 (λ hash.
            reply_on (create_user (normalize sent).username hash (normalize sent).role now) 400
              (λ id. user_reply (pos id)))))

    unfoldable pub update_user_handler :
        Result ℤ → Result UserRequest → Time → Db F → Response × Db F
    update_user_handler path_id bound now = or_reply path_id 400 (λ id. or_reply bound 400 (λ sent.
        or_reply (validate_user_request (normalize sent) false) 400 (λ _.
          or_reply (optional_hash bcrypt (normalize sent).password) 400 (λ hash.
            reply_on (update_user id (normalize sent).username (normalize sent).role hash now) 400
              (λ _. drop_sessions id hash)))))

    -- The body's username and password.
    unfoldable pub login_handler :
        (Text → Text) → Bool → Result (Text × Text) → Time → Result Text → Db F → Response × Db F
    login_handler digest secure bound now token = or_reply bound 400 (λ sent.
        reply_on (login bcrypt digest sent.0 sent.1 now token) 401
          (λ found d. (logged_in secure found.0 found.1, d)))

module _ {F : Type 0} (digest : Text → Text) where
  unfoldable pub logout_handler : Bool → Option Text → Db F → Response × Db F
  logout_handler secure none d = (logged_out secure, d)
  logout_handler secure (some value) d =
      reply_on (logout digest value) 500 (λ _ d'. (logged_out secure, d')) d

module _ {S A : Type 0} (refuse : ℕ → Text → A) where
  abbrev pub for_user : (User → S → A × S) → Option User → S → A × S
  for_user next none s = (refuse 401 (bytes "authentication required"), s)
  for_user next (some user) s = next user s

  -- `authMiddleware`: the handler runs for the user of a live session only. `caller` is the call of
  -- `UserForRequest`, and `refuse` makes the answer of `writeError`.
  unfoldable pub auth_middleware : Eff S (Option User) → (User → S → A × S) → S → A × S
  auth_middleware caller next s = handle (caller s) (λ e s'. (refuse 500 e, s')) (for_user next)
