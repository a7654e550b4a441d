-- ===== src/Auth.antt =====
-- services/api/internal/auth/auth.go. bcrypt is a parameter, and so is the random token of a login.
use homelink_monitor.Base.{
  ℕ, ◌+◌, ◌*◌, Bool, true, ◌&&◌, ◌||◌, Option, none, some, [], Text, bytes, is_empty, trim_space,
  Result, ok, err, Eff, ◌>>=◌, ◌>>◌, pure, fail, if◌then◌else◌, length, all, ltb, leb, ◌==◌, ℤ, pos,
  negsuc,
}
use homelink_monitor.Domain.{Time, User, second}
use homelink_monitor.Store.Schema.{Db, returns}
use homelink_monitor.Store.Users.{
  UserWithPassword, user_count, create_user, user_by_username, create_session, user_by_session,
  delete_session, delete_expired_sessions,
}

-- golang.org/x/crypto/bcrypt: a hash of a password, and whether a hash is one of a password.
pub record Bcrypt : Type 0 where
  pub generate : Text → Result Text
  pub matches : Text → Text → Bool

-- A byte that `ValidateUsername` lets pass. Its loop ranges over runes; one that is not ASCII is
-- refused, and so is each byte of it.
abbrev pub is_name_byte : ℕ → Bool
is_name_byte r =
    (leb b'a' r && leb r b'z')
    || (leb b'A' r && leb r b'Z')
    || (leb b'0' r && leb r b'9')
    || r == b'.'
    || r == b'-'
    || r == b'_'
    || r == b'@'

unfoldable pub validate_username : Text → Result (Unit {0})
validate_username username =
    if is_empty (trim_space username)
    then err (bytes "username is required")
    else if ltb 64 (length (trim_space username))
    then err (bytes "username must be 64 characters or less")
    else if all is_name_byte (trim_space username)
    then ok tt
    else err (bytes "username may only contain letters, numbers, dot, dash, underscore, and @")

unfoldable pub hash_password : Bcrypt → Text → Result Text
hash_password bcrypt password =
    if ltb (length password) 8
    then err (bytes "password must be at least 8 characters")
    else if ltb 72 (length password)
    then err (bytes "password must be 72 bytes or less")
    else bcrypt.generate password

abbrev pub session_time : Time
session_time = 30 * 24 * 60 * 60 * second

-- The cookie of `SetSessionCookie` and `ClearSessionCookie`.
pub record Cookie : Type 0 where
  pub value : Text
  pub path : Text
  pub http_only : Bool
  pub same_site_strict : Bool
  pub secure : Bool
  pub max_age : ℤ

unfoldable pub session_cookie : Bool → Text → Cookie
session_cookie secure token = record {
  value = token;
  path = bytes "/";
  http_only = true;
  same_site_strict = true;
  secure = secure;
  max_age = pos (30 * 24 * 60 * 60);
}

unfoldable pub cleared_cookie : Bool → Cookie
cleared_cookie secure = record {
  value = [];
  path = bytes "/";
  http_only = true;
  same_site_strict = true;
  secure = secure;
  max_age = negsuc 0;
}

abbrev pub check_password : Bcrypt → Text → Option UserWithPassword → Result UserWithPassword
check_password bcrypt password none = err (bytes "invalid username or password")
check_password bcrypt password (some u) =
    if bcrypt.matches u.password_hash password
    then ok u
    else err (bytes "invalid username or password")

module _ {F : Type 0} (bcrypt : Bcrypt) where
  -- The part of `EnsureInitialAdmin` that runs when there is no user yet.
  unfoldable pub create_admin : Text → Text → Time → Eff (Db F) (Unit {0})
  create_admin username password now = do
    (λ d. (validate_username username, d))
    hash ← (λ d. (hash_password bcrypt password, d))
    create_user (trim_space username) hash (bytes "admin") now
    pure tt

  unfoldable pub ensure_initial_admin : Text → Text → Time → Eff (Db F) (Unit {0})
  ensure_initial_admin username password now = do
    count ← user_count
    if ltb 0 count
        then pure tt
        else if is_empty (trim_space username) || is_empty password
        then fail
            (bytes "ADMIN_USERNAME and ADMIN_PASSWORD are required when creating the first user")
        else create_admin username password now

  -- `token` is what `randomToken` returns.
  unfoldable pub login : (Text → Text) → Text → Text → Time → Result Text → Eff (Db F) (Text × User)
  login digest username password now token = do
    delete_expired_sessions now
    found ← user_by_username (trim_space username)
    u ← returns (check_password bcrypt password found)
    fresh ← returns token
    create_session digest fresh u.user.id now (now + session_time)
    pure (fresh, u.user)

module _ {F : Type 0} (digest : Text → Text) where
  -- The value of the session cookie, if the request has one.
  unfoldable pub user_for_request : Option Text → Time → Eff (Db F) (Option User)
  user_for_request none now = pure none
  user_for_request (some value) now =
      if is_empty value then pure none else user_by_session digest value now

  unfoldable pub logout : Text → Eff (Db F) (Unit {0})
  logout token = if is_empty token then pure tt else delete_session digest token
