-- ===== src/HttpApi/Users/Tests.antt =====
-- The handlers of users on a small database.
use homelink_monitor.Base.{
  text_eq, bytes, ℕ, ◌+◌, ◌≡◌, refl, true, some, [], ◌∷◌, ok, pos, arith, trim_space, trim_left,
  trim_right,
}
use homelink_monitor.Domain.{User}
use homelink_monitor.Store.Stamp.{
  ts, stamp_lt, parse_ts, parse_fraction, parse_digits, fraction_text, fraction_digits,
}
use homelink_monitor.Store.Schema.{Db, empty_db, UserRow, SessionRow}
use homelink_monitor.Store.Users.{
  delete_sessions_for_user, update_user, set_user, user_by_id, scan_user_row, scan_user,
  delete_session, delete_expired_sessions, user_by_username, scan_user_with_password,
  create_session, add_session,
}
use homelink_monitor.Store.Users.Accounts.{HasNoSession}
use homelink_monitor.Auth.{
  Bcrypt, validate_username, hash_password, login, logout, session_time, user_for_request,
}
use homelink_monitor.HttpApi.Users.{
  UserRequest, normalize, validate_user_request, update_user_handler, delete_user_handler,
  user_reply, login_handler, logout_handler, auth_middleware, Response, write_error, json, one_user,
}
use homelink_monitor.HttpApi.Users.Safety.{IsInhabited, delete_user_handler-IsInhabited}
use homelink_monitor.HttpApi.Users.Race.{mixed, mixed-nil, with_two, deleted}
use homelink_monitor.HttpApi.Users.Login.{IsLetIn, login_handler-IsLetIn}
use homelink_monitor.HttpApi.Users.Passwords.{update_user_handler-HasNoSession}
use homelink_monitor.HttpApi.Users.Logout.{IsRefused, logout_handler-IsRefused}

abbrev ann : UserRow
ann = record {
  id = 1;
  username = b'a' ∷ [];
  password_hash = b'h' ∷ [];
  role = b'r' ∷ [];
  created_at = ts 0;
  updated_at = ts 0;
}

abbrev ann_user : User
ann_user = record { id = 1; username = b'a' ∷ []; role = b'r' ∷ []; created_at = 0; updated_at = 0 }

abbrev ann_session : SessionRow
ann_session = record {
  id = 1;
  token_hash = b't' ∷ [];
  user_id = 1;
  created_at = ts 0;
  expires_at = ts 2000000000;
}

abbrev home : Db ℕ
home = record (empty_db) {
  users = record { rows = ann ∷ record ann { id = 2; username = b'b' ∷ [] } ∷ []; last_id = 2 };
  sessions = record { rows = ann_session ∷ []; last_id = 1 };
}

abbrev plain : Bcrypt
plain = record { generate = λ password. ok password; matches = λ hash password. true }

abbrev sent : UserRequest
sent = record {
  username = b'a' ∷ [];
  password = b'p' ∷ b'a' ∷ b's' ∷ b's' ∷ b'w' ∷ b'o' ∷ b'r' ∷ b'd' ∷ [];
  role = b'a' ∷ b'd' ∷ b'm' ∷ b'i' ∷ b'n' ∷ [];
}

abbrev nobody : User → Db ℕ → Response × Db ℕ
nobody user d = (json 200 (one_user (some user)), d)

delete_user_handler-IsInhabited_example :
    IsInhabited
      (some ann_user)
      (delete_user_handler true (ok (pos 2)) (some ann_user) home).1.users.rows
delete_user_handler-IsInhabited_example =
    delete_user_handler-IsInhabited true (ok (pos 2)) (some ann_user) home (omega arith, refl)
      (refl, (refl, tt))

update_user_handler-HasNoSession_example :
    HasNoSession (pos 1) (update_user_handler plain (ok (pos 1)) (ok sent) 5 home).1.sessions.rows
unfolding update_user_handler normalize validate_user_request validate_username hash_password
    trim_space trim_left trim_right update_user set_user delete_sessions_for_user user_reply
    user_by_id scan_user_row scan_user parse_ts ts text_eq bytes parse_fraction fraction_text
    parse_digits fraction_digits
update_user_handler-HasNoSession_example =
    update_user_handler-HasNoSession plain (pos 1) sent 5 home refl refl

logout_handler-IsRefused_example : IsRefused (
    auth_middleware write_error
      (user_for_request (λ token. token) (some (b't' ∷ [])) 5)
      nobody
      (logout_handler (λ token. token) true (some (b't' ∷ [])) home).1)
unfolding logout_handler logout delete_session
logout_handler-IsRefused_example =
    logout_handler-IsRefused (λ token. token) true (b't' ∷ []) home nobody 5 refl

mixed-nil_example :
    ((mixed true (pos 2) (pos 1) (with_two home ann (record ann { id = 2 }) 2)).0
      ≡ (deleted, deleted))
    × ((mixed true (pos 2) (pos 1) (with_two home ann (record ann { id = 2 }) 2)).1.users.rows ≡ [])
mixed-nil_example = mixed-nil true home ann (record ann { id = 2 }) 2 refl

still_live : stamp_lt (ts 6) (ts (5 + session_time)) ≡ true
unfolding stamp_lt ts
still_live = refl

abbrev logged_on : Response × Db ℕ
logged_on =
    login_handler plain (λ token. token) true (ok (b'a' ∷ [], b'p' ∷ [])) 5 (ok (b'u' ∷ [])) home

logged_on_ok : (logged_on.0.code ≡ 200) × (logged_on.1.faults ≡ [])
unfolding login_handler login delete_expired_sessions user_by_username scan_user_with_password
    text_eq trim_space trim_right trim_left scan_user parse_ts parse_fraction ts fraction_text
    create_session add_session stamp_lt
logged_on_ok = (refl, refl)

login_handler-IsLetIn_example :
    IsLetIn plain
      (λ token. token)
      (b'a' ∷ [])
      (b'p' ∷ [])
      (b'u' ∷ [])
      5
      6
      still_live
      true
      home.users.rows
      write_error
      nobody
      logged_on
login_handler-IsLetIn_example =
    login_handler-IsLetIn plain (λ token. token) (b'a' ∷ []) (b'p' ∷ []) (b'u' ∷ []) 5 6 still_live
      true home write_error nobody (refl, (refl, tt)) refl logged_on_ok.0 logged_on_ok.1
