-- ===== src/Router/Provider.antt =====
-- `Provider` of services/api/internal/router/tplink.go: the cached session, and the URLs that are probed.
-- Sessions are objects behind pointers: the provider keeps them in the order in which they logged
-- in, and a pointer is a place in that list. The clock's readings are arguments.
mod Tokens
pub mod Cache
pub mod Reused
use homelink_monitor.Base.{
  ℕ, zero, suc, ◌+◌, ◌*◌, Bool, false, not, ◌&&◌, Option, none, some, List, [], ◌∷◌, ◌++◌, Text,
  bytes, text_eq, is_empty, is_some, Result, ok, err, handle, if◌then◌else◌, length, ltb, ◌==◌,
  has_prefix, trim_right_byte, trim_space,
}
use homelink_monitor.Domain.{Time, second}
use homelink_monitor.Router.Library.{Library, Url}
use homelink_monitor.Router.Session.{Session, new_session, Wire, Line}
use homelink_monitor.Router.Login.{login}
use homelink_monitor.Router.Requests.{collect_endpoint_responses}
use homelink_monitor.Router.Clients.{EndpointResponse}

-- `Settings` of the package.
pub record RouterSettings : Type 0 where
  pub url : Text
  pub username : Text
  pub password : Text

pub record Provider : Type 0 where
  pub sessions : List Session
  pub cached_session : Option ℕ
  pub cached_key : Text
  pub session_expires : Time

abbrev pub new_provider : Provider
new_provider = record { sessions = []; cached_session = none; cached_key = []; session_expires = 0 }

-- The provider, and the wire that its sessions share.
pub record Hub : Type 0 where
  pub provider : Provider
  pub wire : Wire

abbrev pub empty_hub : Hub
empty_hub = record { provider = new_provider; wire = record { sent = []; draws = 0 } }

-- The readings of the clock in one probe: of the sample, and of each call of `session`.
pub record Readings : Type 0 where
  pub checked : Time
  pub first : Time
  pub again : Time

-- `*p`. No pointer of a run dangles; the answer for one that does is the fresh session.
unfoldable pub session_at : ℕ → List Session → Session
session_at n [] = new_session [] [] []
session_at zero (s ∷ sessions) = s
session_at (suc n) (s ∷ sessions) = session_at n sessions

unfoldable pub put_session : ℕ → Session → List Session → List Session
put_session n t [] = []
put_session zero t (s ∷ sessions) = t ∷ sessions
put_session (suc n) t (s ∷ sessions) = s ∷ put_session n t sessions

abbrev pub line_at : ℕ → Hub → Line
line_at n h = record { session = session_at n h.provider.sessions; wire = h.wire }

-- What a call on a session leaves.
abbrev pub store_line : ℕ → Line → Hub → Hub
store_line n l h = record {
  provider = record (h.provider) { sessions = put_session n l.session h.provider.sessions };
  wire = l.wire;
}

abbrev pub points_to : Option ℕ → ℕ → Bool
points_to none n = false
points_to (some m) n = m == n

unfoldable pub invalidate_session : ℕ → Hub → Hub
invalidate_session n h =
    if points_to h.provider.cached_session n
    then record h {
      provider = record (h.provider) {
        cached_session = none;
        cached_key = [];
        session_expires = 0;
      };
    }
    else h

abbrev pub is_cached : Provider → Text → Time → Bool
is_cached p key now =
    is_some p.cached_session && text_eq p.cached_key key && ltb now p.session_expires

abbrev pub cached_or_zero : Option ℕ → ℕ
cached_or_zero none = 0
cached_or_zero (some n) = n

module _ {F : Type 0} (lib : Library F) where
  unfoldable pub session_key : RouterSettings → Text → Text
  session_key settings base_url =
      base_url
      ++ bytes "|"
      ++ trim_space settings.username
      ++ bytes "|"
      ++ lib.hex (lib.sha256 settings.password)

  -- The new session is cached for two minutes, from the reading before its login.
  abbrev pub keep_session : Text → Time → Line → Hub → Result ℕ × Hub
  keep_session key now l h = (
    ok (length h.provider.sessions),
    record {
      provider = record {
        sessions = h.provider.sessions ++ l.session ∷ [];
        cached_session = some (length h.provider.sessions);
        cached_key = key;
        session_expires = now + 2 * 60 * second;
      };
      wire = l.wire;
    },
  )

  abbrev pub after_login : Text → Time → Hub → Result (Unit {0}) × Line → Result ℕ × Hub
  after_login key now h (err e, l) = (err e, record h { wire = l.wire })
  after_login key now h (ok _, l) = keep_session key now l h

  unfoldable pub session : RouterSettings → Text → Time → Hub → Result ℕ × Hub
  session settings base_url now h =
      if is_cached h.provider (session_key settings base_url) now
      then (ok (cached_or_zero h.provider.cached_session), h)
      else after_login (session_key settings base_url) now h (
          login lib (record {
            session = new_session base_url settings.username settings.password;
            wire = h.wire;
          }))

  unfoldable pub collect_at : ℕ → Hub → List (EndpointResponse F) × Hub
  collect_at n h =
      let (responses, l) = collect_endpoint_responses lib (line_at n h) in
      (responses, store_line n l h)

  -- With no answer the session is dropped, and a new one is tried once.
  unfoldable pub retry_once :
      RouterSettings
      → Text
      → Readings
      → ℕ
      → List (EndpointResponse F) × Hub
      → List (EndpointResponse F) × Hub
  retry_once settings base_url times n (r ∷ responses, h) = (r ∷ responses, h)
  retry_once settings base_url times n ([], h) =
      handle (session settings base_url times.again (invalidate_session n h)) (λ e h'. ([], h'))
        (λ m. collect_at m)

  unfoldable pub https_fallback_url : Text → Option Text
  https_fallback_url base_url = elim (lib.parse_url base_url) [
    | err e ↦ none
    | ok u ↦
        if text_eq u.scheme (bytes "http")
        then some (lib.url_text (record u { scheme = bytes "https" }))
        else none
  ]

  abbrev pub with_scheme : Text → Text
  with_scheme raw =
      if not (has_prefix raw (bytes "http://")) && not (has_prefix raw (bytes "https://"))
      then bytes "http://" ++ raw
      else raw

  abbrev pub url_or_error : Result Url → Result Text
  url_or_error (err e) = err (bytes "router URL is invalid")
  url_or_error (ok u) =
      if is_empty u.host
      then err (bytes "router URL is invalid")
      else ok (
          lib.url_text
            (record u { path = trim_right_byte b'/' u.path; raw_query = []; fragment = [] }))

  unfoldable pub normalize_base_url : Text → Result Text
  normalize_base_url raw =
      if is_empty (trim_space raw)
      then err (bytes "router URL is required")
      else url_or_error (lib.parse_url (with_scheme (trim_space raw)))
