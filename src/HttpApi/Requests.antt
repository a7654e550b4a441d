-- ===== src/HttpApi/Requests.antt =====
-- Query parameters, origins and static files of services/api/internal/httpapi/api.go. echo, strconv,
-- time, net/url and path/filepath are parameters.
pub mod Bounded
use homelink_monitor.Base.{
  ℕ, Bool, false, not, ◌&&◌, ◌||◌, Option, none, some, Text, text_eq, bytes, is_empty, Result, ok,
  err, if◌then◌else◌, ltb, ℤ, pos, negsuc, has_prefix, trim_prefix,
}
use homelink_monitor.Domain.{Time}
use homelink_monitor.Router.Library.{Url}

-- What echo reads of a request.
pub record Request : Type 0 where
  pub method : Text
  pub host : Text
  pub origin : Text
  pub path : Text
  pub query : Text → Text

pub record Parsers : Type 0 where
  pub atoi : Text → Option ℤ
  pub rfc3339 : Text → Result Time
  pub parse_url : Text → Result Url
  pub equal_fold : Text → Text → Bool

-- path/filepath, and whether `os.Stat` finds a file.
pub record Paths : Type 0 where
  pub abs : Text → Result Text
  pub clean : Text → Text
  pub join : Text → Text → Text
  pub rel : Text → Text → Result Text
  pub exists : Text → Bool

-- A method that changes nothing.
abbrev pub is_safe_method : Text → Bool
is_safe_method method =
    text_eq method (bytes "GET")
    || text_eq method (bytes "HEAD")
    || text_eq method (bytes "OPTIONS")

module _ (parsers : Parsers) where
  abbrev capped : ℕ → ℕ → Option ℤ → ℕ
  capped fallback max none = fallback
  capped fallback max (some (negsuc n)) = fallback
  capped fallback max (some (pos n)) = if ltb max n then max else n

  unfoldable pub int_param : Request → Text → ℕ → ℕ → ℕ
  int_param r key fallback max =
      if is_empty (r.query key) then fallback else capped fallback max (parsers.atoi (r.query key))

  unfoldable pub time_param : Request → Text → Result (Option Time)
  time_param r key =
      if is_empty (r.query key)
      then ok none
      else elim (parsers.rfc3339 (r.query key)) [ err e ↦ err e | ok t ↦ ok (some t) ]

  unfoldable pub same_origin : Text → Text → Bool
  same_origin origin host = elim (parsers.parse_url origin) [
    | err e ↦ false
    | ok u ↦
        parsers.equal_fold u.host host
        && (text_eq u.scheme (bytes "http") || text_eq u.scheme (bytes "https"))
  ]

  -- `sameOriginMiddleware` before the next handler; `refused` is the answer 403.
  unfoldable pub same_origin_middleware :
      {A S : Type 0} → (ℕ → Text → A) → Request → (S → A × S) → S → A × S
  same_origin_middleware write_error r next s =
      if is_safe_method r.method
      then next s
      else if is_empty r.origin
      then next s
      else if not (same_origin r.origin r.host)
      then (write_error 403 (bytes "cross-origin request rejected"), s)
      else next s

-- What `static` answers: an error, or a file.
pub data Served : Type 0 where
  refused : ℕ → Text → Served
  file : Text → Served

module _ (paths : Paths) where
  unfoldable pub path_inside : Text → Text → Bool
  path_inside root path = elim (paths.rel root path) [
    | err e ↦ false
    | ok rel ↦
        text_eq rel (bytes ".")
        || (not (text_eq rel (bytes "..")) && not (has_prefix rel (bytes "../")))
  ]

  abbrev pub index_of : Text → Text
  index_of root = paths.join root (bytes "index.html")

  -- The file that a path asks for.
  unfoldable pub file_path : Text → Text → Text
  file_path root path =
      let clean = trim_prefix (paths.clean path) (bytes "/") in
      if text_eq path (bytes "/") || text_eq clean (bytes ".")
      then index_of root
      else paths.join root clean

  abbrev pub serve_from : Text → Text → Served
  serve_from root path =
      if not (path_inside root path)
      then refused 404 (bytes "not found")
      else if paths.exists path
      then file path
      else file (index_of root)

  abbrev pub static_in : Text → Result Text → Served
  static_in path (err e) = refused 500 e
  static_in path (ok root) = serve_from root (file_path root path)

  unfoldable pub static : Text → Text → Served
  static static_dir path =
      if has_prefix path (bytes "/api/")
      then refused 404 (bytes "not found")
      else static_in path (paths.abs static_dir)
