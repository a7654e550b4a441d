-- ===== src/Router/Session.antt =====
-- `session` of services/api/internal/router/tplink.go: its state, and the two functions that post to
-- the router. The requests that were sent are kept in order, and the answer to one may depend on
-- them; so does which random bytes come next.
use homelink_monitor.Base.{
  ℕ, ◌+◌, Bool, false, not, ◌&&◌, ◌||◌, Option, none, some, List, [], ◌∷◌, ◌++◌, Text, bytes,
  text_eq, is_empty, Result, ok, err, Eff, ◌>>=◌, ◌>>◌, if◌then◌else◌, leb, ltb, ℤ, pos, contains,
  has_prefix, trim_prefix, trim_left_byte, trim_right_byte, split, join, trim_space,
}
use homelink_monitor.Router.Json.{Json, find_float}
use homelink_monitor.Router.Library.{Library, Request, Reply}

-- `authMode`: "" (legacy), "sg" or "be550".
pub data AuthMode : Type 0 where
  legacy : AuthMode
  sg : AuthMode
  be550 : AuthMode

pub record Session : Type 0 where
  pub base_url : Text
  pub username : Text
  pub password : Text
  pub stok : Text
  pub cookie : Text
  pub auth_mode : AuthMode
  pub aes_key : Text
  pub aes_iv : Text
  pub hash : Text
  pub seq : ℤ
  pub rsa_n : Text
  pub rsa_e : Text
  pub replace_hash : Bool
  pub sysauth : Text

abbrev pub new_session : Text → Text → Text → Session
new_session base_url username password = record {
  base_url = base_url;
  username = username;
  password = password;
  stok = [];
  cookie = [];
  auth_mode = legacy;
  aes_key = [];
  aes_iv = [];
  hash = [];
  seq = pos 0;
  rsa_n = [];
  rsa_e = [];
  replace_hash = false;
  sysauth = [];
}

-- The outside: the requests that were sent, and how many random numbers were drawn.
pub record Wire : Type 0 where
  pub sent : List Request
  pub draws : ℕ

pub record Line : Type 0 where
  pub session : Session
  pub wire : Wire

unfoldable pub join_url : (Text → Text) → Text → Text → Text → Text
join_url path_escape base_url path stok =
    let bare = trim_left_byte b'/' path in
    let full =
      if not (is_empty stok) && not (contains bare (bytes "stok="))
      then bytes "cgi-bin/luci/;stok=" ++ path_escape stok ++ b'/' ∷ bare
      else bare in
    if is_empty base_url then full else trim_right_byte b'/' base_url ++ b'/' ∷ full

unfoldable pub cookie_in : List Text → Text → Text
cookie_in [] name = []
cookie_in (part ∷ parts) name =
    let rest = cookie_in parts name in
    if has_prefix (trim_space part) (name ++ b'=' ∷ [])
    then trim_prefix (trim_space part) (name ++ b'=' ∷ [])
    else rest

unfoldable pub cookie_value : Text → Text → Text
cookie_value raw name = cookie_in (split b';' raw) name

-- `Header.Set`.
unfoldable pub set_header : Text → Text → List (Text × Text) → List (Text × Text)
set_header key value [] = (key, value) ∷ []
set_header key value ((k, v) ∷ headers) =
    let rest = set_header key value headers in
    if text_eq k key then (key, value) ∷ headers else (k, v) ∷ rest

unfoldable pub set_headers : List (Text × Text) → List (Text × Text) → List (Text × Text)
set_headers [] headers = headers
set_headers ((key, value) ∷ more) headers = set_headers more (set_header key value headers)

unfoldable pub header_of : Text → List (Text × Text) → Text
header_of key [] = []
header_of key ((k, v) ∷ headers) =
    let rest = header_of key headers in if text_eq k key then v else rest

-- The last value of the cookie that is not empty.
unfoldable pub last_sysauth : List Text → Text → Text
last_sysauth [] found = found
last_sysauth (raw ∷ cookies) found = last_sysauth cookies (
    if is_empty (cookie_value raw (bytes "sysauth"))
    then found
    else cookie_value raw (bytes "sysauth"))

abbrev pub set_cookie : List Text → Session → Session
set_cookie [] s = s
set_cookie (raw ∷ cookies) s = record s { cookie = join (bytes "; ") (raw ∷ cookies) }

abbrev pub set_cookies : List Text → Session → Session
set_cookies [] s = s
set_cookies (raw ∷ cookies) s = record s {
  cookie = join (bytes "; ") (raw ∷ cookies);
  sysauth = last_sysauth (raw ∷ cookies) s.sysauth;
}

abbrev pub change : (Session → Session) → Eff Line (Unit {0})
change f l = (ok tt, record l { session = f l.session })

-- A result that touches neither the session nor the wire.
abbrev pub lift : {A : Type 0} → Result A → Eff Line A
lift r l = (r, l)

abbrev pub get_session : Eff Line Session
get_session l = (ok l.session, l)

-- The next `n` random numbers, by the index of the first.
abbrev pub draw : ℕ → Eff Line ℕ
draw n l = (ok l.wire.draws, record l { wire = record (l.wire) { draws = l.wire.draws + n } })

module _ {F : Type 0} (lib : Library F) where
  -- `client.Do`.
  abbrev pub send : Request → Eff Line Reply
  send request l = (
    lib.answer l.wire.sent request,
    record l { wire = record (l.wire) { sent = l.wire.sent ++ request ∷ [] } },
  )

  -- The status and the body.
  abbrev pub decode : Reply → Result (Json F)
  decode reply = elim reply.body [
    | err e ↦ err e
    | ok raw ↦
        if ltb reply.code 200 || leb 300 reply.code
        then err (bytes "router returned HTTP " ++ lib.format_int (pos reply.code))
        else lib.unmarshal raw
  ]

  abbrev pub form_headers : Session → List (Text × Text) → List (Text × Text)
  form_headers s headers =
      let accept = (bytes "Accept", bytes "application/json, text/plain, */*") ∷ [] in
      let referer =
        set_header (bytes "Referer")
          (trim_right_byte b'/' s.base_url ++ bytes "/webpages/index.html") accept in
      let typed =
        if is_empty (header_of (bytes "Content-Type") headers)
        then set_header (bytes "Content-Type") (bytes "application/x-www-form-urlencoded") referer
        else referer in
      let given = set_headers headers typed in
      if is_empty s.cookie then given else set_header (bytes "Cookie") s.cookie given

  unfoldable pub post_form_plain : Text → Text → List (Text × Text) → Eff Line (Json F)
  post_form_plain path body headers = do
    s ← get_session
    let url = join_url lib.path_escape s.base_url path []
    lift (lib.new_request url)
    reply ←
        send
          (record { url = url; headers = form_headers s headers; sysauth = s.sysauth; body = body })
    change (set_cookies reply.set_cookie)
    lift (decode reply)

  -- An error code that is not 0 is an error.
  abbrev pub check_code : Json F → Option F → Result (Json F)
  check_code reply none = ok reply
  check_code reply (some code) =
      if lib.is_zero code
      then ok reply
      else err (bytes "router returned error code " ++ lib.format_whole code)

  abbrev pub json_headers : Session → List (Text × Text)
  json_headers s =
      let typed = (bytes "Content-Type", bytes "application/json") ∷ [] in
      if is_empty s.cookie then typed else set_header (bytes "Cookie") s.cookie typed

  unfoldable pub post : Text → List (Text × Text) → Eff Line (Json F)
  post path payload = do
    raw ← lift (lib.marshal payload)
    s ← get_session
    let url = join_url lib.path_escape s.base_url path s.stok
    lift (lib.new_request url)
    reply ← send (record { url = url; headers = json_headers s; sysauth = []; body = raw })
    change (set_cookie reply.set_cookie)
    answer ← lift (decode reply)
    lift (
        check_code answer
          (find_float lib.parse_float answer (bytes "error_code" ∷ bytes "errorcode" ∷ [])))
