-- ===== src/Router/Grant.antt =====
-- What the logins of services/api/internal/router/tplink.go share: the token that a login keeps.
use homelink_monitor.Base.{
  ℕ, ◌+◌, Bool, Option, none, some, List, [], ◌∷◌, ◌++◌, Text, bytes, text_eq, is_empty, Result, ok,
  err, Eff, ◌>>◌, fail, if◌then◌else◌, ℤ, sub_ℕ, wrap_64, pos_part, neg_part, any,
}
use homelink_monitor.Router.Json.{Json, find_string}
use homelink_monitor.Router.Library.{Library}
use homelink_monitor.Router.Session.{Session, AuthMode, Line, change}

abbrev pub keys_path : Text
keys_path = bytes "cgi-bin/luci/;stok=/login?form=keys"

abbrev pub login_path : Text
login_path = bytes "cgi-bin/luci/;stok=/login?form=login"

abbrev pub has_string : List Text → Text → Bool
has_string items want = any (λ item. text_eq item want) items

-- `s.seq + dataLen`, a sum of 64 bits.
abbrev pub add_length : ℤ → ℕ → ℤ
add_length seq n = wrap_64 (sub_ℕ (pos_part seq + n) (neg_part seq))

-- The first two keys of a list.
abbrev pub two_of : List Text → Text → Result (Text × Text)
two_of (n ∷ e ∷ rest) error = ok (n, e)
two_of _ error = err error

abbrev pub some_or : {A : Type 0} → Option A → Text → Result A
some_or (some a) error = ok a
some_or none error = err error

abbrev pub set_stok : Text → Session → Session
set_stok stok s = record s { stok = stok }

abbrev pub set_mode : AuthMode → Session → Session
set_mode mode s = record s { auth_mode = mode }

-- `s.stok` is set, and must not be empty; then the mode is.
abbrev pub keep_stok : Text → AuthMode → Eff Line (Unit {0})
keep_stok stok mode = do
  change (set_stok stok)
  if is_empty stok
      then fail (bytes "router login response missing stok")
      else change (set_mode mode)

module _ {F : Type 0} where
  -- The error of a reply that does not say success.
  abbrev pub refusal : Json F → Text → Text → Text
  refusal reply prefix other =
      if is_empty (find_string reply (bytes "errorcode" ∷ bytes "error_code" ∷ []))
      then other
      else prefix ++ find_string reply (bytes "errorcode" ∷ bytes "error_code" ∷ [])

  abbrev pub signed_form : Library F → Text → Text → Text
  signed_form lib sign payload =
      bytes "sign=" ++ lib.query_escape sign ++ bytes "&data=" ++ lib.query_escape payload
