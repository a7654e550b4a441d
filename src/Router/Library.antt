-- ===== src/Router/Library.antt =====
-- What services/api/internal/router/tplink.go calls in Go's libraries (net/http, net/url,
-- encoding/json, crypto, strconv, fmt): parameters of the model.
use homelink_monitor.Base.{ℕ, Bool, Option, List, Text, Result, ℤ}
use homelink_monitor.Router.Json.{Json}

pub record Request : Type 0 where
  pub url : Text
  pub headers : List (Text × Text)
  -- The cookie that `AddCookie` adds, or "".
  pub sysauth : Text
  pub body : Text

-- The status, the values of Set-Cookie, and what reading the body yields.
pub record Reply : Type 0 where
  pub code : ℕ
  pub set_cookie : List Text
  pub body : Result Text

pub record Url : Type 0 where
  pub scheme : Text
  pub user : Text
  pub host : Text
  pub path : Text
  pub raw_query : Text
  pub fragment : Text

-- The modulus and the exponent.
abbrev pub PublicKey : Type 0
PublicKey = ℤ × ℤ

pub record Library (F : Type 0) : Type 0 where
  -- `strconv.ParseFloat`; conversions and formats of numbers.
  pub parse_float : Text → Option F
  pub to_int : F → ℤ
  pub is_zero : F → Bool
  pub format_int : ℤ → Text
  pub format_whole : F → Text
  -- encoding/json: `Unmarshal` into `any`, and `Marshal` of a map of strings.
  pub unmarshal : Text → Result (Json F)
  pub marshal : List (Text × Text) → Result Text
  -- encoding/hex, encoding/base64, and math/big's `SetString` in base 16.
  pub hex : Text → Text
  pub base64 : Text → Text
  pub unbase64 : Text → Result Text
  pub parse_hex : Text → Option ℤ
  -- net/url.
  pub query_escape : Text → Text
  pub path_escape : Text → Text
  pub parse_url : Text → Result Url
  pub url_text : Url → Text
  -- crypto. The number says which random numbers a call uses.
  pub sha256 : Text → Text
  pub hmac_sha256 : Text → Text → Text
  pub encrypt_pkcs1v15 : ℕ → PublicKey → Text → Result Text
  pub encrypt_oaep : ℕ → PublicKey → Text → Result Text
  pub new_cipher : Text → Result (Unit {0})
  pub cbc_encrypt : Text → Text → Text → Text
  pub cbc_decrypt : Text → Text → Text → Text
  -- The n-th byte that `rand.Read` yields, if it does not fail.
  pub random_byte : ℕ → Option ℕ
  -- net/http: whether a URL makes a request, and the answer to one after those before it.
  pub new_request : Text → Result (Unit {0})
  pub answer : List Request → Request → Result Reply
