-- ===== src/Router/Examples.antt =====
-- A router that answers each request in the same way.
use homelink_monitor.Base.{
  ℕ, ◌+◌, ◌*◌, ◌/◌, true, false, none, some, [], ◌++◌, bytes, ltb, Floats, ok, pos,
}
use homelink_monitor.Router.Json.{Json, text, array, object, flag, nil, item, end, field}
use homelink_monitor.Router.Library.{Library}
use homelink_monitor.Router.Provider.{RouterSettings, new_provider, Hub, Readings}

-- The answer grants a login, and lists a client.
abbrev pub answer : Json ℕ
answer = object (
    field (bytes "success") (flag true) (
      field (bytes "stok") (text (bytes "t")) (
        field (bytes "password") (array (item (text (bytes "7")) (item (text (bytes "3")) nil))) (
          field (bytes "list")
            (array (item (object (field (bytes "mac") (text (bytes "m")) end)) nil)) end))))

-- Nothing is encrypted.
abbrev pub plain_library : Library ℕ
plain_library = record {
  parse_float = λ s. none;
  to_int = λ n. pos n;
  is_zero = λ n. false;
  format_int = λ n. [];
  format_whole = λ n. [];
  unmarshal = λ s. ok answer;
  marshal = λ fields. ok [];
  hex = λ s. s;
  base64 = λ s. s;
  unbase64 = λ s. ok s;
  parse_hex = λ s. some (pos 7);
  query_escape = λ s. s;
  path_escape = λ s. s;
  parse_url = λ s. ok (record {
    scheme = bytes "http";
    user = [];
    host = bytes "h";
    path = [];
    raw_query = [];
    fragment = [];
  });
  url_text = λ u. u.scheme ++ bytes "://" ++ u.host;
  sha256 = λ s. s;
  hmac_sha256 = λ key s. s;
  encrypt_pkcs1v15 = λ n key s. ok s;
  encrypt_oaep = λ n key s. ok s;
  new_cipher = λ key. ok tt;
  cbc_encrypt = λ key iv s. s;
  cbc_decrypt = λ key iv s. s;
  random_byte = λ n. some 1;
  new_request = λ url. ok tt;
  answer = λ sent r. ok (record { code = 200; set_cookie = []; body = ok [] });
}

abbrev pub whole : Floats ℕ
whole = record { of_nat = λ n. n; less = ltb; plus = ◌+◌; times = ◌*◌; over = ◌/◌ }

abbrev pub settings : RouterSettings
settings = record { url = bytes "h"; username = []; password = bytes "p" }

abbrev pub hub : Hub
hub = record { provider = new_provider; wire = record { sent = []; draws = 0 } }

abbrev pub times : Readings
times = record { checked = 10; first = 10; again = 20 }
