-- ===== src/Router/Login.antt =====
-- The logins of `session` in services/api/internal/router/tplink.go. Each changes the session as it
-- goes, also where it fails.
pub mod Token
use homelink_monitor.Base.{
  ◌+◌, List, [], ◌∷◌, ◌++◌, Text, bytes, is_empty, ok, Eff, handle, ◌>>=◌, ◌>>◌, pure, fail,
  if◌then◌else◌, join,
}
use homelink_monitor.Router.Json.{Json, find_string, find_string_list, find_bool}
use homelink_monitor.Router.Library.{Library}
use homelink_monitor.Router.Crypto.{rsa_encrypt_pkcs1v15}
use homelink_monitor.Router.Session.{
  Session, legacy, sg, be550, Line, change, lift, get_session, draw, post_form_plain, post,
}
use homelink_monitor.Router.Grant.{keys_path, login_path, two_of, set_stok, refusal, keep_stok}
use homelink_monitor.Router.SgLogin.{login_sg}

module _ {F : Type 0} (lib : Library F) where
  unfoldable pub login_be550 : Eff Line (Unit {0})
  login_be550 = do
    pwd ← post_form_plain lib keys_path (bytes "operation=read") []
    keys ← lift (
        two_of (find_string_list pwd (bytes "password"))
          (bytes "router password RSA keys unavailable"))
    s ← get_session
    n ← draw 1
    encrypted ← lift (rsa_encrypt_pkcs1v15 lib n s.password keys.0 keys.1)
    reply ← post_form_plain lib login_path (bytes "operation=login&password=" ++ encrypted) []
    if find_bool reply (bytes "success")
        then keep_stok (find_string reply (bytes "stok" ∷ bytes "data.stok" ∷ [])) be550
        else fail (
            refusal reply (bytes "router returned error code ")
              (bytes "router returned unsuccessful login response"))

  abbrev pub legacy_payload : Session → List (Text × Text)
  legacy_payload s =
      (bytes "operation", bytes "login")
      ∷ (bytes "password", s.password)
      ∷ (if is_empty s.username then [] else (bytes "username", s.username) ∷ [])

  -- The second form of the legacy login.
  unfoldable pub post_encoded : Eff Line (Json F)
  post_encoded = do
    s ← get_session
    post lib login_path
        ((bytes "operation", bytes "login") ∷ (bytes "password", lib.base64 s.password) ∷ [])

  unfoldable pub post_legacy : Eff Line (Json F)
  post_legacy = do
    s ← get_session
    λ l.
        handle (post lib (bytes "admin/login") (legacy_payload s) l) (λ e. post_encoded)
          (λ reply l'. (ok reply, l'))

  abbrev pub legacy_token : Json F → Text
  legacy_token reply =
      if is_empty (find_string reply (bytes "stok" ∷ bytes "token" ∷ []))
      then find_string reply (bytes "data.stok" ∷ [])
      else find_string reply (bytes "stok" ∷ bytes "token" ∷ [])

  abbrev pub login_failed : List Text → Text → Text
  login_failed failures e =
      bytes "router login failed: "
      ++ join (bytes "; ") (failures ++ (bytes "legacy login failed: " ++ e) ∷ [])

  abbrev pub keep_legacy : List Text → Text → Eff Line (Unit {0})
  keep_legacy failures token = do
    change (set_stok token)
    if is_empty token
        then fail (login_failed failures (bytes "router login response missing stok"))
        else pure tt

  unfoldable pub login_legacy : List Text → Eff Line (Unit {0})
  login_legacy failures l =
      handle (post_legacy l) (λ e. fail (login_failed failures e))
        (λ reply. keep_legacy failures (legacy_token reply))

  -- The three logins, in order, until one succeeds.
  unfoldable pub login : Eff Line (Unit {0})
  login l =
      handle (login_be550 l)
        (λ e l'.
          handle (login_sg lib l')
            (λ e'. login_legacy (
              (bytes "BE550/simple RSA login failed: " ++ e)
              ∷ (bytes "sg encrypted login failed: " ++ e')
              ∷ []))
            (λ _ l''. (ok tt, l'')))
        (λ _ l'. (ok tt, l'))
