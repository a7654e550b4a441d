-- ===== src/Router/SgLogin.antt =====
-- The encrypted login (`loginSG`) of services/api/internal/router/tplink.go. It changes the session as
-- it goes, also where it fails.
use homelink_monitor.Base.{
  ℕ, ◌+◌, true, not, ◌&&◌, ◌||◌, Option, none, some, List, [], ◌∷◌, ◌++◌, Text, bytes, text_eq,
  is_empty, Result, ok, err, Eff, handle, ◌>>=◌, ◌>>◌, fail, if◌then◌else◌, length, trim_space,
  join,
}
use homelink_monitor.Router.Json.{Json, find_string, find_string_list, find_bool, find_float}
use homelink_monitor.Router.Library.{Library}
use homelink_monitor.Router.Crypto.{
  chunks, rsa_encrypt_pkcs1v15, aes_cbc_encrypt_base64, aes_cbc_decrypt_base64, sign_chunks,
  random_digits,
}
use homelink_monitor.Router.Session.{
  Session, sg, Line, change, lift, get_session, draw, post_form_plain,
}
use homelink_monitor.Router.Grant.{
  keys_path, login_path, has_string, add_length, two_of, some_or, refusal, keep_stok, signed_form,
}

module _ {F : Type 0} (lib : Library F) where
  unfoldable pub prepare_sg_login : Text → Eff Line (Unit {0})
  prepare_sg_login username = do
    auth ←
        post_form_plain lib (bytes "cgi-bin/luci/;stok=/login?form=auth") (bytes "operation=read")
          []
    keys ←
        lift
          (two_of (find_string_list auth (bytes "key")) (bytes "router auth RSA keys unavailable"))
    seq ← lift (
        some_or (find_float lib.parse_float auth (bytes "seq" ∷ []))
          (bytes "router auth sequence unavailable"))
    n ← draw 32
    change (λ s. record s {
      seq = lib.to_int seq;
      rsa_n = keys.0;
      rsa_e = keys.1;
      hash = lib.hex (lib.sha256 (username ++ s.password));
      aes_key = random_digits lib n 16;
      aes_iv = random_digits lib (n + 16) 16;
    })

  abbrev pub certified : List Text → Session → Session
  certified [] s = s
  certified (c ∷ certifications) s = record s {
    replace_hash = has_string (c ∷ certifications) (bytes "SG CLS L1 STAGE2");
  }

  -- An error of the request is ignored.
  abbrev pub keep_certification : Result (Json F) × Line → Result (Unit {0}) × Line
  keep_certification (err e, l) = (ok tt, l)
  keep_certification (ok reply, l) =
      change (certified (find_string_list reply (bytes "certification"))) l

  unfoldable pub detect_certification : Eff Line (Unit {0})
  detect_certification l = keep_certification (
      post_form_plain lib (bytes "cgi-bin/luci/;stok=/device_config?form=config")
        (bytes "operation=read") []
        (record l { session = record (l.session) { replace_hash = true } }))

  unfoldable pub sg_login_signature : ℕ → Eff Line Text
  sg_login_signature n = do
    s ← get_session
    let signed =
        bytes "k="
        ++ s.aes_key
        ++ bytes "&i="
        ++ s.aes_iv
        ++ bytes "&h="
        ++ s.hash
        ++ bytes "&s="
        ++ lib.format_int (add_length s.seq n)
    start ← draw (length (chunks signed))
    lift (sign_chunks lib start s.rsa_n s.rsa_e (chunks signed))

  -- A reply with no encrypted part may still carry the token.
  abbrev pub plain_reply : Json F → Eff Line (Unit {0})
  plain_reply reply =
      let token = find_string reply (bytes "stok" ∷ bytes "data.stok" ∷ []) in
      if find_bool reply (bytes "success") && not (is_empty token)
      then change (λ s. record s { stok = token; auth_mode = sg })
      else fail (
          refusal reply (bytes "router login response missing encrypted data; errorcode=")
            (bytes "router login response missing encrypted data"))

  -- The token of the decrypted reply: `stok`, else `data.stok`.
  abbrev pub sg_token : Json F → Text
  sg_token reply =
      if is_empty (find_string reply (bytes "stok" ∷ []))
      then find_string reply (bytes "data.stok" ∷ [])
      else find_string reply (bytes "stok" ∷ [])

  abbrev pub encrypted_reply : Text → Eff Line (Unit {0})
  encrypted_reply encrypted = do
    s ← get_session
    decrypted ← lift (aes_cbc_decrypt_base64 lib s.aes_key s.aes_iv encrypted)
    reply ← lift (lib.unmarshal decrypted)
    if find_bool reply (bytes "success")
        then keep_stok (sg_token reply) sg
        else fail (bytes "router SG login failed: " ++ decrypted)

  unfoldable pub finish_sg_login : Text → Eff Line (Unit {0})
  finish_sg_login password = do
    s ← get_session
    payload ← lift (
        aes_cbc_encrypt_base64 lib s.aes_key s.aes_iv
          (bytes "operation=login&password=" ++ password ++ bytes "&confirm=true"))
    sign ← sg_login_signature (length payload)
    reply ←
        post_form_plain lib login_path (signed_form lib sign payload)
          ((bytes "Content-Type", bytes "application/x-www-form-urlencoded") ∷ [])
    if is_empty (find_string reply (bytes "data" ∷ []))
        then plain_reply reply
        else encrypted_reply (find_string reply (bytes "data" ∷ []))

  -- `prepareSGLogin`, then `finishSGLogin`: the attempt that failed is put into words.
  abbrev pub finished : Text → Result (Unit {0}) × Line → Result (Unit {0}) × Line
  finished kind (ok _, l) = (ok tt, l)
  finished kind (err e, l) = (err (kind ++ bytes " login failed: " ++ e), l)

  abbrev pub prepared : Text → Text → Result (Unit {0}) × Line → Result (Unit {0}) × Line
  prepared kind password (ok _, l) = finished kind (finish_sg_login password l)
  prepared kind password (err e, l) = (err (kind ++ bytes " login setup failed: " ++ e), l)

  unfoldable pub attempt : Text → Text → Text → Eff Line (Unit {0})
  attempt kind username password l = prepared kind password (prepare_sg_login username l)

  -- The attempt with the encrypted password.
  abbrev pub attempt_encrypted : Text → Result Text → Eff Line (Unit {0})
  attempt_encrypted username (ok encrypted) = attempt (bytes "RSA password") username encrypted
  attempt_encrypted username (err e) = fail (bytes "RSA password encryption failed: " ++ e)

  unfoldable pub attempt_rsa : Text → Text × Text → Eff Line (Unit {0})
  attempt_rsa username keys = do
    s ← get_session
    n ← draw 1
    attempt_encrypted username (rsa_encrypt_pkcs1v15 lib n s.password keys.0 keys.1)

  unfoldable pub attempt_plain : Text → Eff Line (Unit {0})
  attempt_plain username = do s ← get_session; attempt (bytes "plain password") username s.password

  -- What is tried for each user name, in order.
  abbrev pub attempts_for : Option (Text × Text) → Text → List (Eff Line (Unit {0}))
  attempts_for none username = attempt_plain username ∷ []
  attempts_for (some keys) username = attempt_rsa username keys ∷ attempt_plain username ∷ []

  -- The first attempt that succeeds ends the loop; `failures` are the words for those before it.
  unfoldable pub try_each : List (Eff Line (Unit {0})) → List Text → Eff Line (Unit {0})
  try_each [] failures l = (err (join (bytes "; ") failures), l)
  try_each (next ∷ attempts) failures l =
      handle (next l) (λ e. try_each attempts (failures ++ e ∷ [])) (λ _ l'. (ok tt, l'))

  unfoldable pub usernames : Text → List Text
  usernames username =
      if is_empty (trim_space username) || text_eq (trim_space username) (bytes "admin")
      then bytes "admin" ∷ [] ∷ []
      else bytes "admin" ∷ trim_space username ∷ [] ∷ []

  abbrev pub all_attempts : Option (Text × Text) → List Text → List (Eff Line (Unit {0}))
  all_attempts keys [] = []
  all_attempts keys (name ∷ names) = attempts_for keys name ++ all_attempts keys names

  -- The keys of the password, if the router gives two.
  abbrev pub password_keys : List Text → Option (Text × Text)
  password_keys (n ∷ e ∷ rest) = some (n, e)
  password_keys _ = none

  unfoldable pub try_sg : Option (Text × Text) → Eff Line (Unit {0})
  try_sg keys = do s ← get_session; try_each (all_attempts keys (usernames s.username)) []

  unfoldable pub login_sg : Eff Line (Unit {0})
  login_sg = do
    detect_certification
    λ l.
        handle (post_form_plain lib keys_path (bytes "operation=read") [] l) (λ e. try_sg none)
          (λ pwd. try_sg (password_keys (find_string_list pwd (bytes "password"))))
