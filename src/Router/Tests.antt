-- ===== src/Router/Tests.antt =====
-- A provider that logs in to a router.
use homelink_monitor.Base.{
  ◌≡◌, ◌+◌, ◌*◌, refl, [], bytes, text_eq, trim_space, trim_left, trim_right, trim_left_byte,
  trim_right_byte, has_prefix, trim_prefix, contains, split, join, remove_byte, ok, arith,
}
use homelink_monitor.Domain.{second}
use homelink_monitor.Router.Json.{
  first_string, find_string, find_string_list, find_in_objects, list_in_objects, texts_of,
  find_bool, flag_in_objects, find_path, collect_objects, get,
}
use homelink_monitor.Router.Examples.{plain_library, whole, settings, hub, times}
use homelink_monitor.Router.Session.{
  new_session, Line, post_form_plain, join_url, set_header, set_headers, header_of, last_sysauth,
}
use homelink_monitor.Router.Crypto.{
  ◌>>=◌, left_pad_hex, rsa_public_key, rsa_encrypt_pkcs1v15, aes_cbc_encrypt_base64,
  aes_cbc_decrypt_base64,
}
use homelink_monitor.Router.Crypto.Rounds.{aes_cbc_decrypt_base64-encrypt}
use homelink_monitor.Router.Login.{login, login_be550}
use homelink_monitor.Router.Login.Token.{IsGranted, login-IsGranted}
use homelink_monitor.Router.Provider.{Hub, session, session_key}
use homelink_monitor.Router.Provider.Cache.{IsValid}
use homelink_monitor.Router.Provider.Reused.{session-reused}
use homelink_monitor.Router.Probe.{probe_and_collect}
use homelink_monitor.Router.Probe.Coherent.{IsCoherent, probe_and_collect-IsCoherent}
use homelink_monitor.Router.Probe.Valid.{probe_and_collect-IsValid}

abbrev line : Line
line = record {
  session = new_session (bytes "h") [] (bytes "p");
  wire = record { sent = []; draws = 0 };
}

login-IsGranted_example : IsGranted (login plain_library line)
login-IsGranted_example = login-IsGranted plain_library line

aes_cbc_decrypt_base64-encrypt_example :
    (aes_cbc_encrypt_base64 plain_library [] [] (bytes "abc") >>= λ encrypted.
    aes_cbc_decrypt_base64 plain_library [] [] encrypted)
    ≡ ok (bytes "abc")
aes_cbc_decrypt_base64-encrypt_example =
    aes_cbc_decrypt_base64-encrypt plain_library [] [] (bytes "abc") (λ s. refl) refl (λ s h. refl)
      (λ s h. refl)

probe_and_collect-IsCoherent_example :
    IsCoherent (probe_and_collect whole plain_library settings times times hub).0
probe_and_collect-IsCoherent_example =
    probe_and_collect-IsCoherent whole plain_library settings times times hub

probe_and_collect-IsValid_example :
    IsValid (probe_and_collect whole plain_library settings times times hub).1
probe_and_collect-IsValid_example =
    probe_and_collect-IsValid whole plain_library settings times times hub tt

abbrev opened : Hub
opened = (session plain_library settings (bytes "http://h") 10 hub).1

opens :
    (session plain_library settings (bytes "http://h") 10 hub ≡ (ok 0, opened))
    × (opened.provider.session_expires ≡ 10 + 2 * 60 * second)
unfolding session session_key login login_be550 post_form_plain find_string_list list_in_objects
    texts_of find_path find_bool flag_in_objects find_string find_in_objects first_string get
    collect_objects rsa_encrypt_pkcs1v15 rsa_public_key left_pad_hex last_sysauth set_headers
    set_header header_of join_url split join contains has_prefix trim_prefix trim_left_byte
    trim_right_byte trim_space trim_left trim_right remove_byte text_eq bytes
opens = (refl, refl)

session-reused_example :
    session plain_library settings (bytes "http://h") 11 opened ≡ (ok 0, opened)
session-reused_example =
    session-reused plain_library settings (bytes "http://h") 10 11 0 hub opened opens.0
      (omega (arith, opens.1))
