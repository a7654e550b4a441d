-- ===== src/Router/Requests.antt =====
-- What a session asks the router for once it is logged in (services/api/internal/router/tplink.go).
use homelink_monitor.Base.{
  ℕ, not, ◌&&◌, List, [], ◌∷◌, ◌++◌, Text, bytes, is_empty, Result, ok, err, Eff, handle, ◌>>=◌,
  ◌>>◌, pure, fail, if◌then◌else◌, length, contains,
}
use homelink_monitor.Router.Json.{Json, null, find_string, find_bool, find_path}
use homelink_monitor.Router.Library.{Library}
use homelink_monitor.Router.Crypto.{
  chunks, aes_cbc_encrypt_base64, aes_cbc_decrypt_base64, mac_chunks,
}
use homelink_monitor.Router.Session.{
  Session, AuthMode, legacy, sg, be550, Line, change, lift, get_session, post_form_plain, post,
  join_url,
}
use homelink_monitor.Router.Grant.{refusal, signed_form, add_length}
use homelink_monitor.Router.Clients.{EndpointResponse}

pub record Endpoint : Type 0 where
  pub name : Text
  pub path : Text
  pub operation : Text

abbrev pub probe_endpoints : List Endpoint
probe_endpoints =
    record {
      name = bytes "qos/game_accelerator_speeds";
      path = bytes "admin/smart_network?form=game_accelerator";
      operation = bytes "loadSpeed";
    }
    ∷ []

module _ {F : Type 0} (lib : Library F) where
  -- `findPath(v, "data")`, else the value.
  abbrev pub data_of : Json F → Json F → Json F
  data_of null v = v
  data_of x v = x

  abbrev pub unwrapped : Json F → Json F
  unwrapped v = data_of (find_path v (bytes "data" ∷ [])) v

  -- Only an error code makes an unsuccessful reply an error.
  unfoldable pub request_plain_form : Text → Text → Eff Line (Json F)
  request_plain_form path operation = do
    s ← get_session
    reply ←
        post_form_plain lib (join_url lib.path_escape [] path s.stok)
          (bytes "operation=" ++ lib.query_escape operation) ((bytes "Origin", s.base_url) ∷ [])
    if not (find_bool reply (bytes "success"))
          && not (is_empty (find_string reply (bytes "errorcode" ∷ bytes "error_code" ∷ [])))
        then fail (refusal reply (bytes "router returned error code ") [])
        else pure (unwrapped reply)

  unfoldable pub sg_request_signature : Session → ℕ → Text
  sg_request_signature s n =
      mac_chunks lib (bytes "k=" ++ s.aes_key ++ bytes "&i=" ++ s.aes_iv)
        (chunks (bytes "h=" ++ s.hash ++ bytes "&s=" ++ lib.format_int (add_length s.seq n)))

  abbrev pub rehash : Text → Session → Session
  rehash payload s = if s.replace_hash then record s { hash = lib.hex (lib.sha256 payload) } else s

  abbrev pub check_success : Json F → Result (Json F)
  check_success reply =
      if find_bool reply (bytes "success")
      then ok (unwrapped reply)
      else err (bytes "router returned unsuccessful response")

  unfoldable pub decrypt_reply : Session → Text → Result (Json F)
  decrypt_reply s encrypted = elim (aes_cbc_decrypt_base64 lib s.aes_key s.aes_iv encrypted) [
    | err e ↦ err e
    | ok decrypted ↦ elim (lib.unmarshal decrypted) [
      | err e ↦ err e
      | ok reply ↦ check_success reply
    ]
  ]

  unfoldable pub request_sg : Text → Text → Eff Line (Json F)
  request_sg path operation = do
    old ← get_session
    payload ← lift (
        aes_cbc_encrypt_base64 lib old.aes_key old.aes_iv
          (bytes "operation=" ++ lib.query_escape operation))
    change (rehash payload)
    s ← get_session
    reply ←
        post_form_plain lib (join_url lib.path_escape [] path s.stok)
          (signed_form lib (sg_request_signature s (length payload)) payload)
          ((bytes "Content-Type", bytes "application/x-www-form-urlencoded")
            ∷ (bytes "Origin", s.base_url)
            ∷ [])
    if is_empty (find_string reply (bytes "data" ∷ []))
        then pure reply
        else lift (decrypt_reply s (find_string reply (bytes "data" ∷ [])))

  abbrev pub operation_path : Text → Text → Text
  operation_path path operation =
      if is_empty operation
      then path
      else path
        ++ (if contains path (b'?' ∷ []) then b'&' ∷ [] else b'?' ∷ [])
        ++ bytes "operation="
        ++ lib.query_escape operation

  abbrev pub request_as : AuthMode → Text → Text → Eff Line (Json F)
  request_as sg path operation = request_sg path operation
  request_as be550 path operation = request_plain_form path operation
  request_as legacy path operation =
      post lib (operation_path path operation) ((bytes "operation", operation) ∷ [])

  unfoldable pub request : Text → Text → Eff Line (Json F)
  request path operation l = request_as l.session.auth_mode path operation l

  -- The answer is dropped.
  unfoldable pub logout : Line → Line
  logout l = (request (bytes "admin/system?form=logout") (bytes "write") l).1

  abbrev pub response_of : Endpoint → Json F → EndpointResponse F
  response_of endpoint v = record { source = endpoint.name; payload = v }

  -- An endpoint that fails is left out.
  unfoldable pub collect_from : List Endpoint → Line → List (EndpointResponse F) × Line
  collect_from [] l = ([], l)
  collect_from (endpoint ∷ endpoints) l =
      handle (request endpoint.path endpoint.operation l) (λ e. collect_from endpoints)
        (λ v l'.
          let (responses, done) = collect_from endpoints l' in
          (response_of endpoint v ∷ responses, done))

  unfoldable pub collect_endpoint_responses : Line → List (EndpointResponse F) × Line
  collect_endpoint_responses = collect_from probe_endpoints
