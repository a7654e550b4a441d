-- ===== src/Router/Provider/Tokens.antt =====
-- A request on a session keeps its token.
use homelink_monitor.Base.{◌≡◌, refl, ◌∙◌, List, [], ◌∷◌, Text, Result, ok, err, handle, arith}
use homelink_monitor.Router.Json.{Json}
use homelink_monitor.Router.Library.{Library}
use homelink_monitor.Router.Session.{AuthMode, legacy, sg, be550, Line, post_form_plain, post}
use homelink_monitor.Router.Requests.{
  request, request_as, request_sg, request_plain_form, operation_path, collect_from, Endpoint,
  response_of,
}

module _ {F : Type 0} (lib : Library F) where
  -- A call keeps the token.
  post_form_plain-stok :
      (path body : Text) (headers : List (Text × Text)) (l : Line)
      → (post_form_plain lib path body headers l).1.session.stok ≡ l.session.stok
  unfolding post_form_plain
  post_form_plain-stok path body headers l = ground arith

  post-stok :
      (path : Text) (payload : List (Text × Text)) (l : Line)
      → (post lib path payload l).1.session.stok ≡ l.session.stok
  unfolding post
  post-stok path payload l = ground arith

  request_plain_form-stok :
      (path operation : Text) (l : Line)
      → (request_plain_form lib path operation l).1.session.stok ≡ l.session.stok
  unfolding request_plain_form
  request_plain_form-stok path operation l = grind (arith, post_form_plain-stok)

  request_sg-stok :
      (path operation : Text) (l : Line)
      → (request_sg lib path operation l).1.session.stok ≡ l.session.stok
  unfolding request_sg
  request_sg-stok path operation l = grind (arith, post_form_plain-stok)

  request_as-stok :
      (mode : AuthMode) (path operation : Text) (l : Line)
      → (request_as lib mode path operation l).1.session.stok ≡ l.session.stok
  request_as-stok sg path operation l = request_sg-stok path operation l
  request_as-stok be550 path operation l = request_plain_form-stok path operation l
  request_as-stok legacy path operation l = post-stok (operation_path lib path operation) _ l

  request-stok :
      (path operation : Text) (l : Line)
      → (request lib path operation l).1.session.stok ≡ l.session.stok
  unfolding request
  request-stok path operation l = request_as-stok l.session.auth_mode path operation l

  collected-stok :
      (r : Result (Json F) × Line) (stok : Text) (endpoint : Endpoint) (endpoints : List Endpoint)
      → r.1.session.stok ≡ stok
      → ((l : Line) → (collect_from lib endpoints l).1.session.stok ≡ l.session.stok)
      → (handle r
          (λ e. collect_from lib endpoints)
          (λ v l'.
            let (responses, done) = collect_from lib endpoints l' in
            (response_of lib endpoint v ∷ responses, done))).1.session.stok
        ≡ stok
  collected-stok (ok v, l) stok endpoint endpoints e rest = rest l ∙ e
  collected-stok (err m, l) stok endpoint endpoints e rest = rest l ∙ e

  pub collect_from-stok :
      (endpoints : List Endpoint) (l : Line)
      → (collect_from lib endpoints l).1.session.stok ≡ l.session.stok
  unfolding collect_from
  collect_from-stok [] l = refl
  collect_from-stok (endpoint ∷ endpoints) l =
      collected-stok (request lib endpoint.path endpoint.operation l) l.session.stok endpoint
        endpoints (request-stok endpoint.path endpoint.operation l) (collect_from-stok endpoints)
