-- ===== src/Router/Login/Token.antt =====
-- A login that succeeds has a token.
use homelink_monitor.Base.{
  ◌≡◌, false, Option, none, some, List, [], ◌∷◌, ◌++◌, Text, bytes, is_empty, Result, ok, err, Eff,
  handle, proceed, All, All-append, arith,
}
use homelink_monitor.Router.Json.{find_string_list}
use homelink_monitor.Router.Library.{Library}
use homelink_monitor.Router.Session.{Line, post_form_plain}
use homelink_monitor.Router.Grant.{keys_path}
use homelink_monitor.Router.SgLogin.{
  prepare_sg_login, detect_certification, finish_sg_login, finished, prepared, attempt,
  attempt_encrypted, attempt_rsa, attempt_plain, attempts_for, try_each, usernames, all_attempts,
  try_sg, login_sg, password_keys,
}
use homelink_monitor.Router.Login.{login_be550, login_legacy, login}

-- If the call succeeds, the session has a token.
abbrev pub IsGranted : {A : Type 0} → Result A × Line → Type 0
IsGranted (ok a, l) = is_empty l.session.stok ≡ false
IsGranted (err e, l) = Unit

-- The first call decides if it succeeds, and else what is tried then.
or_else-IsGranted :
    (r : Result (Unit {0}) × Line) (g : Text → Eff Line (Unit {0}))
    → IsGranted r
    → ((e : Text) (l : Line) → IsGranted (g e l))
    → IsGranted (handle r g (λ _ l'. (ok tt, l')))
or_else-IsGranted (ok _, l) g h bad = h
or_else-IsGranted (err e, l) g h bad = bad e l

-- What follows decides, whether the call succeeds or fails.
handle-IsGranted :
    {A : Type 0} (r : Result A × Line) (g : Text → Eff Line (Unit {0}))
    (f : A → Eff Line (Unit {0}))
    → ((e : Text) (l : Line) → IsGranted (g e l))
    → ((a : A) (l : Line) → IsGranted (f a l))
    → IsGranted (handle r g f)
handle-IsGranted (ok a, l) g f bad good = good a l
handle-IsGranted (err e, l) g f bad good = bad e l

proceed-IsGranted :
    {A : Type 0} (r : Result A × Line) (f : A → Eff Line (Unit {0}))
    → ((a : A) (l : Line) → IsGranted (f a l))
    → IsGranted (proceed r f)
proceed-IsGranted (ok a, l) f rest = rest a l
proceed-IsGranted (err e, l) f rest = tt

-- An attempt that grants a token wherever it starts.
abbrev Grants : Eff Line (Unit {0}) → Type 0
Grants m = (l : Line) → IsGranted (m l)

module _ {F : Type 0} (lib : Library F) where
  login_be550-IsGranted : (l : Line) → IsGranted (login_be550 lib l)
  unfolding login_be550
  login_be550-IsGranted l = ground arith

  finish_sg_login-IsGranted :
      (password : Text) (l : Line) → IsGranted (finish_sg_login lib password l)
  unfolding finish_sg_login
  finish_sg_login-IsGranted password l = ground arith

  finished-IsGranted :
      (kind : Text) (r : Result (Unit {0}) × Line) → IsGranted r → IsGranted (finished lib kind r)
  finished-IsGranted kind (ok _, l) h = h
  finished-IsGranted kind (err e, l) h = tt

  prepared-IsGranted :
      (kind password : Text) (r : Result (Unit {0}) × Line)
      → IsGranted (prepared lib kind password r)
  prepared-IsGranted kind password (ok _, l) =
      finished-IsGranted kind (finish_sg_login lib password l)
        (finish_sg_login-IsGranted password l)
  prepared-IsGranted kind password (err e, l) = tt

  attempt-IsGranted : (kind username password : Text) → Grants (attempt lib kind username password)
  unfolding attempt
  attempt-IsGranted kind username password l =
      prepared-IsGranted kind password (prepare_sg_login lib username l)

  attempt_encrypted-IsGranted :
      (username : Text) (r : Result Text) → Grants (attempt_encrypted lib username r)
  attempt_encrypted-IsGranted username (ok encrypted) l =
      attempt-IsGranted (bytes "RSA password") username encrypted l
  attempt_encrypted-IsGranted username (err e) l = tt

  attempt_rsa-IsGranted :
      (username : Text) (keys : Text × Text) → Grants (attempt_rsa lib username keys)
  unfolding attempt_rsa
  attempt_rsa-IsGranted username keys l = attempt_encrypted-IsGranted username _ _

  attempt_plain-IsGranted : (username : Text) → Grants (attempt_plain lib username)
  unfolding attempt_plain
  attempt_plain-IsGranted username l =
      attempt-IsGranted (bytes "plain password") username l.session.password l

  attempts_for-Grants :
      (keys : Option (Text × Text)) (username : Text) → All Grants (attempts_for lib keys username)
  attempts_for-Grants none username = (attempt_plain-IsGranted username, tt)
  attempts_for-Grants (some keys) username =
      (attempt_rsa-IsGranted username keys, (attempt_plain-IsGranted username, tt))

  all_attempts-Grants :
      (keys : Option (Text × Text)) (names : List Text) → All Grants (all_attempts lib keys names)
  all_attempts-Grants keys [] = tt
  all_attempts-Grants keys (name ∷ names) =
      All-append Grants (attempts_for lib keys name) (all_attempts lib keys names)
        (attempts_for-Grants keys name) (all_attempts-Grants keys names)

  try_each-IsGranted :
      (attempts : List (Eff Line (Unit {0}))) (failures : List Text)
      → All Grants attempts
      → Grants (try_each lib attempts failures)
  unfolding try_each
  try_each-IsGranted [] failures h l = tt
  try_each-IsGranted (next ∷ attempts) failures h l =
      or_else-IsGranted (next l) _ (h.0 l)
        (λ e l'. try_each-IsGranted attempts (failures ++ e ∷ []) h.1 l')

  try_sg-IsGranted : (keys : Option (Text × Text)) → Grants (try_sg lib keys)
  unfolding try_sg
  try_sg-IsGranted keys l =
      try_each-IsGranted (all_attempts lib keys (usernames lib l.session.username)) []
        (all_attempts-Grants keys (usernames lib l.session.username)) l

  login_sg-IsGranted : Grants (login_sg lib)
  unfolding login_sg
  login_sg-IsGranted l = proceed-IsGranted (detect_certification lib l) _ (λ _ l'.
      handle-IsGranted (post_form_plain lib keys_path (bytes "operation=read") [] l') _ _
        (λ e. try_sg-IsGranted none)
        (λ pwd. try_sg-IsGranted (password_keys lib (find_string_list pwd (bytes "password")))))

  login_legacy-IsGranted : (failures : List Text) → Grants (login_legacy lib failures)
  unfolding login_legacy
  login_legacy-IsGranted failures l = ground arith

  -- Whatever the router answers, a login that succeeds leaves a token that is not empty.
  pub login-IsGranted : (l : Line) → IsGranted (login lib l)
  unfolding login
  login-IsGranted l = or_else-IsGranted (login_be550 lib l) _ (login_be550-IsGranted l) (λ e l'.
      or_else-IsGranted (login_sg lib l') _ (login_sg-IsGranted l')
        (λ e'. login_legacy-IsGranted _))
