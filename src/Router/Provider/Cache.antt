-- ===== src/Router/Provider/Cache.antt =====
-- The cache is empty or points to a session with a token.
use homelink_monitor.Base.{
  ℕ, zero, suc, ◌<◌, ◌≡◌, refl, ap, ◌∙◌, true, false, Option, none, some, List, [], ◌∷◌, ◌++◌, Text,
  is_empty, is_some, Result, ok, err, handle, length, Bool-cases, if-either, inl, inr, arith,
  length-append,
}
use homelink_monitor.Domain.{Time}
use homelink_monitor.Router.Library.{Library}
use homelink_monitor.Router.Clients.{EndpointResponse}
use homelink_monitor.Router.Session.{Session, Line}
use homelink_monitor.Router.Login.Token.{IsGranted, login-IsGranted}
use homelink_monitor.Router.Requests.{collect_endpoint_responses, probe_endpoints}
use homelink_monitor.Router.Provider.{
  RouterSettings, Hub, Readings, session_at, put_session, line_at, points_to, invalidate_session,
  session_key, is_cached, cached_or_zero, after_login, session, collect_at, retry_once,
}
use homelink_monitor.Router.Provider.Tokens.{collect_from-stok}

-- A place that holds a session with a token.
abbrev pub IsSession : ℕ → List Session → Type 0
IsSession n sessions = (n < length sessions) × (is_empty (session_at n sessions).stok ≡ false)

abbrev pub IsCached? : Option ℕ → List Session → Type 0
IsCached? none sessions = Unit
IsCached? (some n) sessions = IsSession n sessions

-- The cache is empty or points to a session with a token.
abbrev pub IsValid : Hub → Type 0
IsValid h = IsCached? h.provider.cached_session h.provider.sessions

session_at-append :
    (sessions more : List Session) (n : ℕ)
    → n < length sessions
    → session_at n (sessions ++ more) ≡ session_at n sessions
unfolding session_at
session_at-append [] more n h = absurd (omega arith)
session_at-append (s ∷ sessions) more zero h = refl
session_at-append (s ∷ sessions) more (suc n) h = session_at-append sessions more n (omega arith)

session_at-last :
    (sessions : List Session) (s : Session) → session_at (length sessions) (sessions ++ s ∷ []) ≡ s
unfolding session_at
session_at-last [] s = refl
session_at-last (t ∷ sessions) s = session_at-last sessions s

put_session-IsSession :
    (n m : ℕ) (t : Session) (sessions : List Session)
    → t.stok ≡ (session_at n sessions).stok
    → IsSession m sessions
    → IsSession m (put_session n t sessions)
unfolding put_session session_at
put_session-IsSession n m t [] e h = h
put_session-IsSession zero zero t (s ∷ sessions) e (lt, h) = (lt, ap is_empty e ∙ h)
put_session-IsSession zero (suc m) t (s ∷ sessions) e h = h
put_session-IsSession (suc n) zero t (s ∷ sessions) e (lt, h) = (omega arith, h)
put_session-IsSession (suc n) (suc m) t (s ∷ sessions) e (lt, h) =
    let (lt', h') = put_session-IsSession n m t sessions e (omega arith, h) in (omega arith, h')

IsCached?-put :
    (c : Option ℕ) (n : ℕ) (t : Session) (sessions : List Session)
    → t.stok ≡ (session_at n sessions).stok
    → IsCached? c sessions
    → IsCached? c (put_session n t sessions)
IsCached?-put none n t sessions e h = h
IsCached?-put (some m) n t sessions e h = put_session-IsSession n m t sessions e h

-- What a call of `session` leaves: the cache is valid, and a pointer it yields is to a session with
-- a token.
abbrev pub IsOpened : Result ℕ × Hub → Type 0
IsOpened (ok n, h) = IsSession n h.provider.sessions × IsValid h
IsOpened (err e, h) = IsValid h

last-IsSession :
    (sessions : List Session) (s : Session)
    → is_empty s.stok ≡ false
    → IsSession (length sessions) (sessions ++ s ∷ [])
last-IsSession sessions s e = rw (length-append, session_at-last) (omega arith, e)

cached-IsSession :
    (c : Option ℕ) (sessions : List Session)
    → is_some c ≡ true
    → IsCached? c sessions
    → IsSession (cached_or_zero c) sessions
cached-IsSession none sessions some? h = ground arith
cached-IsSession (some n) sessions some? h = h

pub handle-IsValid :
    {B : Type 0} (r : Result ℕ × Hub) (g : Text → Hub → B × Hub) (f : ℕ → Hub → B × Hub)
    → IsOpened r
    → ((e : Text) (h : Hub) → IsValid h → IsValid (g e h).1)
    → ((n : ℕ) (h : Hub) → IsValid h → IsValid (f n h).1)
    → IsValid (handle r g f).1
handle-IsValid (ok n, h) g f opened bad good = good n h opened.1
handle-IsValid (err e, h) g f opened bad good = bad e h opened

invalidate_session-IsValid : (n : ℕ) (h : Hub) → IsValid h → IsValid (invalidate_session n h)
unfolding invalidate_session
invalidate_session-IsValid n h valid =
    if-either IsValid (points_to h.provider.cached_session n) _ _ tt valid

module _ {F : Type 0} (lib : Library F) where
  after_login-IsOpened :
      (key : Text) (now : Time) (h : Hub) (r : Result (Unit {0}) × Line)
      → IsGranted r
      → IsValid h
      → IsOpened (after_login lib key now h r)
  after_login-IsOpened key now h (ok _, l) granted valid =
      let opened = last-IsSession h.provider.sessions l.session granted in (opened, opened)
  after_login-IsOpened key now h (err e, l) granted valid = valid

  pub session-IsOpened :
      (settings : RouterSettings) (base_url : Text) (now : Time) (h : Hub)
      → IsValid h
      → IsOpened (session lib settings base_url now h)
  unfolding session
  session-IsOpened settings base_url now h valid =
      elim (Bool-cases (is_cached h.provider (session_key lib settings base_url) now)) [
        | inl cached ↦ rw cached (
          cached-IsSession h.provider.cached_session h.provider.sessions (ground arith) valid,
          valid,
        )
        | inr new ↦ rw new (after_login-IsOpened _ now h _ (login-IsGranted lib _) valid)
      ]

  pub collect_at-IsValid : (n : ℕ) (h : Hub) → IsValid h → IsValid (collect_at lib n h).1
  unfolding collect_at collect_endpoint_responses
  collect_at-IsValid n h valid =
      IsCached?-put h.provider.cached_session n _ h.provider.sessions
        (collect_from-stok lib probe_endpoints (line_at n h)) valid

  -- With a valid cache, a session and the answers of its requests leave a valid cache.
  pub retry_once-IsValid :
      (settings : RouterSettings) (base_url : Text) (times : Readings) (n : ℕ)
      (r : List (EndpointResponse F) × Hub)
      → IsValid r.1
      → IsValid (retry_once lib settings base_url times n r).1
  unfolding retry_once
  retry_once-IsValid settings base_url times n (a ∷ responses, h) valid = valid
  retry_once-IsValid settings base_url times n ([], h) valid =
      handle-IsValid (session lib settings base_url times.again (invalidate_session n h)) _ _
        (session-IsOpened settings base_url times.again (invalidate_session n h)
          (invalidate_session-IsValid n h valid))
        (λ e h' v. v) (λ m h' v. collect_at-IsValid m h' v)
