-- ===== src/Router/Provider/Reused.antt =====
-- The cached session is used again until it expires.
use homelink_monitor.Base.{
  ℕ, ◌<◌, ◌≡◌, refl, sym, true, Option, none, some, Text, text_eq, text_eq_refl, is_some, Result,
  ok, err, lt→ltb, Bool-cases, inl, inr, arith,
}
use homelink_monitor.Domain.{Time}
use homelink_monitor.Router.Library.{Library}
use homelink_monitor.Router.Session.{Line}
use homelink_monitor.Router.Provider.{
  RouterSettings, Hub, session_key, is_cached, cached_or_zero, after_login, session,
}

-- What a session that is handed out leaves in the cache.
unfoldable IsKept : Text → Result ℕ × Hub → Type 0
IsKept key (ok n, h) =
    (h.provider.cached_session ≡ some n) × (text_eq h.provider.cached_key key ≡ true)
IsKept key (err e, h) = Unit

cached_some : (c : Option ℕ) → is_some c ≡ true → c ≡ some (cached_or_zero c)
cached_some none h = ground arith
cached_some (some n) h = refl

module _ {F : Type 0} (lib : Library F) where
  after_login-IsKept :
      (key : Text) (now : Time) (h : Hub) (r : Result (Unit {0}) × Line)
      → IsKept key (after_login lib key now h r)
  unfolding IsKept
  after_login-IsKept key now h (ok _, l) = (refl, text_eq_refl key)
  after_login-IsKept key now h (err e, l) = tt

  session-IsKept :
      (settings : RouterSettings) (base_url : Text) (now : Time) (h : Hub)
      → IsKept (session_key lib settings base_url) (session lib settings base_url now h)
  unfolding session IsKept
  session-IsKept settings base_url now h =
      elim (Bool-cases (is_cached h.provider (session_key lib settings base_url) now)) [
        | inl cached ↦
            rw cached (cached_some h.provider.cached_session (ground arith), ground arith)
        | inr new ↦ rw new (after_login-IsKept _ now h _)
      ]

  kept-reused :
      (settings : RouterSettings) (base_url : Text) (later : Time) (n : ℕ) (h : Hub)
      → IsKept (session_key lib settings base_url) (ok n, h)
      → later < h.provider.session_expires
      → session lib settings base_url later h ≡ (ok n, h)
  unfolding session IsKept
  kept-reused settings base_url later n h (e, k) lt =
      rw (e, k, lt→ltb later h.provider.session_expires lt) refl

  -- The session that `session` returned is returned again, by the same pointer and with no request
  -- and no change, to each call for the same settings and URL before it expires.
  pub session-reused :
      (settings : RouterSettings) (base_url : Text) (now later : Time) (n : ℕ) (h h' : Hub)
      → session lib settings base_url now h ≡ (ok n, h')
      → later < h'.provider.session_expires
      → session lib settings base_url later h' ≡ (ok n, h')
  session-reused settings base_url now later n h h' e lt =
      kept-reused settings base_url later n h' (rw (sym e) (session-IsKept settings base_url now h))
        lt
