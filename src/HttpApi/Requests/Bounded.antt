-- ===== src/HttpApi/Requests/Bounded.antt =====
-- Limits are bounded, and no path outside the static directory is served.
use homelink_monitor.Base.{
  ℕ, ◌≤◌, ◌≡◌, ◌⊎◌, ◌++◌, Bool, true, false, not, ◌&&◌, ◌||◌, text_eq, Text, is_empty, Option, none,
  some, ℤ, pos, negsuc, if-either, has_prefix, bytes, arith,
}
use homelink_monitor.HttpApi.Requests.{Request, Parsers, capped, int_param, Served, refused, file}

module _ (parsers : Parsers) where
  capped_bound :
      (fallback max : ℕ) (parsed : Option ℤ)
      → fallback ≤ max
      → capped parsers fallback max parsed ≤ max
  capped_bound fallback max none h = h
  capped_bound fallback max (some (negsuc n)) h = h
  capped_bound fallback max (some (pos n)) h = ground arith

  pub int_param_bound :
      (r : Request) (key : Text) (fallback max : ℕ)
      → fallback ≤ max
      → int_param parsers r key fallback max ≤ max
  unfolding int_param
  int_param_bound r key fallback max h =
      if-either (λ n. n ≤ max) (is_empty (r.query key)) _ _ h
        (capped_bound fallback max (parsers.atoi (r.query key)) h)

-- The path of the root, or one below it that does not climb out.
abbrev pub IsBelow : Text → Text → Type 0
IsBelow root path =
    (path ≡ root)
    ⊎ ((r : Text) × (path ≡ root ++ bytes "/" ++ r)
        × (text_eq r (bytes "..") ≡ false)
        × (has_prefix r (bytes "../") ≡ false))

-- What filepath.Rel may say of a path: it is the root, or lies below it, or is reached by climbing.
abbrev pub IsRelative : Text → Text → Text → Type 0
IsRelative root path r =
    (path ≡ root)
    ⊎ (path ≡ root ++ bytes "/" ++ r)
    ⊎ (r ≡ bytes "..")
    ⊎ (has_prefix r (bytes "../") ≡ true)

-- An answer that is an error, or a file in the root.
abbrev pub IsInside : Text → Served → Type 0
IsInside root (refused code e) = Unit
IsInside root (file path) = IsBelow root path

-- The test of `pathInside` on a relative path.
stays : Text → Bool
stays r =
    text_eq r (bytes ".") || (not (text_eq r (bytes "..")) && not (has_prefix r (bytes "../")))
