-- ===== src/Base/Space.antt =====
-- `strings.TrimSpace` on the bytes of a string: Unicode white space is taken off both ends.
use Prim.Native.Nat.{ℕ, zero, suc, ◌≤◌}
use mathlib.Core.Path.{◌≡◌, refl, sym, ap, ◌∙◌, subst}
use mathlib.Core.Logic.{inl, inr}
use mathlib.Core.Bool.{Bool, ◌&&◌, ◌||◌}
use mathlib.Core.List.{[], ◌∷◌, ◌++◌, reverse, append_assoc, reverse-append, reverse-reverse}
use native.Mathlib.Omega.{arith}
use homelink_monitor.Base.Tests.{leb, ◌==◌, if◌then◌else◌, ℕ-cases}
use homelink_monitor.Base.Lists.{
  length, take, drop, take-append-drop, length-drop, length-append, length-reverse,
}
use homelink_monitor.Base.Bytes.{Text}

-- The UTF-8 forms of `unicode.IsSpace`, by their length.
space1 : ℕ → Bool
space1 a = (leb 9 a && leb a 13) || a == 32

space2 : ℕ → ℕ → Bool
space2 a b = a == 0xc2 && (b == 0x85 || b == 0xa0)

space3 : ℕ → ℕ → ℕ → Bool
space3 a b c =
    (a == 0xe1 && b == 0x9a && c == 0x80)
    || (a == 0xe2
        && b == 0x80
        && ((leb 0x80 c && leb c 0x8a) || c == 0xa8 || c == 0xa9 || c == 0xaf))
    || (a == 0xe2 && b == 0x81 && c == 0x9f)
    || (a == 0xe3 && b == 0x80 && c == 0x80)

-- The bytes of the white space that a text begins with: 0 if its first rune is none.
unfoldable pub space_width : Text → ℕ
unfolding space1 space2 space3
space_width [] = 0
space_width (a ∷ []) = if space1 a then 1 else 0
space_width (a ∷ b ∷ []) = if space1 a then 1 else if space2 a b then 2 else 0
space_width (a ∷ b ∷ c ∷ s) =
    if space1 a then 1 else if space2 a b then 2 else if space3 a b c then 3 else 0

-- The same for a text that is read from its end.
unfoldable pub space_width_back : Text → ℕ
unfolding space1 space2 space3
space_width_back [] = 0
space_width_back (c ∷ []) = if space1 c then 1 else 0
space_width_back (c ∷ b ∷ []) = if space1 c then 1 else if space2 b c then 2 else 0
space_width_back (c ∷ b ∷ a ∷ s) =
    if space1 c then 1 else if space2 b c then 2 else if space3 a b c then 3 else 0

-- Takes white space off, as long as some is seen; the rounds are bounded by the text's length.
unfoldable pub strip : (Text → ℕ) → ℕ → Text → Text
strip width zero s = s
strip width (suc fuel) s = elim (width s) [ zero ↦ s | suc k ↦ strip width fuel (drop (suc k) s) ]

unfoldable pub trim_left : Text → Text
unfolding strip space_width
trim_left s = strip space_width (length s) s

unfoldable pub trim_right : Text → Text
unfolding strip space_width_back
trim_right s = reverse (strip space_width_back (length s) (reverse s))

unfoldable pub trim_space : Text → Text
trim_space s = trim_right (trim_left s)

-- No white space at either end.
abbrev pub IsTrimmed : Text → Type 0
IsTrimmed s = (space_width s ≡ 0) × (space_width_back (reverse s) ≡ 0)

strip-width :
    (width : Text → ℕ) (fuel : ℕ) (s : Text)
    → width [] ≡ 0
    → length s ≤ fuel
    → width (strip width fuel s) ≡ 0
unfolding strip
strip-width width zero [] e h = e
strip-width width zero (a ∷ s) e h = absurd (omega arith)
strip-width width (suc fuel) s e h = elim (ℕ-cases (width s)) [
  | inl p ↦ rw (p, strip) p
  | inr (k, p) ↦
      rw (p, strip)
        (strip-width width fuel (drop (suc k) s) e (omega (arith, length-drop (suc k) s)))
]

-- What is stripped is a first part of the text.
strip_suffix : (width : Text → ℕ) (fuel : ℕ) (s : Text) → (r : Text) × (r ++ strip width fuel s ≡ s)
unfolding strip
strip_suffix width zero s = ([], refl)
strip_suffix width (suc fuel) s = elim (ℕ-cases (width s)) [
  | inl p ↦ ([], rw (p, strip) refl)
  | inr (k, p) ↦
      let (r, e) = strip_suffix width fuel (drop (suc k) s) in
      (
        take (suc k) s ++ r,
        rw (p, strip)
            (append_assoc (take (suc k) s) r _
              ∙ ap (λ t. take (suc k) s ++ t) e
              ∙ take-append-drop (suc k) s),
      )
]

strip_of_zero : (width : Text → ℕ) (fuel : ℕ) (s : Text) → width s ≡ 0 → strip width fuel s ≡ s
unfolding strip
strip_of_zero width zero s h = refl
strip_of_zero width (suc fuel) s h = rw (h, strip) refl

-- A first part of a text that begins with no white space begins with none.
space_width-append : (p r : Text) → space_width (p ++ r) ≡ 0 → space_width p ≡ 0
unfolding space_width
space_width-append [] r h = refl
space_width-append (a ∷ []) [] h = h
space_width-append (a ∷ []) (b ∷ []) h = ground arith
space_width-append (a ∷ []) (b ∷ c ∷ r) h = ground arith
space_width-append (a ∷ b ∷ []) [] h = h
space_width-append (a ∷ b ∷ []) (c ∷ r) h = ground arith
space_width-append (a ∷ b ∷ c ∷ p) r h = h

trim_left-width : (s : Text) → space_width (trim_left s) ≡ 0
unfolding trim_left
trim_left-width s = strip-width space_width (length s) s refl (omega arith)

trim_right-width : (s : Text) → space_width_back (reverse (trim_right s)) ≡ 0
unfolding trim_right
trim_right-width s =
    subst (λ t. space_width_back t ≡ 0)
      (sym (reverse-reverse (strip space_width_back (length s) (reverse s))))
      (strip-width space_width_back (length s) (reverse s) refl (omega (arith, length-reverse s)))

trim_right_prefix : (s : Text) → (r : Text) × (trim_right s ++ r ≡ s)
unfolding trim_right
trim_right_prefix s =
    let (r, e) = strip_suffix space_width_back (length s) (reverse s) in
    (reverse r, sym (reverse-append r _) ∙ ap reverse e ∙ reverse-reverse s)

trim_left_suffix : (s : Text) → (r : Text) × (r ++ trim_left s ≡ s)
unfolding trim_left
trim_left_suffix s = strip_suffix space_width (length s) s

-- What is left has no white space at either end.
pub trim_space-IsTrimmed : (s : Text) → IsTrimmed (trim_space s)
unfolding trim_space
trim_space-IsTrimmed s =
    let (r, e) = trim_right_prefix (trim_left s) in
    (
      space_width-append (trim_right (trim_left s)) r
          (subst (λ t. space_width t ≡ 0) (sym e) (trim_left-width s)),
      trim_right-width (trim_left s),
    )

-- Trimming what has no white space at the ends changes nothing.
pub trim_space_of_IsTrimmed : (s : Text) → IsTrimmed s → trim_space s ≡ s
unfolding trim_space trim_left trim_right
trim_space_of_IsTrimmed s (front, back) =
    rw (strip_of_zero space_width (length s) s front)
      (rw (strip_of_zero space_width_back (length s) (reverse s) back) (reverse-reverse s))

pub length-trim_space : (s : Text) → length (trim_space s) ≤ length s
unfolding trim_space
length-trim_space s =
    let (r, e) = trim_right_prefix (trim_left s) in
    let (q, d) = trim_left_suffix s in
    omega (
      arith,
      ap length e,
      ap length d,
      length-append (trim_right (trim_left s)) r,
      length-append q (trim_left s),
    )
