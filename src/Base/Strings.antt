-- ===== src/Base/Strings.antt =====
-- The functions of Go's package strings that the program calls, on bytes.
use Prim.Native.Nat.{ℕ}
use mathlib.Core.Bool.{Bool, true, false, ◌&&◌, ◌||◌}
use mathlib.Core.List.{List, [], ◌∷◌, ◌++◌, reverse}
use homelink_monitor.Base.Tests.{◌==◌, if◌then◌else◌}
use homelink_monitor.Base.Lists.{length, drop}
use homelink_monitor.Base.Bytes.{Text}

-- `strings.HasPrefix`.
unfoldable pub has_prefix : Text → Text → Bool
has_prefix s [] = true
has_prefix [] (b ∷ prefix) = false
has_prefix (a ∷ s) (b ∷ prefix) = a == b && has_prefix s prefix

-- `strings.TrimPrefix`.
unfoldable pub trim_prefix : Text → Text → Text
trim_prefix s prefix = if has_prefix s prefix then drop (length prefix) s else s

-- `strings.Contains`.
unfoldable pub contains : Text → Text → Bool
unfolding has_prefix
contains [] part = has_prefix [] part
contains (a ∷ s) part = has_prefix (a ∷ s) part || contains s part

-- `strings.Split` by one byte: `piece` is what has been read since the last one.
unfoldable pub split_from : ℕ → Text → Text → List Text
split_from separator piece [] = piece ∷ []
split_from separator piece (a ∷ s) =
    let next = piece ∷ split_from separator [] s in
    let more = split_from separator (piece ++ a ∷ []) s in if a == separator then next else more

unfoldable pub split : ℕ → Text → List Text
unfolding split_from
split separator s = split_from separator [] s

-- `strings.Join`.
unfoldable pub join : Text → List Text → Text
join separator [] = []
join separator (s ∷ []) = s
join separator (s ∷ t ∷ texts) = s ++ separator ++ join separator (t ∷ texts)

-- `strings.TrimLeft` and `strings.TrimRight` by one byte.
unfoldable pub trim_left_byte : ℕ → Text → Text
trim_left_byte b [] = []
trim_left_byte b (a ∷ s) = let rest = trim_left_byte b s in if a == b then rest else a ∷ s

unfoldable pub trim_right_byte : ℕ → Text → Text
unfolding trim_left_byte
trim_right_byte b s = reverse (trim_left_byte b (reverse s))

-- `strings.ReplaceAll` of one byte by nothing.
unfoldable pub remove_byte : ℕ → Text → Text
remove_byte b [] = []
remove_byte b (a ∷ s) = let rest = remove_byte b s in if a == b then rest else a ∷ rest
