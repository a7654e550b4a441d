-- ===== src/Events/Disk.antt =====
-- The outbox directory as the calls of `os` see it: its files by name, and what the next calls do.
-- A failing write may leave the first bytes of the content behind.
use homelink_monitor.Base.{
  ℕ, Option, none, some, List, [], ◌∷◌, Text, text_eq, Result, ok, err, Eff, if◌then◌else◌, take,
  bytes, ◌≡◌, refl, arith, text_eq_iff,
}

pub record Disk : Type 0 where
  pub files : List (Text × Text)
  pub faults : List (Option (Text × ℕ))

unfoldable pub read_file : Text → List (Text × Text) → Option Text
read_file name [] = none
read_file name ((n, c) ∷ files) = if text_eq n name then some c else read_file name files

unfoldable pub put_file : Text → Text → List (Text × Text) → List (Text × Text)
put_file name content [] = (name, content) ∷ []
put_file name content ((n, c) ∷ files) =
    if text_eq n name then (name, content) ∷ files else (n, c) ∷ put_file name content files

-- Every entry of that name is taken off.
unfoldable pub remove_file : Text → List (Text × Text) → List (Text × Text)
remove_file name [] = []
remove_file name ((n, c) ∷ files) =
    let rest = remove_file name files in if text_eq n name then rest else (n, c) ∷ rest

abbrev run_call :
    List (Option (Text × ℕ))
    → (Disk → Result (Unit {0}) × Disk)
    → (ℕ → Disk → Disk)
    → Disk
    → Result (Unit {0}) × Disk
run_call [] run broken d = run d
run_call (none ∷ faults) run broken d = run (record d { faults = faults })
run_call (some (e, n) ∷ faults) run broken d = (err e, broken n (record d { faults = faults }))

-- `os.MkdirAll` of the directory.
unfoldable pub mkdir_all : Eff Disk (Unit {0})
mkdir_all d = run_call d.faults (λ d'. (ok tt, d')) (λ n d'. d') d

abbrev pub put : Text → Text → Disk → Disk
put name content d = record d { files = put_file name content d.files }

unfoldable pub write_file : Text → Text → Eff Disk (Unit {0})
write_file name content d =
    run_call d.faults (λ d'. (ok tt, put name content d')) (λ n d'. put name (take n content) d') d

abbrev move : Option Text → Text → Text → Disk → Result (Unit {0}) × Disk
move none old new d = (err (bytes "no such file"), d)
move (some content) old new d =
    (ok tt, record d { files = put_file new content (remove_file old d.files) })

unfoldable pub rename : Text → Text → Eff Disk (Unit {0})
rename old new d = run_call d.faults (λ d'. move (read_file old d'.files) old new d') (λ n d'. d') d

pub read_file-put_file :
    (k j c : Text) (files : List (Text × Text))
    → read_file j (put_file k c files) ≡ (if text_eq k j then some c else read_file j files)
unfolding read_file put_file
read_file-put_file k j c [] = refl
read_file-put_file k j c ((n, d) ∷ files) =
    ground
      (arith, text_eq_iff k j, text_eq_iff n k, text_eq_iff n j, read_file-put_file k j c files)

pub read_file-remove_file :
    (k j : Text) (files : List (Text × Text))
    → read_file j (remove_file k files) ≡ (if text_eq k j then none else read_file j files)
unfolding read_file remove_file
read_file-remove_file k j [] = ground arith
read_file-remove_file k j ((n, d) ∷ files) =
    ground
      (arith, text_eq_iff k j, text_eq_iff n k, text_eq_iff n j, read_file-remove_file k j files)
