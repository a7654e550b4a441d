-- ===== src/HttpApi/Settings/Lists.antt =====
-- What `normalizeStringList` returns, whatever the list.
use mathlib.Core.List.{append_assoc, append-nil}
use homelink_monitor.Base.{
  ℕ, zero, suc, ◌-◌, ◌≤◌, ◌<◌, ◌≡◌, refl, ap, ◌∙◌, sym, false, List, [], ◌∷◌, ◌++◌, Text, text_eq,
  text_eq_refl, text_eq_sound, is_empty, arith, if◌then◌else◌, ltb, leb, length, take, All,
  All-append, length-append, length-take, Bool-cases, inl, inr, trim_space,
}
use homelink_monitor.HttpApi.Settings.{cut, is_seen, collect, normalize_string_list}

-- No entry stands twice.
abbrev pub IsDistinct : List Text → Type 0
IsDistinct [] = Unit
IsDistinct (x ∷ xs) = (is_seen x xs ≡ false) × IsDistinct xs

length-cut : (n : ℕ) (s : Text) → length (cut n s) ≤ n
length-cut n s = ground (arith, length-take n s)

-- A text that is not empty stays so, if the limit is positive.
cut-nonempty : (n : ℕ) (s : Text) → 0 < n → is_empty s ≡ false → is_empty (cut n s) ≡ false
cut-nonempty n [] p h = cc
cut-nonempty zero (a ∷ s) p h = elim p [ ]
cut-nonempty (suc n) (a ∷ s) p h = elim (Bool-cases (ltb (suc n) (suc (length s)))) [
  | inl long ↦ rw long refl
  | inr short ↦ rw short refl
]

is_seen-append :
    (x y : Text) (xs : List Text)
    → is_seen x xs ≡ false
    → text_eq x y ≡ false
    → is_seen x (xs ++ y ∷ []) ≡ false
is_seen-append x y [] h k = ground arith
is_seen-append x y (z ∷ xs) h k = ground (arith, is_seen-append x y xs)

text_eq_comm : (s t : Text) → text_eq s t ≡ false → text_eq t s ≡ false
text_eq_comm s t h = elim (Bool-cases (text_eq t s)) [
  | inl e ↦ let same = text_eq_sound t s e in cc (rw same at h, text_eq_refl s)
  | inr e ↦ e
]

IsDistinct-append :
    (xs : List Text) (y : Text) → IsDistinct xs → is_seen y xs ≡ false → IsDistinct (xs ++ y ∷ [])
IsDistinct-append [] y d h = (refl, tt)
IsDistinct-append (x ∷ xs) y d h = (
  is_seen-append x y xs d.0 (text_eq_comm y x (ground arith)),
  IsDistinct-append xs y d.1 (ground arith),
)

module _ (max_items max_len : ℕ) where
  -- An entry has a byte at least and `max_len` bytes at most.
  abbrev pub IsEntry : Text → Type 0
  IsEntry s = (is_empty s ≡ false) × (length s ≤ max_len)

  pub record IsNormalList (out : List Text) : Type 0 where
    pub few : length out ≤ max_items
    pub entries : All IsEntry out
    pub distinct : IsDistinct out

  add-IsNormalList :
      (out : List Text) (value : Text)
      → 0 < max_len
      → IsNormalList out
      → length out < max_items
      → is_empty (trim_space value) ≡ false
      → is_seen (cut max_len (trim_space value)) out ≡ false
      → IsNormalList (out ++ cut max_len (trim_space value) ∷ [])
  add-IsNormalList out value pos_len v room full new = record {
    few = omega (arith, length-append out (cut max_len (trim_space value) ∷ []));
    entries = All-append IsEntry out _ v.entries (
      (cut-nonempty max_len (trim_space value) pos_len full, length-cut max_len (trim_space value)),
      tt,
    );
    distinct = IsDistinct-append out (cut max_len (trim_space value)) v.distinct new;
  }

  collect-IsNormalList :
      (out values : List Text)
      → 0 < max_len
      → IsNormalList out
      → length out < max_items
      → IsNormalList (collect max_items max_len out values)
  unfolding collect
  collect-IsNormalList out [] p v room = v
  collect-IsNormalList out (value ∷ values) p v room =
      elim (Bool-cases (is_empty (trim_space value))) [
        | inl blank ↦ rw blank (collect-IsNormalList out values p v room)
        | inr full ↦ elim (Bool-cases (is_seen (cut max_len (trim_space value)) out)) [
          | inl old ↦ rw (full, old) (collect-IsNormalList out values p v room)
          | inr new ↦
              let longer = add-IsNormalList out value p v room full new in
              elim (Bool-cases
                (leb max_items (length (out ++ cut max_len (trim_space value) ∷ [])))) [
                  | inl done ↦ rw (full, new, done) longer
                  | inr more ↦
                      rw (full, new, more)
                        (collect-IsNormalList (out ++ cut max_len (trim_space value) ∷ []) values p
                          longer (ground arith))
                ]
        ]
      ]

-- The independent description: the entries that are not blank, trimmed and cut, each at its first
-- place, and of these the first `max_items`.
abbrev pub entries_of : ℕ → List Text → List Text
entries_of max_len [] = []
entries_of max_len (value ∷ values) =
    let rest = entries_of max_len values in
    if is_empty (trim_space value) then rest else cut max_len (trim_space value) ∷ rest

abbrev pub first_places : List Text → List Text → List Text
first_places seen [] = []
first_places seen (x ∷ xs) =
    let old = first_places seen xs in
    let new = x ∷ first_places (seen ++ x ∷ []) xs in if is_seen x seen then old else new

take_nil : (n : ℕ) → take {A = Text} n [] ≡ []
take_nil zero = refl
take_nil (suc n) = refl

take_next :
    (n : ℕ) (out : List Text) (x : Text) (rest : List Text)
    → length out < n
    → out ++ take (n - length out) (x ∷ rest)
      ≡ (out ++ x ∷ []) ++ take (n - length (out ++ x ∷ [])) rest
take_next n out x rest room =
    let e : n - length out ≡ suc (n - length (out ++ x ∷ [])) =
      omega (arith, length-append out (x ∷ [])) in
    rw e (sym (append_assoc out (x ∷ []) _))

-- The last branch of a round: the result is full, or the loop goes on.
step_of :
    (n : ℕ) (out : List Text) (x : Text) (rest later : List Text)
    → length out < n
    → (length (out ++ x ∷ []) < n
        → later ≡ (out ++ x ∷ []) ++ take (n - length (out ++ x ∷ [])) rest)
    → (if leb n (length (out ++ x ∷ [])) then out ++ x ∷ [] else later)
      ≡ out ++ take (n - length out) (x ∷ rest)
step_of n out x rest later room next = elim (Bool-cases (leb n (length (out ++ x ∷ [])))) [
  | inl done ↦
      let e : n - length (out ++ x ∷ []) ≡ 0 = ground arith in
      rw (done, take_next n out x rest room, e) (sym (append-nil (out ++ x ∷ [])))
  | inr more ↦ rw (more, take_next n out x rest room) (next (ground arith))
]

module _ (max_items max_len : ℕ) where
  collect-eq-first_places :
      (out values : List Text)
      → length out < max_items
      → collect max_items max_len out values
        ≡ out ++ take (max_items - length out) (first_places out (entries_of max_len values))
  unfolding collect
  collect-eq-first_places out [] room =
      rw (take_nil (max_items - length out)) (sym (append-nil out))
  collect-eq-first_places out (value ∷ values) room =
      elim (Bool-cases (is_empty (trim_space value))) [
        | inl blank ↦ rw (blank) (collect-eq-first_places out values room)
        | inr full ↦ elim (Bool-cases (is_seen (cut max_len (trim_space value)) out)) [
          | inl old ↦ rw (full, old) (collect-eq-first_places out values room)
          | inr new ↦
              rw (full, new)
                (step_of max_items out (cut max_len (trim_space value)) _ _ room
                  (collect-eq-first_places (out ++ cut max_len (trim_space value) ∷ []) values))
        ]
      ]

-- For positive limits the list is that of the independent description, and so has at most
-- `max_items` entries, each of one to `max_len` bytes, none twice.
pub normalize_string_list_lem :
    (values : List Text) (max_items max_len : ℕ)
    → 0 < max_items
    → 0 < max_len
    → (normalize_string_list values max_items max_len
        ≡ take max_items (first_places [] (entries_of max_len values)))
      × IsNormalList max_items max_len (normalize_string_list values max_items max_len)
unfolding normalize_string_list
normalize_string_list_lem values max_items max_len p q = (
  collect-eq-first_places max_items max_len [] values p
      ∙ ap (λ n. take n (first_places [] (entries_of max_len values))) (omega arith),
  collect-IsNormalList max_items max_len [] values q
      (record { few = omega arith; entries = tt; distinct = tt }) p,
)
