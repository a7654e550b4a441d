-- ===== src/Store/Schema/Order.antt =====
-- Laws of the row operations of `Store.Schema`, whatever the table.
use mathlib.Core.List.{Perm}
use mathlib.Core.List.Perm
use homelink_monitor.Base.{
  true, ap, ◌==◌, ℕ, ◌+◌, ◌≡◌, ◌≢◌, refl, subst, Bool, false, some, List, [], ◌∷◌, ◌++◌, arith,
  length, select, head?, All, Bool-cases, inl, inr,
}
use homelink_monitor.Store.Stamp.{Stamp}
use homelink_monitor.Store.Schema.{newer, insert_ordered, newest_first, update_where, bool_int}

module _ {R : Type 0} (key : R → Stamp × ℕ) where
  insert_ordered-perm : (r : R) (rows : List R) → Perm (insert_ordered key r rows) (r ∷ rows)
  unfolding insert_ordered
  insert_ordered-perm r [] = Perm.refl (r ∷ [])
  insert_ordered-perm r (x ∷ rows) = elim (Bool-cases (newer (key x) (key r))) [
    | inl first ↦
        rw first (Perm.trans (Perm.cons x (insert_ordered-perm r rows)) (Perm.swap r x rows))
    | inr last ↦ rw last (Perm.refl (r ∷ x ∷ rows))
  ]

  -- `ORDER BY` returns each row once.
  pub newest_first-perm : (rows : List R) → Perm (newest_first key rows) rows
  unfolding newest_first
  newest_first-perm [] = Perm.refl []
  newest_first-perm (r ∷ rows) =
      Perm.trans (insert_ordered-perm r (newest_first key rows))
        (Perm.cons r (newest_first-perm rows))

  module _ (P : R → Type 0) where
    insert_ordered-All :
        (r : R) (rows : List R) → P r → All P rows → All P (insert_ordered key r rows)
    unfolding insert_ordered
    insert_ordered-All r [] p h = (p, tt)
    insert_ordered-All r (x ∷ rows) p h = elim (Bool-cases (newer (key x) (key r))) [
      | inl first ↦ rw first (h.0, insert_ordered-All r rows p h.1)
      | inr last ↦ rw last (p, h)
    ]

    pub newest_first-All : (rows : List R) → All P rows → All P (newest_first key rows)
    unfolding newest_first
    newest_first-All [] h = tt
    newest_first-All (r ∷ rows) h =
        insert_ordered-All r (newest_first key rows) h.0 (newest_first-All rows h.1)

  insert_ordered-head :
      (r : R) (rows : List R) → (x : R) × (head? (insert_ordered key r rows) ≡ some x)
  unfolding insert_ordered
  insert_ordered-head r [] = (r, refl)
  insert_ordered-head r (y ∷ rows) = elim (Bool-cases (newer (key y) (key r))) [
    | inl first ↦ (y, rw first refl)
    | inr last ↦ (r, rw last refl)
  ]

  -- Some row comes first, unless there is none.
  pub newest_first-head :
      (rows : List R) → rows ≢ [] → (x : R) × (head? (newest_first key rows) ≡ some x)
  unfolding newest_first
  newest_first-head [] h = absurd (h refl)
  newest_first-head (r ∷ rows) h = insert_ordered-head r (newest_first key rows)

module _ {R : Type 0} where
  pub head?-All : (P : R → Type 0) (rows : List R) {x : R} → head? rows ≡ some x → All P rows → P x
  head?-All P [] e h = cc
  head?-All P (r ∷ rows) {x} e h = let same : r ≡ x = cc in subst P same h.0

  pub select-All :
      (P : R → Type 0) (test : R → Bool) (rows : List R) → All P rows → All P (select test rows)
  select-All P test [] h = tt
  select-All P test (r ∷ rows) h = elim (Bool-cases (test r)) [
    | inl yes_ ↦ rw yes_ (h.0, select-All P test rows h.1)
    | inr no_ ↦ rw no_ (select-All P test rows h.1)
  ]

  pub length-select_append :
      (test : R → Bool) (rows more : List R)
      → length (select test (rows ++ more)) ≡ length (select test rows) + length (select test more)
  length-select_append test [] more = omega arith
  length-select_append test (r ∷ rows) more = ground (arith, length-select_append test rows more)

  pub update_where-All :
      (P : R → Type 0) (test : R → Bool) (change : R → R) (rows : List R)
      → ((r : R) → P r → P (change r))
      → All P rows
      → All P (update_where test change rows)
  update_where-All P test change [] keep h = tt
  update_where-All P test change (r ∷ rows) keep h = elim (Bool-cases (test r)) [
    | inl yes_ ↦ rw yes_ (keep r h.0, update_where-All P test change rows keep h.1)
    | inr no_ ↦ rw no_ (h.0, update_where-All P test change rows keep h.1)
  ]

  -- A change that makes the test fail leaves no row that passes it.
  pub select-update_where :
      (test : R → Bool) (change : R → R) (rows : List R)
      → ((r : R) → test (change r) ≡ false)
      → select test (update_where test change rows) ≡ []
  select-update_where test change [] clears = refl
  select-update_where test change (r ∷ rows) clears = elim (Bool-cases (test r)) [
    | inl yes_ ↦ rw (yes_, clears r) (select-update_where test change rows clears)
    | inr no_ ↦ rw (no_, no_) (select-update_where test change rows clears)
  ]

pub bool_int_back : (b : Bool) → (bool_int b == 1) ≡ b
bool_int_back true = refl
bool_int_back false = refl

module _ {R : Type 0} (key : R → Stamp × ℕ) where
  insert_ordered-keeps :
      (r x : R) (rows : List R)
      → newer (key r) (key x) ≡ true
      → head? rows ≡ some r
      → head? (insert_ordered key x rows) ≡ some r
  unfolding insert_ordered
  insert_ordered-keeps r x [] h e = cc
  insert_ordered-keeps r x (y ∷ rows) h e =
      let same : y ≡ r = cc in rw (ap (λ z. newer (key z) (key x)) same, h) e

  -- A row that is newer than all others stands first.
  pub head?-newest_first :
      (r : R) (rows : List R)
      → All (λ x. newer (key r) (key x) ≡ true) rows
      → head? (newest_first key (rows ++ r ∷ [])) ≡ some r
  unfolding newest_first insert_ordered
  head?-newest_first r [] h = refl
  head?-newest_first r (x ∷ rows) h =
      insert_ordered-keeps r x (newest_first key (rows ++ r ∷ [])) h.0
        (head?-newest_first r rows h.1)
