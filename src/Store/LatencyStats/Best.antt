-- ===== src/Store/LatencyStats/Best.antt =====
-- The best of some values, from the left.
use mathlib.Core.List.{Mem, mem-cons_self, mem-cons_of_mem}
use homelink_monitor.Base.{
  ◌≡◌, refl, subst, Bool, true, false, List, [], ◌∷◌, if◌then◌else◌, Bool-cases, inl, inr, arith,
  All, ◌⊎◌,
}

module _ {F : Type 0} where
  -- `better` says whether the first value replaces the second.
  unfoldable pub best_of : (F → F → Bool) → F → List F → F
  best_of better m [] = m
  best_of better m (v ∷ values) = best_of better (if better v m then v else m) values

  -- A value that no other is better than, and that is one of the values.
  abbrev pub IsBest : (F → F → Bool) → F → List F → Type 0
  IsBest better m values = Mem m values × All (λ v. better v m ≡ false) values

  module _ (better : F → F → Bool) (irreflexive : (a : F) → better a a ≡ false)
      (transitive : (a b c : F) → better a b ≡ true → better b c ≡ true → better a c ≡ true) where
    asymmetric : (a b : F) → better a b ≡ true → better b a ≡ false
    asymmetric a b h = elim (Bool-cases (better b a)) [
      | inl k ↦ grind (arith, transitive a b a h k, irreflexive a)
      | inr k ↦ k
    ]

    -- The value is the result, or the result is better.
    abbrev IsUnder : F → F → Type 0
    IsUnder m r = (r ≡ m) ⊎ (better r m ≡ true)

    new-IsUnder : (m v r : F) → better v m ≡ true → IsUnder v r → IsUnder m r × (better v r ≡ false)
    new-IsUnder m v r b (inl e) = (inr (rw e b), rw e (irreflexive v))
    new-IsUnder m v r b (inr h) = (inr (transitive r v m h b), asymmetric r v h)

    under_old : (m v r : F) → better v m ≡ false → IsUnder m r → better v r ≡ false
    under_old m v r b (inl e) = rw e b
    under_old m v r b (inr h) = grind (arith, transitive v r m, b, h)

    under_self : (m r : F) → IsUnder m r → better m r ≡ false
    under_self m r (inl e) = rw e (irreflexive m)
    under_self m r (inr h) = asymmetric r m h

    best_of-IsUnder :
        (m : F) (values : List F)
        → IsUnder m (best_of better m values)
          × All (λ v. better v (best_of better m values) ≡ false) values
    unfolding best_of
    best_of-IsUnder m [] = (inl refl, tt)
    best_of-IsUnder m (v ∷ values) = elim (Bool-cases (better v m)) [
      | inl b ↦
          let (u, rest) = best_of-IsUnder v values in
          let same : best_of better v values ≡ best_of better m (v ∷ values) = rw b refl in
          let (m_under, v_under) = new-IsUnder m v (best_of better v values) b u in
          subst (λ r. IsUnder m r × All (λ w. better w r ≡ false) (v ∷ values)) same
            (m_under, (v_under, rest))
      | inr b ↦
          let (u, rest) = best_of-IsUnder m values in
          let same : best_of better m values ≡ best_of better m (v ∷ values) = rw b refl in
          subst (λ r. IsUnder m r × All (λ w. better w r ≡ false) (v ∷ values)) same
            (u, (under_old m v (best_of better m values) b u, rest))
    ]

    mem_or_first : (r m : F) (values : List F) → (r ≡ m) ⊎ Mem r values → Mem r (m ∷ values)
    mem_or_first r m values (inl e) = subst (λ x. Mem r (x ∷ values)) e mem-cons_self
    mem_or_first r m values (inr h) = mem-cons_of_mem m h

    skip_one : (r m v : F) (values : List F) → (r ≡ m) ⊎ Mem r values → (r ≡ m) ⊎ Mem r (v ∷ values)
    skip_one r m v values (inl e) = inl e
    skip_one r m v values (inr h) = inr (mem-cons_of_mem v h)

    best_of_some :
        (m : F) (values : List F)
        → (best_of better m values ≡ m) ⊎ Mem (best_of better m values) values
    unfolding best_of
    best_of_some m [] = inl refl
    best_of_some m (v ∷ values) = elim (Bool-cases (better v m)) [
      | inl b ↦ rw b (inr (mem_or_first (best_of better v values) v values (best_of_some v values)))
      | inr b ↦ rw b (skip_one (best_of better m values) m v values (best_of_some m values))
    ]

    pub best_of-IsBest :
        (m : F) (values : List F) → IsBest better (best_of better m values) (m ∷ values)
    best_of-IsBest m values =
        let (u, rest) = best_of-IsUnder m values in
        (
          mem_or_first (best_of better m values) m values (best_of_some m values),
          (under_self m (best_of better m values) u, rest),
        )
