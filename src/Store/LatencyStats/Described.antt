-- ===== src/Store/LatencyStats/Described.antt =====
-- A latency summary against the list of the latencies that it sums up.
use homelink_monitor.Base.{
  ℕ, zero, suc, ◌+◌, ◌≡◌, refl, ◌∙◌, Bool, true, false, ◌||◌, Option, none, some, Option-cases,
  Ends, List, [], ◌∷◌, ok, select, ◌==◌, if◌then◌else◌, ltb, Floats, length, Bool-cases, inl, inr,
  arith,
}
use homelink_monitor.Domain.{Time, LatencySummary}
use homelink_monitor.Store.Schema.{Db, LatencyRow}
use homelink_monitor.Store.Schema.Rules.{execute_of_nil}
use homelink_monitor.Store.LatencyStats.{
  Tally, new_tally, add_row, tally, if_any, summary_of, in_span, latency_summary,
}
use homelink_monitor.Store.LatencyStats.Best.{best_of, IsBest, best_of-IsBest}

abbrev pub with_value : {F : Type 0} → Option F → List F → List F
with_value none values = values
with_value (some v) values = v ∷ values

-- The latencies of the checks that succeeded, in order.
unfoldable pub latencies : {F : Type 0} → List (LatencyRow F) → List F
latencies [] = []
latencies (r ∷ rows) =
    let rest = latencies rows in if r.success == 0 then rest else with_value r.latency_ms rest

abbrev pub has_failed : {F : Type 0} → LatencyRow F → Bool
has_failed r = r.success == 0

module _ {F : Type 0} (fl : Floats F) where
  -- The sum of values, from the left.
  unfoldable pub sum_of : F → List F → F
  sum_of sum [] = sum
  sum_of sum (v ∷ values) = sum_of (fl.plus sum v) values

  -- From the first value, where none has been seen.
  unfoldable pub best_from : (F → F → Bool) → ℕ → F → List F → F
  best_from better n m [] = m
  best_from better n m (v ∷ values) =
      if n == 0 then best_of better v values else best_of better m (v ∷ values)

  unfoldable pub describe : List (LatencyRow F) → Tally F → Tally F
  describe rows t = record {
    count = t.count + length rows;
    failed = t.failed + length (select has_failed rows);
    ok_count = t.ok_count + length (latencies rows);
    min = best_from fl.less t.ok_count t.min (latencies rows);
    max = best_from (λ a b. fl.less b a) t.ok_count t.max (latencies rows);
    sum = sum_of t.sum (latencies rows);
  }

  best_from-step :
      (better : F → F → Bool) (n : ℕ) (m v : F) (values : List F)
      → best_from better (n + 1) (if n == 0 || better v m then v else m) values
        ≡ best_from better n m (v ∷ values)
  unfolding best_from best_of
  best_from-step better n m v [] = ground arith
  best_from-step better n m v (w ∷ values) = ground arith

  describe_row :
      (r : LatencyRow F) (rows : List (LatencyRow F)) (t : Tally F)
      → describe rows (add_row fl r t) ≡ describe (r ∷ rows) t
  unfolding describe add_row latencies sum_of
  describe_row r rows t =
      let counted : t.count + 1 + length rows ≡ t.count + suc (length rows) = omega arith in
      let lost : t.failed + 1 + length (select has_failed rows)
          ≡ t.failed + suc (length (select has_failed rows)) =
        omega arith in
      let found : t.ok_count + 1 + length (latencies rows)
          ≡ t.ok_count + suc (length (latencies rows)) =
        omega arith in
      elim (Bool-cases (r.success == 0)) [
        | inl f ↦ rw (f, counted, lost) refl
        | inr f ↦ elim (Option-cases r.latency_ms) [
          | inl nothing ↦ rw (f, nothing, counted) refl
          | inr (v, e) ↦
              rw
                (
                  f,
                  e,
                  counted,
                  found,
                  best_from-step fl.less t.ok_count t.min v (latencies rows),
                  best_from-step (λ a b. fl.less b a) t.ok_count t.max v (latencies rows),
                )
                refl
        ]
      ]

  tally-describe : (rows : List (LatencyRow F)) (t : Tally F) → tally fl rows t ≡ describe rows t
  unfolding tally describe latencies best_from sum_of
  tally-describe [] t = ground arith
  tally-describe (r ∷ rows) t = tally-describe rows (add_row fl r t) ∙ describe_row r rows t

  abbrev pub mean_of : List F → Option F
  mean_of [] = none
  mean_of (v ∷ values) =
      some (fl.over (sum_of (fl.of_nat 0) (v ∷ values)) (fl.of_nat (length (v ∷ values))))

  abbrev pub IsBest? : (F → F → Bool) → Option F → List F → Type 0
  IsBest? better none values = values ≡ []
  IsBest? better (some m) values = IsBest better m values

  abbrev pub loss_of : ℕ → ℕ → F
  loss_of failed zero = fl.of_nat 0
  loss_of failed (suc n) = fl.times (fl.over (fl.of_nat failed) (fl.of_nat (suc n))) (fl.of_nat 100)

  -- What a summary says of the rows that it sums up.
  pub record IsSummary (rows : List (LatencyRow F)) (s : LatencySummary F) : Type 0 where
    pub counted : s.count ≡ length rows
    pub lost : s.packet_loss ≡ loss_of (length (select has_failed rows)) (length rows)
    pub averaged : s.avg_ms ≡ mean_of (latencies rows)
    pub least : IsBest? fl.less s.min_ms (latencies rows)
    pub greatest : IsBest? (λ a b. fl.less b a) s.max_ms (latencies rows)

  zero_add : (n : ℕ) → 0 + n ≡ n
  zero_add n = omega arith

  abbrev described : List (LatencyRow F) → Tally F
  described rows = record {
    count = length rows;
    failed = length (select has_failed rows);
    ok_count = length (latencies rows);
    min = best_from fl.less 0 (fl.of_nat 0) (latencies rows);
    max = best_from (λ a b. fl.less b a) 0 (fl.of_nat 0) (latencies rows);
    sum = sum_of (fl.of_nat 0) (latencies rows);
  }

  describe-new_tally : (rows : List (LatencyRow F)) → describe rows (new_tally fl) ≡ described rows
  unfolding describe
  describe-new_tally rows =
      rw
        (
          zero_add (length rows),
          zero_add (length (select has_failed rows)),
          zero_add (length (latencies rows)),
        )
        refl

  loss_of_counts :
      (failed n : ℕ)
      → (if ltb 0 n
          then fl.times (fl.over (fl.of_nat failed) (fl.of_nat n)) (fl.of_nat 100)
          else fl.of_nat 0)
        ≡ loss_of failed n
  loss_of_counts failed zero = refl
  loss_of_counts failed (suc n) = let some : ltb 0 (suc n) ≡ true = ground arith in rw some refl

  mean_of_sum :
      (values : List F)
      → if_any fl
          (length values)
          (fl.over (sum_of (fl.of_nat 0) values) (fl.of_nat (length values)))
        ≡ mean_of values
  mean_of_sum [] = refl
  mean_of_sum (v ∷ values) =
      let some : ltb 0 (suc (length values)) ≡ true = ground arith in rw some refl

  module _ (irreflexive : (a : F) → fl.less a a ≡ false)
      (transitive : (a b c : F)
        → fl.less a b ≡ true
        → fl.less b c ≡ true
        → fl.less a c ≡ true) where
    best_from-IsBest? :
        (values : List F)
        → IsBest? fl.less
            (if_any fl (length values) (best_from fl.less 0 (fl.of_nat 0) values))
            values
          × IsBest?
              (λ a b. fl.less b a)
              (if_any fl (length values) (best_from (λ a b. fl.less b a) 0 (fl.of_nat 0) values))
              values
    unfolding best_from
    best_from-IsBest? [] = (refl, refl)
    best_from-IsBest? (v ∷ values) =
        let some : ltb 0 (suc (length values)) ≡ true = ground arith in
        rw some (
          best_of-IsBest fl.less irreflexive transitive v values,
          best_of-IsBest (λ a b. fl.less b a) irreflexive (λ a b c h k. transitive c b a k h) v
              values,
        )

    described-IsSummary :
        (rows : List (LatencyRow F)) → IsSummary rows (summary_of fl (described rows))
    unfolding summary_of
    described-IsSummary rows = record {
      counted = refl;
      lost = loss_of_counts (length (select has_failed rows)) (length rows);
      averaged = mean_of_sum (latencies rows);
      least = (best_from-IsBest? (latencies rows)).0;
      greatest = (best_from-IsBest? (latencies rows)).1;
    }

    tallied-IsSummary :
        (rows : List (LatencyRow F)) → IsSummary rows (summary_of fl (tally fl rows (new_tally fl)))
    tallied-IsSummary rows =
        rw (tally-describe rows (new_tally fl) ∙ describe-new_tally rows) (described-IsSummary rows)

    -- If `<` is a strict order on the values and the statement does not fail: `LatencySummary` counts the
    -- checks of the span, its loss is the share of those that failed in percent, and its average is the
    -- sum from 0, in order, over the number of the latencies of those that succeeded. The least and
    -- the greatest are such latencies, with none less and none greater, and missing if there is none.
    pub latency_summary-IsSummary :
        (from to : Option Time) (d : Db F)
        → d.faults ≡ []
        → Ends
            (λ s d'. IsSummary (select (in_span fl from to) d.latency_checks.rows) s)
            (λ d'. ⊥)
            (latency_summary fl from to d)
    unfolding latency_summary
    latency_summary-IsSummary from to d f =
        rw
          (execute_of_nil (λ d'. (ok (select (in_span fl from to) d'.latency_checks.rows), d')) d f)
          (tallied-IsSummary (select (in_span fl from to) d.latency_checks.rows))
