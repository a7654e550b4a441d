-- ===== src/Store/Outages/Laws.antt =====
-- What the statements on `outages` do to the open outages.
use homelink_monitor.Base.{
  Ends, Ends-state, proceed-Ends, ℕ, ◌+◌, ◌≤◌, ◌≡◌, refl, ap, ◌∙◌, false, Option, none, some, [],
  arith, if◌then◌else◌, ltb, length, select, head?, All, All-append, Bool-cases, List-cases, ◌<◌,
  inl, inr, ok, Text, is_some, ◌⊎◌,
}
use homelink_monitor.Domain.{Time, Outage}
use homelink_monitor.Store.Stamp.{Stamp, ts, parse_ts, parse_ts-ts}
use homelink_monitor.Store.Schema.{Db, OutageRow, newest_first, returns, exec}
use homelink_monitor.Store.Schema.Order.{
  newest_first-All, newest_first-head, head?-All, select-All, length-select_append,
  update_where-All, select-update_where,
}
use homelink_monitor.Store.Schema.Rules.{IgnoresFaults, execute-Ends, execute_of_nil, returns-Ends}
use homelink_monitor.Store.Outages.{
  is_open, parse_nullable, scan_outage_rows, scan_outage, outage_key, insert_outage, count_open,
  open_outage, end_outages, close_active_outage, select_active, active_outage,
}

-- The stamps of a row can be read back as times.
abbrev pub IsReadable : Stamp → Type 0
IsReadable s = (t : Time) × (parse_ts s ≡ ok t)

abbrev pub IsReadable? : Option Stamp → Type 0
IsReadable? none = Unit
IsReadable? (some s) = IsReadable s

abbrev pub IsReadableRow : OutageRow → Type 0
IsReadableRow r = IsReadable r.started_at × IsReadable? r.ended_at

module _ {F : Type 0} where
  -- At most one outage is open, and every row can be scanned.
  pub record IsValid (d : Db F) : Type 0 where
    pub one_open : count_open d ≤ 1
    pub readable : All IsReadableRow d.outages.rows

  pub count_open-insert_outage :
      (t : Time) (reason : Text) (d : Db F)
      → count_open (insert_outage t reason d) ≡ count_open d + 1
  unfolding count_open insert_outage
  count_open-insert_outage t reason d = omega (arith, length-select_append is_open d.outages.rows)

  pub count_open-end_outages : (t : Time) (d : Db F) → count_open (end_outages t d) ≡ 0
  unfolding count_open end_outages
  count_open-end_outages t d = ap length (
      select-update_where is_open (λ r. record r { ended_at = some (ts t) }) d.outages.rows
        (λ r. refl))

  pub insert_outage-readable :
      (t : Time) (reason : Text) (d : Db F)
      → All IsReadableRow d.outages.rows
      → All IsReadableRow (insert_outage t reason d).outages.rows
  unfolding insert_outage
  insert_outage-readable t reason d h =
      All-append IsReadableRow d.outages.rows _ h (((t, parse_ts-ts t), tt), tt)

  pub end_outages-readable :
      (t : Time) (d : Db F)
      → All IsReadableRow d.outages.rows
      → All IsReadableRow (end_outages t d).outages.rows
  unfolding end_outages
  end_outages-readable t d h =
      update_where-All IsReadableRow is_open (λ r. record r { ended_at = some (ts t) })
        d.outages.rows (λ r p. (p.0, (t, parse_ts-ts t))) h

  with_faults-IsValid : IgnoresFaults IsValid
  unfolding count_open
  with_faults-IsValid d faults v = record { one_open = v.one_open; readable = v.readable }

  insert_outage-IsValid :
      (t : Time) (reason : Text) (d : Db F)
      → IsValid d
      → ltb 0 (count_open d) ≡ false
      → IsValid (insert_outage t reason d)
  insert_outage-IsValid t reason d v closed = record {
    one_open = ground (arith, count_open-insert_outage t reason d);
    readable = insert_outage-readable t reason d v.readable;
  }

  end_outages-IsValid : (t : Time) (d : Db F) → IsValid d → IsValid (end_outages t d)
  end_outages-IsValid t d v = record {
    one_open = omega (arith, count_open-end_outages t d);
    readable = end_outages-readable t d v.readable;
  }

  -- `CloseActiveOutage` keeps the table valid, also when it fails.
  pub close_active_outage-IsValid :
      (t : Time) (d : Db F) → IsValid d → IsValid (close_active_outage t d).1
  unfolding close_active_outage
  close_active_outage-IsValid t d v = Ends-state IsValid _ (
      execute-Ends IsValid IsValid (λ _ s. IsValid s) (λ d'. (ok tt, end_outages t d')) d.faults d
        with_faults-IsValid (λ d' w. w) (λ d' w. end_outages-IsValid t d' w) v)

  IsClosed : Db F → Type 0
  IsClosed d = IsValid d × (ltb 0 (count_open d) ≡ false)

  with_faults-IsClosed : IgnoresFaults IsClosed
  unfolding IsClosed count_open
  with_faults-IsClosed d faults v = (with_faults-IsValid d faults v.0, v.1)

  open_if_closed-Ends :
      (t : Time) (reason : Text) (n : ℕ) (d : Db F)
      → IsValid d × (n ≡ count_open d)
      → Ends
          (λ (_ : Unit {0}) s. IsValid s)
          IsValid
          ((if ltb 0 n then returns (ok tt) else exec (insert_outage t reason)) d)
  unfolding IsClosed
  open_if_closed-Ends t reason n d (v, e) = elim (Bool-cases (ltb 0 n)) [
    | inl some_open ↦ rw some_open v
    | inr none_open ↦ rw none_open (
        execute-Ends IsClosed IsValid (λ _ s. IsValid s) (λ d'. (ok tt, insert_outage t reason d'))
          d.faults d with_faults-IsClosed (λ d' w. w.0)
          (λ d' w. insert_outage-IsValid t reason d' w.0 w.1) (v, rw e at none_open))
  ]

  -- So does `OpenOutage`.
  pub open_outage-IsValid :
      (t : Time) (reason : Text) (d : Db F) → IsValid d → IsValid (open_outage t reason d).1
  unfolding open_outage
  open_outage-IsValid t reason d v = Ends-state IsValid _ (
      proceed-Ends (λ n s. IsValid s × (n ≡ count_open s)) (λ _ s. IsValid s) IsValid _ _
        (execute-Ends IsValid IsValid (λ n s. IsValid s × (n ≡ count_open s))
          (λ d'. (ok (count_open d'), d')) d.faults d with_faults-IsValid (λ d' w. w)
          (λ d' w. (w, refl)) v)
        (open_if_closed-Ends t reason))

parse_nullable-ok :
    (s : Option Stamp) → IsReadable? s → (t : Option Time) × (parse_nullable s ≡ ok t)
unfolding parse_nullable
parse_nullable-ok none h = (none, refl)
parse_nullable-ok (some s) (t, e) = (some t, rw (e, parse_nullable) refl)

scan_outage_rows-ok : (r : OutageRow) → IsReadableRow r → (o : Outage) × (scan_outage_rows r ≡ ok o)
unfolding scan_outage_rows
scan_outage_rows-ok r ((t, e), h) =
    let (ended, e') = parse_nullable-ok r.ended_at h in
    (
      record { id = r.id; started_at = t; ended_at = ended; reason = r.reason },
      rw (e, e', scan_outage_rows) refl,
    )

module _ {F : Type 0} where
  -- The row that `ActiveOutage` selects.
  select_active-cases :
      (d : Db F)
      → IsValid d
      → ((select_active d ≡ none) × (count_open d ≡ 0))
        ⊎ ((r : OutageRow) × (select_active d ≡ some r) × IsReadableRow r × (0 < count_open d))
  unfolding select_active count_open newest_first
  select_active-cases d v = elim (List-cases (select is_open d.outages.rows)) [
    | inl nothing ↦ inl (ap (λ l. head? (newest_first outage_key l)) nothing, ap length nothing)
    | inr (x, rest, e) ↦
        let found =
          newest_first-head outage_key (select is_open d.outages.rows) (λ n. ground arith) in
        inr (
          found.0,
          found.1,
          head?-All IsReadableRow (newest_first outage_key (select is_open d.outages.rows)) found.1
              (newest_first-All outage_key IsReadableRow (select is_open d.outages.rows)
                (select-All IsReadableRow is_open d.outages.rows v.readable)),
          ground arith,
        )
  ]

  active_outage_of :
      (d : Db F) → d.faults ≡ [] → active_outage d ≡ (scan_outage (select_active d), d)
  unfolding active_outage
  active_outage_of d f = rw (execute_of_nil (λ d'. (ok (select_active d'), d')) d f) refl

  -- With no fault ahead, the open outage is found exactly when one is open.
  pub active_outage-found :
      (d : Db F)
      → IsValid d
      → d.faults ≡ []
      → (o : Option Outage) × (active_outage d ≡ (ok o, d)) × (is_some o ≡ ltb 0 (count_open d))
  unfolding scan_outage
  active_outage-found d v f = elim (select_active-cases d v) [
    | inl (e, c) ↦ (none, active_outage_of d f ∙ rw e refl, ground arith)
    | inr (r, e, readable, c) ↦
        let (o, scanned) = scan_outage_rows-ok r readable in
        (some o, active_outage_of d f ∙ rw (e, scan_outage, scanned) refl, ground arith)
  ]

  -- Reading the open outage keeps the table valid.
  pub active_outage-IsValid : (d : Db F) → IsValid d → IsValid (active_outage d).1
  unfolding active_outage
  active_outage-IsValid d v = Ends-state IsValid _ (
      proceed-Ends (λ _ s. IsValid s) (λ _ s. IsValid s) IsValid _
        (λ row. returns (scan_outage row))
        (execute-Ends IsValid IsValid (λ _ s. IsValid s) (λ d'. (ok (select_active d'), d'))
          d.faults d with_faults-IsValid (λ d' w. w) (λ d' w. w) v)
        (λ row d' w. returns-Ends IsValid (scan_outage row) d' w))

  -- With no fault ahead and no outage open, `OpenOutage` inserts one.
  pub open_outage_runs :
      (t : Time) (reason : Text) (d : Db F)
      → d.faults ≡ []
      → count_open d ≡ 0
      → open_outage t reason d ≡ (ok tt, insert_outage t reason d)
  unfolding open_outage
  open_outage_runs t reason d f c =
      rw (execute_of_nil (λ d'. (ok (count_open d'), d')) d f, c)
        (execute_of_nil (λ d'. (ok tt, insert_outage t reason d')) d f)

  -- With no fault ahead, `CloseActiveOutage` ends the open outages.
  pub close_active_outage_runs :
      (t : Time) (d : Db F) → d.faults ≡ [] → close_active_outage t d ≡ (ok tt, end_outages t d)
  unfolding close_active_outage
  close_active_outage_runs t d f = execute_of_nil (λ d'. (ok tt, end_outages t d')) d f
