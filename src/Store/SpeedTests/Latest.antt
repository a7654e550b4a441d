-- ===== src/Store/SpeedTests/Latest.antt =====
-- The speed test that was stored last is the one that `LatestSpeedTest` reads.
use homelink_monitor.Base.{
  ℕ, ◌+◌, ◌≡◌, ◌≤◌, refl, ap, ◌∙◌, true, false, Option, none, some, List, [], ◌∷◌, ok, head?, All,
  arith,
}
use homelink_monitor.Domain.{Time, SpeedTest}
use homelink_monitor.Store.Stamp.{ts, parse_ts-ts, stamp_lt}
use homelink_monitor.Store.Schema.{Db, SpeedTestRow, newer, newest_first}
use homelink_monitor.Store.Schema.Order.{head?-newest_first, bool_int_back}
use homelink_monitor.Store.Schema.Rules.{execute_of_nil}
use homelink_monitor.Store.SpeedTests.{
  nullable_time, scan_time, speed_row, speed_key, scan_speed_any, scan_speed, add_speed_test,
  insert_speed_test, latest_speed_test,
}

scan_time-nullable_time : (t : Option Time) → scan_time (nullable_time t) ≡ ok t
unfolding scan_time
scan_time-nullable_time none = refl
scan_time-nullable_time (some t) = rw (scan_time, parse_ts-ts t) refl

module _ {F : Type 0} where
  scan_speed_any-speed_row :
      (item : SpeedTest F) (n : ℕ) → scan_speed_any (speed_row item n) ≡ ok (record item { id = n })
  unfolding scan_speed_any
  scan_speed_any-speed_row item n =
      rw
        (
          scan_speed_any,
          parse_ts-ts item.started_at,
          scan_time-nullable_time item.finished_at,
          bool_int_back item.success,
        )
        refl

module _ {F : Type 0} where
  -- The row starts no later than the time, by their texts, and its key has been given.
  abbrev pub IsOlder : Time → ℕ → SpeedTestRow F → Type 0
  IsOlder t last_id x = (stamp_lt (ts t) x.started_at ≡ false) × (x.id ≤ last_id)

  newer_of_older :
      (item : SpeedTest F) (last_id : ℕ) (rows : List (SpeedTestRow F))
      → All (IsOlder item.started_at last_id) rows
      → All (λ x. newer (speed_key (speed_row item (last_id + 1))) (speed_key x) ≡ true) rows
  newer_of_older item last_id [] h = tt
  newer_of_older item last_id (x ∷ rows) (older, h) =
      (ground arith, newer_of_older item last_id rows h)

  insert_speed_test_of :
      (item : SpeedTest F) (d : Db F)
      → d.faults ≡ []
      → insert_speed_test item d ≡ (ok (d.speed_tests.last_id + 1), add_speed_test item d)
  unfolding insert_speed_test
  insert_speed_test_of item d f =
      execute_of_nil (λ d'. (ok (d'.speed_tests.last_id + 1), add_speed_test item d')) d f

  latest_speed_test_of :
      (d : Db F)
      → d.faults ≡ []
      → latest_speed_test d ≡ (scan_speed (head? (newest_first speed_key d.speed_tests.rows)), d)
  unfolding latest_speed_test
  latest_speed_test_of d f =
      rw (execute_of_nil (λ d'. (ok (head? (newest_first speed_key d'.speed_tests.rows)), d')) d f)
        refl

  latest_added :
      (item : SpeedTest F) (d : Db F)
      → All (IsOlder item.started_at d.speed_tests.last_id) d.speed_tests.rows
      → head? (newest_first speed_key (add_speed_test item d).speed_tests.rows)
        ≡ some (speed_row item (d.speed_tests.last_id + 1))
  unfolding add_speed_test
  latest_added item d older =
      head?-newest_first speed_key (speed_row item (d.speed_tests.last_id + 1)) d.speed_tests.rows
        (newer_of_older item d.speed_tests.last_id d.speed_tests.rows older)

  -- With no failing statement, a speed test that starts no earlier than the stored ones (by the texts
  -- of the times) is, once inserted, the one that `LatestSpeedTest` returns, each field as it was
  -- and with the new key.
  pub latest_speed_test-insert_speed_test :
      (item : SpeedTest F) (d : Db F)
      → d.faults ≡ []
      → All (IsOlder item.started_at d.speed_tests.last_id) d.speed_tests.rows
      → latest_speed_test (insert_speed_test item d).1
        ≡ (ok (some (record item { id = d.speed_tests.last_id + 1 })), add_speed_test item d)
  unfolding add_speed_test scan_speed
  latest_speed_test-insert_speed_test item d f older =
      ap (λ x. latest_speed_test x.1) (insert_speed_test_of item d f)
      ∙ latest_speed_test_of (add_speed_test item d) f
      ∙ ap (λ row. (scan_speed row, add_speed_test item d)) (latest_added item d older)
      ∙ rw (scan_speed, scan_speed_any-speed_row item (d.speed_tests.last_id + 1)) refl
