-- ===== src/HttpApi/Reads/Limited.antt =====
-- No list that the API answers is longer than its bound.
use homelink_monitor.Base.{
  ℕ, suc, ◌≤◌, ◌≡◌, refl, Option, none, some, List, [], ◌∷◌, Text, bytes, Result, ok, err, Eff,
  handle, length, length-take, proceed, zero, take, arith, Result,
}
use homelink_monitor.Store.Schema.{Db, scan_all, execute, returns}
use homelink_monitor.Store.SpeedTests.{speed_tests}
use homelink_monitor.Store.Checks.{latency, dns_checks}
use homelink_monitor.Store.Outages.{list_outages}
use homelink_monitor.Store.RouterTraffic.{ClientsCodec, router_traffic_samples}
use homelink_monitor.HttpApi.Requests.{Request, Parsers, int_param, time_param}
use homelink_monitor.HttpApi.Requests.Bounded.{int_param_bound}
use homelink_monitor.HttpApi.Reads.{
  Payload, many_speed_tests, many_latencies, many_dns, many_samples, many_outages, Answer, json,
  fail_with, respond, or_bad, speed_tests_handler, latency_handler, dns_checks_handler,
  router_traffic_handler, outages_handler,
}

-- The items of a body that holds a list.
abbrev pub items_of : {F : Type 0} → Payload F → ℕ
items_of (many_speed_tests items) = length items
items_of (many_latencies items) = length items
items_of (many_dns items) = length items
items_of (many_samples items) = length items
items_of (many_outages items) = length items
items_of _ = 0

-- At most so many items.
abbrev pub IsShort : {A S : Type 0} → ℕ → Result (List A) × S → Type 0
IsShort n (ok items, s) = length items ≤ n
IsShort n (err e, s) = Unit

length-take_bound : {A : Type 0} (n : ℕ) (xs : List A) → length (take n xs) ≤ n
length-take_bound n xs = omega (arith, length-take n xs)

longer-IsShort :
    {A S : Type 0} (x : Result A) (rest : Result (List A)) (n : ℕ) (s : S)
    → IsShort n (rest, s)
    → IsShort (suc n) (
      elim x [ err e ↦ err e | ok a ↦ elim rest [ err e ↦ err e | ok items ↦ ok (a ∷ items) ] ],
      s,
    )
longer-IsShort (err e) rest n s h = tt
longer-IsShort (ok a) (err e) n s h = tt
longer-IsShort (ok a) (ok items) n s h = omega (arith, h)

scan_all-IsShort :
    {R A S : Type 0} (scan : R → Result A) (rows : List R) (n : ℕ) (s : S)
    → length rows ≤ n
    → IsShort n (scan_all scan rows, s)
unfolding scan_all
scan_all-IsShort scan [] n s h = omega arith
scan_all-IsShort scan (r ∷ rows) zero s h = absurd (omega (arith, h))
scan_all-IsShort scan (r ∷ rows) (suc n) s h =
    longer-IsShort (scan r) (scan_all scan rows) n s
      (scan_all-IsShort scan rows n s (omega (arith, h)))

module _ {F : Type 0} where
  -- A list of at most `n` rows is read and scanned.
  taken-IsShort :
      {R A : Type 0} (read : Db F → List R) (scan : R → Result A) (n : ℕ)
      (faults : List (Option Text)) (d : Db F)
      → IsShort n (
          proceed
            (execute faults (λ x. (ok (take n (read x)), x)) d)
            (λ rows. returns (scan_all scan rows)))
  taken-IsShort read scan n [] d =
      scan_all-IsShort scan (take n (read d)) n d (length-take_bound n (read d))
  taken-IsShort read scan n (none ∷ faults) d =
      scan_all-IsShort scan (take n (read (record d { faults = faults }))) n
        (record d { faults = faults }) (length-take_bound n (read (record d { faults = faults })))
  taken-IsShort read scan n (some e ∷ faults) d = tt

  abbrev pub IsLimited : ℕ → Answer F × Db F → Type 0
  IsLimited n (answer, d) = items_of answer.payload ≤ n

  handle-IsLimited :
      {A : Type 0} (payload : List A → Payload F) (n max : ℕ) (x : Result (List A) × Db F)
      → ((items : List A) → items_of (payload items) ≡ length items)
      → n ≤ max
      → IsShort n x
      → IsLimited max
          (handle x (λ e d'. (fail_with 500 e, d')) (λ a d'. (json 200 (payload a), d')))
  handle-IsLimited payload n max (ok items, d') holds fits h = omega (arith, holds items, h, fits)
  handle-IsLimited payload n max (err e, d') holds fits h = omega arith

  respond-IsLimited :
      {A : Type 0} (payload : List A → Payload F) (call : Eff (Db F) (List A)) (n max : ℕ)
      (d : Db F)
      → ((items : List A) → items_of (payload items) ≡ length items)
      → n ≤ max
      → IsShort n (call d)
      → IsLimited max (respond payload call d)
  unfolding respond
  respond-IsLimited payload call n max d holds fits short =
      handle-IsLimited payload n max (call d) holds fits short

  or_bad-IsLimited :
      {A : Type 0} (x : Result A) (next : A → Db F → Answer F × Db F) (max : ℕ) (d : Db F)
      → ((a : A) → IsLimited max (next a d))
      → IsLimited max (or_bad x next d)
  or_bad-IsLimited (ok a) next max d h = h a
  or_bad-IsLimited (err e) next max d h = omega arith

  module _ (parsers : Parsers) (r : Request) where
    speed_tests_handler-IsLimited : (d : Db F) → IsLimited 200 (speed_tests_handler parsers r d)
    unfolding speed_tests_handler speed_tests
    speed_tests_handler-IsLimited d =
        or_bad-IsLimited (time_param parsers r (bytes "from")) _ 200 d (λ from.
          or_bad-IsLimited (time_param parsers r (bytes "to")) _ 200 d (λ to.
            respond-IsLimited many_speed_tests _ (int_param parsers r (bytes "limit") 50 200) 200 d
              (λ items. refl) (int_param_bound parsers r (bytes "limit") 50 200 (omega arith))
              (taken-IsShort _ _ _ d.faults d)))

    latency_handler-IsLimited : (d : Db F) → IsLimited 1000 (latency_handler parsers r d)
    unfolding latency_handler latency
    latency_handler-IsLimited d =
        or_bad-IsLimited (time_param parsers r (bytes "from")) _ 1000 d (λ from.
          or_bad-IsLimited (time_param parsers r (bytes "to")) _ 1000 d (λ to.
            respond-IsLimited many_latencies _ (int_param parsers r (bytes "limit") 200 1000) 1000 d
              (λ items. refl) (int_param_bound parsers r (bytes "limit") 200 1000 (omega arith))
              (taken-IsShort _ _ _ d.faults d)))

    dns_checks_handler-IsLimited : (d : Db F) → IsLimited 500 (dns_checks_handler parsers r d)
    unfolding dns_checks_handler dns_checks
    dns_checks_handler-IsLimited d =
        respond-IsLimited many_dns _ (int_param parsers r (bytes "limit") 100 500) 500 d
          (λ items. refl) (int_param_bound parsers r (bytes "limit") 100 500 (omega arith))
          (taken-IsShort _ _ _ d.faults d)

    router_traffic_handler-IsLimited :
        (codec : ClientsCodec F) (d : Db F)
        → IsLimited 500 (router_traffic_handler parsers r codec d)
    unfolding router_traffic_handler router_traffic_samples
    router_traffic_handler-IsLimited codec d =
        respond-IsLimited many_samples _ (int_param parsers r (bytes "limit") 100 500) 500 d
          (λ items. refl) (int_param_bound parsers r (bytes "limit") 100 500 (omega arith))
          (taken-IsShort _ _ _ d.faults d)

    outages_handler-IsLimited : (d : Db F) → IsLimited 500 (outages_handler parsers r d)
    unfolding outages_handler list_outages
    outages_handler-IsLimited d =
        respond-IsLimited many_outages _ (int_param parsers r (bytes "limit") 100 500) 500 d
          (λ items. refl) (int_param_bound parsers r (bytes "limit") 100 500 (omega arith))
          (taken-IsShort _ _ _ d.faults d)

    -- Whatever the parameters of the request and the stored rows, and whichever statements fail: no
    -- answer lists more than 200 speed tests, 1000 latency checks, or 500 DNS checks, samples of router
    -- traffic or outages.
    pub lists-IsLimited :
        (codec : ClientsCodec F) (d : Db F)
        → IsLimited 200 (speed_tests_handler parsers r d)
          × IsLimited 1000 (latency_handler parsers r d)
          × IsLimited 500 (dns_checks_handler parsers r d)
          × IsLimited 500 (router_traffic_handler parsers r codec d)
          × IsLimited 500 (outages_handler parsers r d)
    lists-IsLimited codec d = (
      speed_tests_handler-IsLimited d,
      latency_handler-IsLimited d,
      dns_checks_handler-IsLimited d,
      router_traffic_handler-IsLimited codec d,
      outages_handler-IsLimited d,
    )
