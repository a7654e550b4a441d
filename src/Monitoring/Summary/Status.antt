-- ===== src/Monitoring/Summary/Status.antt =====
-- When `ConnectionStatus` says "down", and when "healthy".
use homelink_monitor.Base.{
  ◌≡◌, refl, ◌∙◌, sym, ◌↔◌, ◌⊎◌, inl, inr, Bool, true, false, not, ◌&&◌, ◌||◌, Option, none, some,
  Text, text_eq, text_eq_refl, text_eq_sound, bytes, is_some, if◌then◌else◌, arith, Bool-cases,
  Floats,
}
use homelink_monitor.Domain.{Settings, SpeedTest, LatencyCheck, DnsCheck, Outage}
use homelink_monitor.Monitoring.Decisions.{
  Status, down, degraded, healthy, status_text, connection_status, latency_failed, dns_failed,
  latency_is_bad, speed_is_bad, is_below, is_above,
}

module _ {F : Type 0} (fl : Floats F) where
  -- A value, if there is one, that is not above, or not below, a limit.
  abbrev pub IsAtMost : Option F → F → Type 0
  IsAtMost none limit = Unit
  IsAtMost (some v) limit = fl.less limit v ≡ false

  abbrev pub IsAtLeast : Option F → F → Type 0
  IsAtLeast none limit = Unit
  IsAtLeast (some v) limit = fl.less v limit ≡ false

  abbrev pub HasLatencyFailed : Option (LatencyCheck F) → Type 0
  HasLatencyFailed none = ⊥
  HasLatencyFailed (some c) = c.success ≡ false

  abbrev pub HasDnsFailed : Option (DnsCheck F) → Type 0
  HasDnsFailed none = ⊥
  HasDnsFailed (some c) = c.success ≡ false

  -- The latest latency check, if any, succeeded within the limit.
  abbrev pub IsFast : Settings F → Option (LatencyCheck F) → Type 0
  IsFast s none = Unit
  IsFast s (some c) = (c.success ≡ true) × IsAtMost c.latency_ms s.max_latency_ms

  abbrev pub IsResolved : Option (DnsCheck F) → Type 0
  IsResolved none = Unit
  IsResolved (some c) = c.success ≡ true

  -- The latest speed test, if any, failed or measured the expected rates.
  abbrev pub IsWide : Settings F → Option (SpeedTest F) → Type 0
  IsWide s none = Unit
  IsWide s (some t) =
      (t.success ≡ false)
      ⊎ (IsAtLeast t.download_mbps s.min_download_mbps × IsAtLeast t.upload_mbps s.min_upload_mbps)

  is_above_iff : (v : Option F) (limit : F) → (is_above fl v limit ≡ false) ↔ IsAtMost v limit
  is_above_iff none limit = (λ h. tt, λ h. refl)
  is_above_iff (some v) limit = (λ h. h, λ h. h)

  is_below_iff : (v : Option F) (limit : F) → (is_below fl v limit ≡ false) ↔ IsAtLeast v limit
  is_below_iff none limit = (λ h. tt, λ h. refl)
  is_below_iff (some v) limit = (λ h. h, λ h. h)

  latency_failed_iff :
      (c : Option (LatencyCheck F)) → (latency_failed fl c ≡ true) ↔ HasLatencyFailed c
  latency_failed_iff none = (λ h. ground arith, λ h. absurd h)
  latency_failed_iff (some c) = (λ h. ground arith, λ h. ground arith)

  dns_failed_iff : (c : Option (DnsCheck F)) → (dns_failed fl c ≡ true) ↔ HasDnsFailed c
  dns_failed_iff none = (λ h. ground arith, λ h. absurd h)
  dns_failed_iff (some c) = (λ h. ground arith, λ h. ground arith)

  dns_good_iff : (c : Option (DnsCheck F)) → (dns_failed fl c ≡ false) ↔ IsResolved c
  dns_good_iff none = (λ h. tt, λ h. refl)
  dns_good_iff (some c) = (λ h. ground arith, λ h. ground arith)

  latency_good_iff :
      (s : Settings F) (c : Option (LatencyCheck F)) → (latency_is_bad fl s c ≡ false) ↔ IsFast s c
  latency_good_iff s none = (λ h. tt, λ h. refl)
  latency_good_iff s (some c) =
      let iff = is_above_iff c.latency_ms s.max_latency_ms in
      (λ h. (ground arith, iff.0 (ground arith)), λ h. ground (arith, iff.1 h.1, h.0))

  speed_good_iff :
      (s : Settings F) (t : Option (SpeedTest F)) → (speed_is_bad fl s t ≡ false) ↔ IsWide s t
  speed_good_iff s none = (λ h. tt, λ h. refl)
  speed_good_iff s (some t) =
      let low = is_below_iff t.download_mbps s.min_download_mbps in
      let high = is_below_iff t.upload_mbps s.min_upload_mbps in
      (
        λ h. elim (Bool-cases t.success) [
          | inr lost ↦ inl lost
          | inl well ↦ inr (low.0 (ground arith), high.0 (ground arith))
        ],
        λ h. elim h [ inl lost ↦ ground arith | inr (d, u) ↦ ground (arith, low.1 d, high.1 u) ],
      )

  -- The tests of `ConnectionStatus`, one after the other.
  abbrev chain : Bool → Bool → Bool → Bool → Bool → Status
  chain active unreached slow unresolved narrow =
      if active
      then down
      else if unreached
      then down
      else if slow
      then degraded
      else if unresolved
      then degraded
      else if narrow
      then degraded
      else healthy

  chain_down :
      (active unreached slow unresolved narrow : Bool)
      → (text_eq (status_text (chain active unreached slow unresolved narrow)) (bytes "down"))
        ≡ (active || unreached)
  unfolding status_text text_eq bytes
  chain_down true unreached slow unresolved narrow = refl
  chain_down false true slow unresolved narrow = refl
  chain_down false false true unresolved narrow = refl
  chain_down false false false true narrow = refl
  chain_down false false false false true = refl
  chain_down false false false false false = refl

  chain_healthy :
      (active unreached slow unresolved narrow : Bool)
      → (text_eq (status_text (chain active unreached slow unresolved narrow)) (bytes "healthy"))
        ≡ not (active || unreached || slow || unresolved || narrow)
  unfolding status_text text_eq bytes
  chain_healthy true unreached slow unresolved narrow = refl
  chain_healthy false true slow unresolved narrow = refl
  chain_healthy false false true unresolved narrow = refl
  chain_healthy false false false true narrow = refl
  chain_healthy false false false false true = refl
  chain_healthy false false false false false = refl

  chain_known :
      (active unreached slow unresolved narrow : Bool)
      → let text = status_text (chain active unreached slow unresolved narrow) in
        (text ≡ bytes "down") ⊎ (text ≡ bytes "degraded") ⊎ (text ≡ bytes "healthy")
  unfolding status_text
  chain_known true unreached slow unresolved narrow = inl refl
  chain_known false true slow unresolved narrow = inl refl
  chain_known false false true unresolved narrow = inr (inl refl)
  chain_known false false false true narrow = inr (inl refl)
  chain_known false false false false true = inr (inl refl)
  chain_known false false false false false = inr (inr refl)

  text_iff : (text word : Text) → (text ≡ word) ↔ (text_eq text word ≡ true)
  text_iff text word = (λ e. rw e (text_eq_refl word), λ e. text_eq_sound text word e)

  module _ (s : Settings F) (t : Option (SpeedTest F)) (l : Option (LatencyCheck F))
      (c : Option (DnsCheck F)) (o : Option Outage) where
    -- An outage is open, or the latest checks of latency and DNS failed both.
    abbrev pub IsDown : Type 0
    IsDown = (is_some o ≡ true) ⊎ (HasLatencyFailed l × HasDnsFailed c)

    abbrev pub IsHealthy : Type 0
    IsHealthy = (is_some o ≡ false) × IsFast s l × IsResolved c × IsWide s t

    -- "down" and "healthy" say what they mean, and "degraded" is all the rest.
    abbrev pub Describes : Text → Type 0
    Describes text =
        ((text ≡ bytes "down") ↔ IsDown)
        × ((text ≡ bytes "healthy") ↔ IsHealthy)
        × ((text ≡ bytes "down") ⊎ (text ≡ bytes "degraded") ⊎ (text ≡ bytes "healthy"))

    is_down_iff : ((is_some o || (latency_failed fl l && dns_failed fl c)) ≡ true) ↔ IsDown
    is_down_iff =
        let lost = latency_failed_iff l in
        let unresolved = dns_failed_iff c in
        (
          λ h. elim (Bool-cases (is_some o)) [
            | inl active ↦ inl active
            | inr closed ↦ inr (lost.0 (ground arith), unresolved.0 (ground arith))
          ],
          λ h. elim h [
            | inl active ↦ ground arith
            | inr (x, y) ↦ ground (arith, lost.1 x, unresolved.1 y)
          ],
        )

    is_healthy_iff :
        (not (
            is_some o
            || (latency_failed fl l && dns_failed fl c)
            || latency_is_bad fl s l
            || dns_failed fl c
            || speed_is_bad fl s t)
          ≡ true)
        ↔ IsHealthy
    is_healthy_iff =
        let fast = latency_good_iff s l in
        let resolved = dns_good_iff c in
        let wide = speed_good_iff s t in
        (
          λ h. (
            ground arith,
            fast.0 (ground arith),
            resolved.0 (ground arith),
            wide.0 (ground arith),
          ),
          λ h. ground (arith, h.0, fast.1 h.1, resolved.1 h.2, wide.1 h.3),
        )

    pub connection_status-Describes : Describes (status_text (connection_status fl s t l c o))
    unfolding connection_status
    connection_status-Describes =
        let active = is_some o in
        let unreached = latency_failed fl l && dns_failed fl c in
        let slow = latency_is_bad fl s l in
        let narrow = speed_is_bad fl s t in
        let text = status_text (chain active unreached slow (dns_failed fl c) narrow) in
        let at_down = chain_down active unreached slow (dns_failed fl c) narrow in
        let at_healthy = chain_healthy active unreached slow (dns_failed fl c) narrow in
        let known = chain_known active unreached slow (dns_failed fl c) narrow in
        (
          (
            λ e. is_down_iff.0 (sym at_down ∙ (text_iff text (bytes "down")).0 e),
            λ h. (text_iff text (bytes "down")).1 (at_down ∙ is_down_iff.1 h),
          ),
          (
            λ e. is_healthy_iff.0 (sym at_healthy ∙ (text_iff text (bytes "healthy")).0 e),
            λ h. (text_iff text (bytes "healthy")).1 (at_healthy ∙ is_healthy_iff.1 h),
          ),
          known,
        )
