-- ===== src/Store/Sound.antt =====
-- The invariant of the database that the whole program keeps, and the statements that keep it.
use homelink_monitor.Base.{
  ℕ, ◌≤◌, ◌≡◌, ap, Bool, Option, List, Text, arith, length, if-either, any, text_eq, Bool-cases,
  inl, inr, ℤ,
}
use homelink_monitor.Domain.{
  Time, Settings, LatencyCheck, DnsCheck, SpeedTest, RouterTrafficSample, RouterTrafficClient,
}
use homelink_monitor.Store.Schema.{Db, Table, OutageRow, empty_db}
use homelink_monitor.Store.Schema.Keeps.{tables, Keeps}
use homelink_monitor.Store.Schema.Preserves.{
  Preserves, returns-Preserves, bind-Preserves, statement-Preserves, exec-Preserves,
  tables-Preserves,
}
use homelink_monitor.Store.Schema.Rules.{IgnoresFaults}
use homelink_monitor.Store.Outages.{count_open}
use homelink_monitor.Store.Outages.Laws.{IsValid}
use homelink_monitor.Store.Settings.{Codec, save_settings, put_settings}
use homelink_monitor.Store.SpeedTests.{insert_speed_test, add_speed_test}
use homelink_monitor.Store.Checks.{insert_latency, add_latency, insert_dns, add_dns}
use homelink_monitor.Store.RouterTraffic.{ClientsCodec, insert_router_traffic, add_router_traffic}
use homelink_monitor.Store.Users.{
  has_username, name_clash, create_user, add_user, update_user, set_user, delete_user, remove_user,
  delete_sessions_for_user, delete_expired_sessions, create_session, add_session, delete_session,
}
use homelink_monitor.Store.Users.Keys.{
  HasKeys, add_user-HasKeys, set_user-HasKeys, remove_user-HasKeys, length-add_user,
  length-set_user,
}

-- A database with this table of outages.
abbrev pub outages_only : {F : Type 0} → Table OutageRow → Db F
outages_only t = record (empty_db) { outages = t }

-- The users have keys of their own, at most one outage is open, and the stamps of outages are times.
abbrev pub IsKeyed : {F : Type 0} → Db F → Type 0
IsKeyed {F} d = HasKeys d.users × IsValid {F = F} (outages_only d.outages)

-- Besides, there is a user.
abbrev pub IsSound : {F : Type 0} → Db F → Type 0
IsSound d = IsKeyed d × (1 ≤ length d.users.rows)

module _ {F : Type 0} where
  pub IsKeyed-stable : IgnoresFaults (λ (d : Db F). IsKeyed d)
  IsKeyed-stable d faults h = h

  pub IsSound-stable : IgnoresFaults (λ (d : Db F). IsSound d)
  IsSound-stable d faults h = h

  -- Only the table of outages matters.
  pub IsValid-outages : (d d' : Db F) → d'.outages ≡ d.outages → IsValid d → IsValid d'
  unfolding count_open
  IsValid-outages d d' e v = record {
    one_open = omega (arith, v.one_open, same_count);
    readable = rw e v.readable;
  }
    where
      same_count : count_open d' ≡ count_open d
      same_count = ap (λ (t : Table OutageRow). count_open {F = F} (outages_only t)) e

  abbrev Safe : {A : Type 0} → (Db F → A × Db F) → Type 0
  Safe run = Preserves (λ (d : Db F). IsSound d) run

  pub reads_sound : {A : Type 0} (run : Db F → A × Db F) → Keeps tables run → Safe run
  reads_sound run k = tables-Preserves (λ (d : Db F). IsSound d) IsSound-stable run k

  pub save_settings-IsSound : (codec : Codec F) (x : Settings F) → Safe (save_settings codec x)
  unfolding save_settings put_settings
  save_settings-IsSound codec x =
      bind-Preserves _ _ _ (returns-Preserves _ (codec.marshal x))
        (λ raw. exec-Preserves _ IsSound-stable _ (λ d h. h))

  pub insert_speed_test-IsSound : (item : SpeedTest F) → Safe (insert_speed_test item)
  unfolding insert_speed_test add_speed_test
  insert_speed_test-IsSound item = statement-Preserves _ IsSound-stable _ (λ d h. h)

  pub insert_latency-IsSound : (item : LatencyCheck F) → Safe (insert_latency item)
  unfolding insert_latency add_latency
  insert_latency-IsSound item = statement-Preserves _ IsSound-stable _ (λ d h. h)

  pub insert_dns-IsSound : (item : DnsCheck F) → Safe (insert_dns item)
  unfolding insert_dns add_dns
  insert_dns-IsSound item = statement-Preserves _ IsSound-stable _ (λ d h. h)

  pub insert_router_traffic-IsSound :
      (codec : ClientsCodec F) (sample : RouterTrafficSample F)
      (clients : List (RouterTrafficClient F))
      → Safe (insert_router_traffic codec sample clients)
  unfolding insert_router_traffic add_router_traffic
  insert_router_traffic-IsSound codec sample clients =
      bind-Preserves _ _ _ (returns-Preserves _ (codec.marshal clients))
        (λ raw. statement-Preserves _ IsSound-stable _ (λ d h. h))

  -- A user that is added is one.
  pub add_user-IsSound :
      (username hash role : Text) (now : Time) (d : Db F)
      → IsKeyed d
      → IsSound (add_user username hash role now d)
  unfolding add_user
  add_user-IsSound username hash role now d (keys, outages) = (
    (add_user-HasKeys d username hash role now keys, outages),
    omega (arith, length-add_user d username hash role now),
  )

  pub create_user-IsSound :
      (username hash role : Text) (now : Time) → Safe (create_user username hash role now)
  unfolding create_user
  create_user-IsSound username hash role now = statement-Preserves _ IsSound-stable _ (λ d h.
      elim (Bool-cases (has_username username d.users.rows)) [
        | inl taken ↦ rw taken h
        | inr free ↦ rw free (add_user-IsSound username hash role now d h.0)
      ])

  pub update_user-IsSound :
      (id : ℤ) (username role : Text) (hash : Option Text) (now : Time)
      → Safe (update_user id username role hash now)
  unfolding update_user set_user
  update_user-IsSound id username role hash now = statement-Preserves _ IsSound-stable _ (λ d h.
      elim (Bool-cases (name_clash id username d.users.rows)) [
        | inl taken ↦ rw taken h
        | inr free ↦ rw free (changed d h)
      ])
    where
      changed : (d : Db F) → IsSound d → IsSound (set_user id username role hash now d)
      changed d ((keys, outages), some_) = (
        (set_user-HasKeys d id username role hash now keys, outages),
        omega (arith, length-set_user d id username role hash now),
      )

  -- A deletion may take the last user: its handler counts them before.
  pub delete_user-IsKeyed :
      (cascade : Bool) (id : ℤ) → Preserves (λ (d : Db F). IsKeyed d) (delete_user cascade id)
  unfolding delete_user remove_user
  delete_user-IsKeyed cascade id = exec-Preserves _ IsKeyed-stable _ (λ d h.
      if-either (λ (x : Db F). IsKeyed x) cascade _ _ (remove_user-HasKeys d id h.0, h.1)
        (remove_user-HasKeys d id h.0, h.1))

  pub delete_sessions_for_user-IsSound : (id : ℤ) → Safe (delete_sessions_for_user id)
  unfolding delete_sessions_for_user
  delete_sessions_for_user-IsSound id = exec-Preserves _ IsSound-stable _ (λ d h. h)

  pub delete_expired_sessions-IsSound : (now : Time) → Safe (delete_expired_sessions now)
  unfolding delete_expired_sessions
  delete_expired_sessions-IsSound now = exec-Preserves _ IsSound-stable _ (λ d h. h)

  module _ (digest : Text → Text) (token : Text) where
    pub create_session-IsSound :
        (user_id : ℕ) (now expires : Time) → Safe (create_session digest token user_id now expires)
    unfolding create_session add_session
    create_session-IsSound user_id now expires = statement-Preserves _ IsSound-stable _ (λ d h.
        elim (Bool-cases (any (λ s. text_eq s.token_hash (digest token)) d.sessions.rows)) [
          | inl taken ↦ rw taken h
          | inr free ↦ rw free h
        ])

    pub delete_session-IsSound : Safe (delete_session digest token)
    unfolding delete_session
    delete_session-IsSound = exec-Preserves _ IsSound-stable _ (λ d h. h)
