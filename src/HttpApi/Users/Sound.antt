-- ===== src/HttpApi/Users/Sound.antt =====
-- The handlers of users, login and logout keep the database sound.
use homelink_monitor.Base.{
  ℕ, Bool, true, false, Option, none, some, Text, Result, ok, err, Eff, ℤ, pos, Bool-cases, inl,
  inr, is_empty, refl, trim_space, ◌+◌, leb,
}
use homelink_monitor.Domain.{Time, User}
use homelink_monitor.Store.Schema.{Db, returns}
use homelink_monitor.Store.Schema.Preserves.{
  Preserves, returns-Preserves, handled-Preserves, bind-Preserves, tables-Preserves,
}
use homelink_monitor.Store.Quiet.{user_count-Keeps, user_by_username-Keeps, user_by_id-Keeps}
use homelink_monitor.Store.Users.{
  user_count, user_by_id, user_by_username, delete_expired_sessions, create_session, create_user,
  update_user, delete_user,
}
use homelink_monitor.Store.Sound.{
  IsKeyed, IsSound, IsKeyed-stable, reads_sound, create_user-IsSound, update_user-IsSound,
  delete_user-IsKeyed, delete_sessions_for_user-IsSound, delete_expired_sessions-IsSound,
  create_session-IsSound, delete_session-IsSound,
}
use homelink_monitor.Auth.{Bcrypt, login, logout, session_time, check_password, hash_password}
use homelink_monitor.HttpApi.Users.{
  Response, UserRequest, normalize, validate_user_request, optional_hash, or_reply, reply_on,
  user_reply, drop_sessions, delete_counted, delete_known, is_current, delete_user_handler,
  create_user_handler, update_user_handler, login_handler, logout_handler,
}
use homelink_monitor.HttpApi.Users.Safety.{delete_uncurrent-IsInhabited}

module _ {F : Type 0} where
  abbrev Safe : {A : Type 0} → (Db F → A × Db F) → Type 0
  Safe run = Preserves (λ (d : Db F). IsSound d) run

  or_reply-Preserves :
      {A : Type 0} (P : Db F → Type 0) (r : Result A) (code : ℕ) (next : A → Db F → Response × Db F)
      → ((a : A) → Preserves P (next a))
      → Preserves P (or_reply r code next)
  or_reply-Preserves P (ok a) code next k d h = k a d h
  or_reply-Preserves P (err e) code next k d h = h

  reply_on-Preserves :
      {A : Type 0} (P : Db F → Type 0) (call : Eff (Db F) A) (code : ℕ)
      (next : A → Db F → Response × Db F)
      → Preserves P call
      → ((a : A) → Preserves P (next a))
      → Preserves P (reply_on call code next)
  reply_on-Preserves P call code next first k d h =
      handled-Preserves P (call d) _ next (first d h) (λ e d' h'. h') k

  user_reply-IsSound : (id : ℤ) → Safe (user_reply id)
  unfolding user_reply
  user_reply-IsSound id =
      reply_on-Preserves _ _ 500 _ (reads_sound (user_by_id id) (user_by_id-Keeps id))
        (λ user d h. h)

  drop_sessions-IsSound : (id : ℤ) (hash : Option Text) → Safe (drop_sessions id hash)
  drop_sessions-IsSound id none = user_reply-IsSound id
  drop_sessions-IsSound id (some hash) =
      reply_on-Preserves _ _ 500 _ (delete_sessions_for_user-IsSound id)
        (λ _. user_reply-IsSound id)

  pub create_user_handler-IsSound :
      (bcrypt : Bcrypt) (bound : Result UserRequest) (now : Time)
      → Safe (create_user_handler bcrypt bound now)
  unfolding create_user_handler
  create_user_handler-IsSound bcrypt bound now =
      let P : Db F → Type 0 = λ d. IsSound d in
      or_reply-Preserves P bound 400 _ (λ sent.
        let r = normalize sent in
        or_reply-Preserves P (validate_user_request r true) 400 _ (λ _.
          or_reply-Preserves P (hash_password bcrypt r.password) 400 _ (λ hash.
            reply_on-Preserves P (create_user r.username hash r.role now) 400 _
              (create_user-IsSound r.username hash r.role now)
              (λ id. user_reply-IsSound (pos id)))))

  pub update_user_handler-IsSound :
      (bcrypt : Bcrypt) (path_id : Result ℤ) (bound : Result UserRequest) (now : Time)
      → Safe (update_user_handler bcrypt path_id bound now)
  unfolding update_user_handler
  update_user_handler-IsSound bcrypt path_id bound now =
      let P : Db F → Type 0 = λ d. IsSound d in
      or_reply-Preserves P path_id 400 _ (λ id. or_reply-Preserves P bound 400 _ (λ sent.
        let r = normalize sent in
        or_reply-Preserves P (validate_user_request r false) 400 _ (λ _.
          or_reply-Preserves P (optional_hash bcrypt r.password) 400 _ (λ hash.
            reply_on-Preserves P (update_user id r.username r.role hash now) 400 _
              (update_user-IsSound id r.username r.role hash now)
              (λ _. drop_sessions-IsSound id hash)))))

  delete_counted-IsKeyed :
      (cascade : Bool) (id : ℤ) (count : ℕ)
      → Preserves (λ (d : Db F). IsKeyed d) (delete_counted cascade id count)
  delete_counted-IsKeyed cascade id count d h = elim (Bool-cases (leb count 1)) [
    | inl last ↦ rw last h
    | inr more ↦ rw more (
        reply_on-Preserves (λ (d : Db F). IsKeyed d) (delete_user cascade id) 400 _
          (delete_user-IsKeyed cascade id) (λ _ d' h'. h') d h)
  ]

  delete_known-IsSound :
      (cascade : Bool) (current : Option User) (id : ℤ) → Safe (delete_known cascade current id)
  delete_known-IsSound cascade current id d h = elim (Bool-cases (is_current id current)) [
    | inl hit ↦ rw hit h
    | inr other ↦ rw other (
      reply_on-Preserves (λ (d : Db F). IsKeyed d) user_count 500 _
          (tables-Preserves _ IsKeyed-stable user_count user_count-Keeps)
          (delete_counted-IsKeyed cascade id) d h.0,
      (delete_uncurrent-IsInhabited id none refl cascade d ((h.1, tt), h.0.0.0)).0,
    )
  ]

  pub delete_user_handler-IsSound :
      (cascade : Bool) (path_id : Result ℤ) (current : Option User)
      → Safe (delete_user_handler cascade path_id current)
  unfolding delete_user_handler
  delete_user_handler-IsSound cascade path_id current =
      or_reply-Preserves (λ (d : Db F). IsSound d) path_id 400 _
        (delete_known-IsSound cascade current)

  login-IsSound :
      (bcrypt : Bcrypt) (digest : Text → Text) (username password : Text) (now : Time)
      (token : Result Text)
      → Safe (login bcrypt digest username password now token)
  unfolding login
  login-IsSound bcrypt digest username password now token =
      let P : Db F → Type 0 = λ d. IsSound d in
      bind-Preserves P (delete_expired_sessions now) _ (delete_expired_sessions-IsSound now) (λ _.
        bind-Preserves P (user_by_username (trim_space username)) _
          (reads_sound (user_by_username (trim_space username))
            (user_by_username-Keeps (trim_space username)))
          (λ found.
            bind-Preserves P (returns (check_password bcrypt password found)) _
              (returns-Preserves P (check_password bcrypt password found))
              (λ u. bind-Preserves P (returns token) _ (returns-Preserves P token) (λ fresh.
                bind-Preserves P (create_session digest fresh u.user.id now (now + session_time)) _
                  (create_session-IsSound digest fresh u.user.id now (now + session_time))
                  (λ _ d h. h)))))

  pub login_handler-IsSound :
      (bcrypt : Bcrypt) (digest : Text → Text) (secure : Bool) (bound : Result (Text × Text))
      (now : Time) (token : Result Text)
      → Safe (login_handler bcrypt digest secure bound now token)
  unfolding login_handler
  login_handler-IsSound bcrypt digest secure bound now token =
      let P : Db F → Type 0 = λ d. IsSound d in
      or_reply-Preserves P bound 400 _ (λ sent.
        reply_on-Preserves P (login bcrypt digest sent.0 sent.1 now token) 401 _
          (login-IsSound bcrypt digest sent.0 sent.1 now token) (λ found d h. h))

  logout-IsSound : (digest : Text → Text) (token : Text) → Safe (logout digest token)
  unfolding logout
  logout-IsSound digest token d h = elim (Bool-cases (is_empty token)) [
    | inl empty ↦ rw (logout, empty) h
    | inr given ↦ rw (logout, given) (delete_session-IsSound digest token d h)
  ]

  pub logout_handler-IsSound :
      (digest : Text → Text) (secure : Bool) (cookie : Option Text)
      → Safe (logout_handler digest secure cookie)
  unfolding logout_handler
  logout_handler-IsSound digest secure none d h = h
  logout_handler-IsSound digest secure (some value) d h =
      reply_on-Preserves (λ (d : Db F). IsSound d) (logout digest value) 500 _
        (logout-IsSound digest value) (λ _ d h. h) d h
