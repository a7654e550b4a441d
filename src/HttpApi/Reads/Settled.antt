-- ===== src/HttpApi/Reads/Settled.antt =====
-- Settings that a client saved are those that the API answers.
use homelink_monitor.Base.{◌≡◌, sym, ap, arith, ◌∙◌, Text, [], ok, Eff, Floats}
use homelink_monitor.Domain.{Settings, default_settings}
use homelink_monitor.Store.Schema.{Db}
use homelink_monitor.Store.Settings.{Codec, settings, save_settings}
use homelink_monitor.Store.Settings.Saved.{settings-save_settings, save_settings_of}
use homelink_monitor.HttpApi.Settings.{normalize_settings}
use homelink_monitor.HttpApi.Reads.{
  Payload, json, respond, of_settings, settings_handler, save_settings_handler,
}

module _ {F : Type 0} where
  respond-db :
      {A : Type 0} (payload : A → Payload F) (call : Eff (Db F) A) (d : Db F)
      → (respond payload call d).1 ≡ (call d).1
  unfolding respond
  respond-db payload call d = ground arith

  respond_ok :
      {A : Type 0} (payload : A → Payload F) (call : Eff (Db F) A) (d : Db F) (a : A)
      → (call d).0 ≡ ok a
      → (respond payload call d).0 ≡ json 200 (payload a)
  unfolding respond
  respond_ok payload call d a e = ground arith

module _ {F : Type 0} (fl : Floats F) (codec : Codec F) where
  -- With no failing statement, if encoding/json decodes the normalised settings, over the default
  -- ones, from the text that it made of them: `saveSettings` answers the normalised settings, and
  -- `settings` answers the same after it, whatever was stored before.
  pub settings_handler-save_settings_handler :
      (sent : Settings F) (raw : Text) (d : Db F)
      → d.faults ≡ []
      → codec.marshal (normalize_settings fl sent) ≡ ok raw
      → codec.unmarshal raw (default_settings fl.of_nat) ≡ ok (normalize_settings fl sent)
      → let saved = save_settings_handler fl codec (ok sent) d in
        (saved.0 ≡ json 200 (of_settings (normalize_settings fl sent)))
        × ((settings_handler fl codec saved.1).0 ≡ saved.0)
  unfolding save_settings_handler settings_handler
  settings_handler-save_settings_handler sent raw d f m u =
      let s = normalize_settings fl sent in
      let saved : (save_settings_handler fl codec (ok sent) d).0 ≡ json 200 (of_settings s) =
        respond_ok (λ _. of_settings s) (save_settings codec s) d tt
          (ap (λ x. x.0) (save_settings_of fl.of_nat codec s raw d f m)) in
      let same : (save_settings_handler fl codec (ok sent) d).1 ≡ (save_settings codec s d).1 =
        respond-db (λ _. of_settings s) (save_settings codec s) d in
      (
        saved,
        ap (λ d'. (settings_handler fl codec d').0) same
            ∙ respond_ok of_settings (settings fl.of_nat codec) (save_settings codec s d).1 s
                (settings-save_settings fl.of_nat codec s raw d f m u)
            ∙ sym saved,
      )
