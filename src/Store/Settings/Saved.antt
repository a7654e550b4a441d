-- ===== src/Store/Settings/Saved.antt =====
-- Saved settings are read back.
use homelink_monitor.Base.{
  ℕ, ◌≡◌, refl, ap, ◌∙◌, true, Option, none, some, List, [], ◌∷◌, ◌++◌, Text, text_eq, text_eq_refl,
  bytes, ok, if◌then◌else◌, any, Bool-cases, inl, inr, ◌⊎◌,
}
use homelink_monitor.Domain.{Settings, default_settings}
use homelink_monitor.Store.Schema.{Db, SettingRow, update_where}
use homelink_monitor.Store.Schema.Rules.{execute_of_nil}
use homelink_monitor.Store.Settings.{
  Codec, last_value, upsert, read_value, settings, put_settings, save_settings,
}

last_value-append :
    (key value : Text) (rows : List SettingRow) (found : Option Text)
    → last_value key (rows ++ record { key = key; value = value } ∷ []) found ≡ some value
unfolding last_value
last_value-append key value [] found = rw (text_eq_refl key) refl
last_value-append key value (r ∷ rows) found =
    last_value-append key value rows (if text_eq r.key key then some r.value else found)

-- Whatever was found before, an updated row of the key decides.
last_value-update_where :
    (key value : Text) (rows : List SettingRow) (found : Option Text)
    → (any (λ r. text_eq r.key key) rows ≡ true) ⊎ (found ≡ some value)
    → last_value key
        (update_where (λ r. text_eq r.key key) (λ r. record r { value = value }) rows)
        found
      ≡ some value
unfolding last_value
last_value-update_where key value [] found (inl h) = cc
last_value-update_where key value [] found (inr h) = h
last_value-update_where key value (r ∷ rows) found h = elim (Bool-cases (text_eq r.key key)) [
  | inl hit ↦ rw (hit, hit) (last_value-update_where key value rows (some value) (inr refl))
  | inr miss ↦
      rw (miss, miss)
        (last_value-update_where key value rows found
          (elim h [ inl e ↦ inl (rw miss at e) | inr e ↦ inr e ]))
]

last_value-upsert :
    (key value : Text) (rows : List SettingRow)
    → last_value key (upsert key value rows) none ≡ some value
unfolding upsert
last_value-upsert key value rows = elim (Bool-cases (any (λ r. text_eq r.key key) rows)) [
  | inl there ↦ rw there (last_value-update_where key value rows none (inl there))
  | inr absent ↦ rw absent (last_value-append key value rows none)
]

module _ {F : Type 0} (of_nat : ℕ → F) (codec : Codec F) where
  settings_of :
      (d : Db F)
      → d.faults ≡ []
      → settings of_nat codec d
        ≡ (read_value of_nat codec (last_value (bytes "settings") d.settings none), d)
  unfolding settings
  settings_of d f =
      rw (execute_of_nil (λ d'. (ok (last_value (bytes "settings") d'.settings none), d')) d f) refl

  pub save_settings_of :
      (s : Settings F) (raw : Text) (d : Db F)
      → d.faults ≡ []
      → codec.marshal s ≡ ok raw
      → save_settings codec s d ≡ (ok tt, put_settings codec raw d)
  unfolding save_settings
  save_settings_of s raw d f m =
      rw m (execute_of_nil (λ d'. (ok tt, put_settings codec raw d')) d f)

  -- With no failing statement, settings that JSON encodes, and decodes over the default settings to
  -- what they were, are read back once saved, whatever was stored before.
  pub settings-save_settings :
      (s : Settings F) (raw : Text) (d : Db F)
      → d.faults ≡ []
      → codec.marshal s ≡ ok raw
      → codec.unmarshal raw (default_settings of_nat) ≡ ok s
      → (settings of_nat codec (save_settings codec s d).1).0 ≡ ok s
  unfolding put_settings
  settings-save_settings s raw d f m u =
      ap (λ x. (settings of_nat codec x.1).0) (save_settings_of s raw d f m)
      ∙ ap (λ x. x.0) (settings_of (put_settings codec raw d) f)
      ∙ ap (λ value. read_value of_nat codec value)
          (last_value-upsert (bytes "settings") raw d.settings)
      ∙ u
