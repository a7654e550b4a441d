-- ===== src/Store/Settings.antt =====
-- `Settings` and `SaveSettings` of services/api/internal/store/store.go. encoding/json is a
-- parameter; `Unmarshal` fills the settings that it is given.
pub mod Saved
use homelink_monitor.Base.{
  ℕ, Option, none, some, List, [], ◌∷◌, ◌++◌, Text, text_eq, bytes, Result, ok, Eff, ◌>>=◌,
  if◌then◌else◌, any,
}
use homelink_monitor.Domain.{Settings, default_settings}
use homelink_monitor.Store.Schema.{Db, SettingRow, exec, query, returns, update_where}

pub record Codec (F : Type 0) : Type 0 where
  pub marshal : Settings F → Result Text
  pub unmarshal : Text → Settings F → Result (Settings F)

-- `values[key]` after the loop over the rows; `found` is the value so far.
unfoldable pub last_value : Text → List SettingRow → Option Text → Option Text
last_value key [] found = found
last_value key (r ∷ rows) found =
    last_value key rows (if text_eq r.key key then some r.value else found)

-- `INSERT … ON CONFLICT(key) DO UPDATE SET value = excluded.value`.
unfoldable pub upsert : Text → Text → List SettingRow → List SettingRow
upsert key value rows =
    if any (λ r. text_eq r.key key) rows
    then update_where (λ r. text_eq r.key key) (λ r. record r { value = value }) rows
    else rows ++ record { key = key; value = value } ∷ []

module _ {F : Type 0} (of_nat : ℕ → F) (codec : Codec F) where
  abbrev pub read_value : Option Text → Result (Settings F)
  read_value none = ok (default_settings of_nat)
  read_value (some raw) = codec.unmarshal raw (default_settings of_nat)

  unfoldable pub settings : Eff (Db F) (Settings F)
  settings = do
    value ← query (λ d. last_value (bytes "settings") d.settings none)
    returns (read_value value)

module _ {F : Type 0} (codec : Codec F) where
  unfoldable pub put_settings : Text → Db F → Db F
  put_settings raw d = record d { settings = upsert (bytes "settings") raw d.settings }

  unfoldable pub save_settings : Settings F → Eff (Db F) (Unit {0})
  save_settings s = do raw ← returns (codec.marshal s); exec (put_settings raw)
