-- ===== src/Config.antt =====
-- services/api/internal/config/config.go. `os.Getenv` is a parameter.
use homelink_monitor.Base.{
  Bool, true, false, Text, List, [], ◌∷◌, bytes, is_empty, text_eq, any, if◌then◌else◌,
}

pub record Config : Type 0 where
  pub addr : Text
  pub db_path : Text
  pub static_path : Text
  pub app_env : Text
  pub admin_username : Text
  pub admin_password : Text
  pub auth_cookie_secure : Bool
  pub event_outbox_dir : Text
  pub dsm_notifications_enabled : Bool

abbrev yes_words : List Text
yes_words =
    bytes "1"
    ∷ bytes "true"
    ∷ bytes "TRUE"
    ∷ bytes "yes"
    ∷ bytes "YES"
    ∷ bytes "on"
    ∷ bytes "ON"
    ∷ []

abbrev no_words : List Text
no_words =
    bytes "0"
    ∷ bytes "false"
    ∷ bytes "FALSE"
    ∷ bytes "no"
    ∷ bytes "NO"
    ∷ bytes "off"
    ∷ bytes "OFF"
    ∷ []

module _ (getenv : Text → Text) where
  unfoldable pub value : Text → Text → Text
  value key fallback = if is_empty (getenv key) then fallback else getenv key

  unfoldable pub bool_value : Text → Bool → Bool
  bool_value key fallback =
      if any (text_eq (getenv key)) yes_words
      then true
      else if any (text_eq (getenv key)) no_words
      then false
      else fallback

  unfoldable pub load : Config
  load = record {
    addr = value (bytes "ADDR") (bytes ":8080");
    db_path = value (bytes "DB_PATH") (bytes "./connection-monitor.db");
    static_path = value (bytes "STATIC_PATH") (bytes "../../apps/web/dist");
    app_env = value (bytes "APP_ENV") (bytes "development");
    admin_username = getenv (bytes "ADMIN_USERNAME");
    admin_password = getenv (bytes "ADMIN_PASSWORD");
    auth_cookie_secure = bool_value (bytes "AUTH_COOKIE_SECURE") false;
    event_outbox_dir = getenv (bytes "EVENT_OUTBOX_DIR");
    dsm_notifications_enabled = bool_value (bytes "DSM_NOTIFICATIONS_ENABLED") false;
  }
