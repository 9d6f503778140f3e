-- ===== src/Platform/Config/Settings.antt =====
-- The table of the settings, src/platform/config.c.
use platform_service.Common.{ℕ, String, Bool, true, false, List, [], ◌∷◌, Bytes, codes}

-- `ps_type_t`.
pub data SettingType : Type 0 where
  t_str t_path t_int t_u16 t_bool t_loglevel : SettingType

-- `ps_setting_t`. No key and no name of a variable is NULL in the table. The field is the one that
-- the key names, and `size` its size in bytes.
pub record Setting : Type 0 where
  pub key : Bytes
  pub env : Bytes
  pub type : SettingType
  pub size : ℕ
  pub dflt : Bytes
  pub secret : Bool
  pub env_only : Bool

unfoldable pub setting : String → String → SettingType → ℕ → String → Bool → Bool → Setting
setting key env type size dflt secret env_only = record {
  key = codes key;
  env = codes env;
  type = type;
  size = size;
  dflt = codes dflt;
  secret = secret;
  env_only = env_only;
}

unfoldable pub settings : List Setting
unfolding setting
settings =
    setting "server.bind_address" "PS_BIND_ADDRESS" t_str 256 "127.0.0.1" false false
    ∷ setting "server.port" "PS_PORT" t_u16 2 "8443" false false
    ∷ setting "server.dev_mode" "PS_DEV_MODE" t_bool 1 "false" false false
    ∷ setting "server.worker_threads" "PS_WORKER_THREADS" t_int 4 "0" false false
    ∷ setting "server.accept_queue_depth" "PS_ACCEPT_QUEUE_DEPTH" t_int 4 "256" false false
    ∷ setting "server.shutdown_grace_s" "PS_SHUTDOWN_GRACE_S" t_int 4 "30" false false
    ∷ setting "http.max_request_line" "PS_MAX_REQUEST_LINE" t_int 4 "8192" false false
    ∷ setting "http.max_header_bytes" "PS_MAX_HEADER_BYTES" t_int 4 "16384" false false
    ∷ setting "http.max_header_count" "PS_MAX_HEADER_COUNT" t_int 4 "64" false false
    ∷ setting "http.max_body_bytes" "PS_MAX_BODY_BYTES" t_int 4 "1048576" false false
    ∷ setting "http.read_timeout_s" "PS_READ_TIMEOUT_S" t_int 4 "30" false false
    ∷ setting "http.write_timeout_s" "PS_WRITE_TIMEOUT_S" t_int 4 "30" false false
    ∷ setting "http.keepalive_idle_s" "PS_KEEPALIVE_IDLE_S" t_int 4 "15" false false
    ∷ setting "http.keepalive_max_requests" "PS_KEEPALIVE_MAX_REQUESTS" t_int 4 "100" false false
    ∷ setting "cors.allowed_origins" "PS_CORS_ALLOWED_ORIGINS" t_str 256 "" false false
    ∷ setting "cors.allow_credentials" "PS_CORS_ALLOW_CREDENTIALS" t_bool 1 "false" false false
    ∷ setting "tls.enabled" "PS_TLS_ENABLED" t_bool 1 "true" false false
    ∷ setting "tls.cert_path" "PS_TLS_CERT_PATH" t_path 512 "./certs/dev-cert.pem" false false
    ∷ setting "tls.key_path" "PS_TLS_KEY_PATH" t_path 512 "./certs/dev-key.pem" false false
    ∷ setting "db.path" "PS_DB_PATH" t_path 512 "./data/platform.db" false false
    ∷ setting "db.busy_timeout_ms" "PS_DB_BUSY_TIMEOUT_MS" t_int 4 "5000" false false
    ∷ setting "auth.access_token_ttl_s" "PS_ACCESS_TOKEN_TTL_S" t_int 4 "900" false false
    ∷ setting "auth.refresh_idle_ttl_s" "PS_REFRESH_IDLE_TTL_S" t_int 4 "2592000" false false
    ∷ setting "auth.refresh_absolute_ttl_s" "PS_REFRESH_ABSOLUTE_TTL_S" t_int 4 "7776000" false
        false
    ∷ setting "auth.verification_ttl_s" "PS_VERIFICATION_TTL_S" t_int 4 "86400" false false
    ∷ setting "auth.kdf_iterations" "PS_KDF_ITERATIONS" t_int 4 "600000" false false
    ∷ setting "auth.lockout_threshold" "PS_LOCKOUT_THRESHOLD" t_int 4 "10" false false
    ∷ setting "auth.lockout_duration_s" "PS_LOCKOUT_DURATION_S" t_int 4 "900" false false
    ∷ setting "auth.password_min_length" "PS_PASSWORD_MIN_LENGTH" t_int 4 "12" false false
    ∷ setting "auth.password_max_length" "PS_PASSWORD_MAX_LENGTH" t_int 4 "128" false false
    ∷ setting "auth.jwt_issuer" "PS_JWT_ISSUER" t_str 256 "platformservice" false false
    ∷ setting "auth.jwt_audience" "PS_JWT_AUDIENCE" t_str 256 "platformservice-api" false false
    ∷ setting "auth.jwt_secret" "PS_JWT_SECRET" t_str 512 "" true true
    ∷ setting "bootstrap.admin_username" "BOOTSTRAP_ADMIN_USERNAME" t_str 256 "" false true
    ∷ setting "bootstrap.admin_email" "BOOTSTRAP_ADMIN_EMAIL" t_str 256 "" false true
    ∷ setting "bootstrap.admin_password" "BOOTSTRAP_ADMIN_PASSWORD" t_str 512 "" true true
    ∷ setting "maintenance.interval_s" "PS_MAINTENANCE_INTERVAL_S" t_int 4 "3600" false false
    ∷ setting "maintenance.batch_size" "PS_MAINTENANCE_BATCH_SIZE" t_int 4 "1000" false false
    ∷ setting "audit.retention_days" "PS_AUDIT_RETENTION_DAYS" t_int 4 "365" false false
    ∷ setting "ratelimit.max_entries" "PS_RATELIMIT_MAX_ENTRIES" t_int 4 "100000" false false
    ∷ setting "ratelimit.login_per_minute" "PS_RATELIMIT_LOGIN" t_int 4 "10" false false
    ∷ setting "ratelimit.login_username_per_minute" "PS_RATELIMIT_LOGIN_USERNAME" t_int 4 "10" false
        false
    ∷ setting "ratelimit.register_per_minute" "PS_RATELIMIT_REGISTER" t_int 4 "5" false false
    ∷ setting "ratelimit.register_global_per_minute" "PS_RATELIMIT_REGISTER_GLOBAL" t_int 4 "50"
        false false
    ∷ setting "ratelimit.resend_min_interval_s" "PS_RESEND_MIN_INTERVAL_S" t_int 4 "60" false false
    ∷ setting "ratelimit.resend_max_per_day" "PS_RESEND_MAX_PER_DAY" t_int 4 "5" false false
    ∷ setting "auth.common_passwords_path" "PS_COMMON_PASSWORDS_PATH" t_path 512
        "./data/common-passwords.txt" false false
    ∷ setting "log.level" "PS_LOG_LEVEL" t_loglevel 4 "INFO" false false
    ∷ []
