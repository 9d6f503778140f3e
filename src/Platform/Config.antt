-- ===== src/Platform/Config.antt =====
-- The configuration, src/platform/config.c and config.h. The structure is read by the key of a
-- setting, since every row of the table has a field of its own; all its texts are C strings. A file
-- is what `fgets` reads of it, and `getenv` is an argument. The texts of errors are left out.
pub mod File
pub mod Values
pub mod Settings
pub mod Fields
pub mod Secrets
pub mod Origins
mod Tests
use platform_service.Common.{
  ℕ, zero, suc, ◌+◌, ◌-◌, ◌*◌, ◌/◌, ◌%◌, ◌^◌, ◌≤◌, ◌<◌, min, code, String, ◌≡◌, refl, sym, ap, ◌∙◌,
  subst, ◌≢◌, ◌↔◌, ◌⊎◌, inl, inr, Bool, true, false, not, ◌&&◌, ◌||◌, Option, none, some, List, [],
  ◌∷◌, ◌++◌, append_assoc, append-nil, arith, Bytes, codes, ltb, leb, ◌==◌, if◌then◌else◌, ltb→lt,
  lt→ltb, leb→le, ==_iff, tests, Bool-cases, Option-cases, length, get_elem?, set, length-append,
  length-set, get_elem?-set_self, get_elem?-set_ne, get_or, take, drop, replicate, take-append-drop,
  take-append, length-take, length-drop, length-replicate, length-map, equal, equal_iff,
}
use platform_service.Common.Int.{ℤ, pos, negsuc, ltℤ}
use platform_service.Json.Value.{c_str}
use platform_service.Http.Request.Lines.{is_nil, upto, beyond, trim_right, ci_equal}
use platform_service.Http.Cors.{skip_separators}
use platform_service.Api.Routes.{is_space, signed}
use platform_service.Platform.Config.Settings.{
  SettingType, t_str, t_path, t_int, t_u16, t_bool, t_loglevel, Setting, settings,
}
use platform_service.Platform.Config.Values.{
  Config, ConfigError, ConfigResult, FieldValue, apply_value, assign, bad_value, cannot_open,
  env_only_setting, err, field_value, flag, integer, invalid, level, log_level, no_equals_sign,
  no_error_buffer, ok, out_of_fuel, parse_bool, parse_long, read_error, set_field, skip_spaces,
  text, unknown_setting, zeroed, ◌>>=◌,
}
use platform_service.Platform.Config.File.{
  ConfigFile, apply_found, apply_line, apply_pair, apply_trimmed, fgets, find_by_key, find_in,
  line_room, load_file, load_lines, no_path, opened, trim, trim_end, unopened,
}

unfoldable pub apply_defaults : List Setting → Config → ConfigResult
unfolding apply_value
apply_defaults [] cfg = ok cfg
apply_defaults (s ∷ ss) cfg = apply_value cfg s s.dflt >>= apply_defaults ss

unfoldable pub apply_env : Config → Setting → Option Bytes → ConfigResult
unfolding apply_value
apply_env cfg s none = ok cfg
apply_env cfg s (some v) = if is_nil v then ok cfg else apply_value cfg s v

unfoldable pub apply_environment : (Bytes → Option Bytes) → List Setting → Config → ConfigResult
unfolding apply_env
apply_environment getenv [] cfg = ok cfg
apply_environment getenv (s ∷ ss) cfg =
    apply_env cfg s (getenv s.env) >>= apply_environment getenv ss

unfoldable pub wildcard_from : ℕ → Bytes → Bool
wildcard_from zero csv = false
wildcard_from (suc fuel) csv = elim (skip_separators csv) [
  | [] ↦ false
  | c ∷ cs ↦
      let later = wildcard_from fuel (beyond b',' (c ∷ cs)) in
      if equal (trim_right (upto b',' (c ∷ cs))) (codes "*") then true else later
]

-- `cors_origins_contains_wildcard`; a round takes a byte at least.
unfoldable pub contains_wildcard : Bytes → Bool
unfolding wildcard_from
contains_wildcard csv = wildcard_from (suc (length csv)) csv

abbrev as_text : FieldValue → Bytes
as_text (text t) = t
as_text zeroed = []
as_text (integer n) = []
as_text (flag b) = []
as_text (level n) = []

abbrev as_int : FieldValue → ℤ
as_int (integer n) = n
as_int zeroed = pos 0
as_int (text t) = pos 0
as_int (flag b) = pos 0
as_int (level n) = pos 0

abbrev as_bool : FieldValue → Bool
as_bool (flag b) = b
as_bool zeroed = false
as_bool (text t) = false
as_bool (integer n) = false
as_bool (level n) = false

abbrev pub text_at : Config → String → Bytes
text_at cfg key = as_text (cfg (codes key))

abbrev pub int_at : Config → String → ℤ
int_at cfg key = as_int (cfg (codes key))

abbrev pub bool_at : Config → String → Bool
bool_at cfg key = as_bool (cfg (codes key))

-- `PS_JWT_SECRET_MIN`.
abbrev pub secret_min : ℕ
secret_min = 32

-- A test that refuses the configuration, and the tests behind it.
infix 1 refuse◌else◌
unfoldable pub refuse◌else◌ : Bool → Bool → Bool
refuse true else later = false
refuse false else later = later

-- `ps_config_validate`.
unfoldable pub validate : Config → Bool
unfolding contains_wildcard
validate cfg =
    refuse ltb (length (text_at cfg "auth.jwt_secret")) secret_min
    else refuse ltℤ (int_at cfg "auth.access_token_ttl_s") (pos 1)
    else refuse ltℤ (int_at cfg "auth.refresh_absolute_ttl_s")
        (int_at cfg "auth.refresh_idle_ttl_s")
    else refuse ltℤ (int_at cfg "auth.kdf_iterations") (pos 1000)
    else refuse ltℤ (int_at cfg "auth.password_min_length") (pos 8)
        || ltℤ (int_at cfg "auth.password_max_length") (int_at cfg "auth.password_min_length")
    else refuse ltℤ (int_at cfg "auth.lockout_threshold") (pos 1)
    else refuse ltℤ (int_at cfg "maintenance.batch_size") (pos 1)
    else refuse ltℤ (int_at cfg "ratelimit.max_entries") (pos 1)
    else refuse ltℤ (int_at cfg "http.max_body_bytes") (pos 1)
        || ltℤ (int_at cfg "http.max_header_bytes") (pos 1)
        || ltℤ (int_at cfg "http.max_request_line") (pos 1)
        || ltℤ (int_at cfg "http.max_header_count") (pos 1)
    else not (
        bool_at cfg "cors.allow_credentials"
        && contains_wildcard (text_at cfg "cors.allowed_origins"))

-- `ps_config_load`; `reports` says that there is a structure and room for the text of an error.
unfoldable pub config_load : Bool → (Bytes → Option Bytes) → ConfigFile → ConfigResult
unfolding apply_defaults load_file apply_environment validate
config_load reports getenv file =
    if not reports
    then err no_error_buffer
    else apply_defaults settings (λ k. zeroed)
      >>= (λ cfg. load_file cfg file)
      >>= apply_environment getenv settings
      >>= (λ cfg. if validate cfg then ok cfg else err invalid)

unfoldable pub wipe : List Setting → Config → Config
unfolding set_field
wipe [] cfg = cfg
wipe (s ∷ ss) cfg = wipe ss (if s.secret then set_field cfg s.key zeroed else cfg)

-- `ps_config_free`.
unfoldable pub config_free : Config → Config
unfolding wipe
config_free cfg = wipe settings cfg
