-- ===== src/Platform/Config/Tests.antt =====
-- Runs of the loading of the configuration, and instances of its theorems.
use platform_service.Http.Cors.{CorsResult, policy_init, wildcard_with_credentials}
use platform_service.Common.{
  ◌≢◌, ◌≤◌, ◌<◌, ◌≡◌, refl, true, false, Option, none, some, Bytes, codes, if◌then◌else◌, length,
  equal,
}
use platform_service.Http.Request.Lines.{upto, beyond, trim_right, ci_equal, decimal_from}
use platform_service.Json.Value.{c_str}
use platform_service.Http.Cors.{skip_separators}
use platform_service.Api.Routes.{signed}
use platform_service.Platform.Config.Settings.{settings, setting}
use platform_service.Platform.Config.{
  config_load, secret_min, text_at, bool_at, apply_defaults, apply_env, apply_environment, validate,
  refuse◌else◌, contains_wildcard, wildcard_from,
}
use platform_service.Platform.Config.File.{
  ConfigFile, no_path, opened, trim, trim_end, find_in, find_by_key, apply_found, apply_pair,
  apply_trimmed, apply_line, fgets, load_lines, load_file,
}
use platform_service.Platform.Config.Values.{
  Config, ConfigResult, ok, err, env_only_setting, unknown_setting, invalid, zeroed, text,
  set_field, assign, field_value, parse_bool, parse_long, log_level, skip_spaces, apply_value,
}
use platform_service.Platform.Config.Origins.{policy_init-config_load}
use platform_service.Platform.Config.Secrets.{config_load-secret}

abbrev secret : Bytes
secret = codes "0123456789abcdef0123456789abcdef"

abbrev environment : Bytes → Option Bytes
environment name = if equal name (codes "PS_JWT_SECRET") then some secret else none

abbrev file : ConfigFile
file = opened (codes "# a comment\n server.port = 9000 \n") false

abbrev config_of : ConfigResult → Config
config_of (ok cfg) = cfg
config_of (err e) = λ k. zeroed

abbrev loaded : Config
loaded = config_of (config_load true environment file)

refuses :
    (config_load true environment (opened (codes "auth.jwt_secret=0123") false)
      ≡ err env_only_setting)
    × (config_load true environment (opened (codes "server.prt=1") false) ≡ err unknown_setting)
    × (config_load true (λ name. none) no_path ≡ err invalid)
unfolding config_load set_field assign field_value parse_bool parse_long log_level skip_spaces
    apply_value trim trim_end find_in find_by_key apply_found apply_pair apply_trimmed apply_line
    fgets load_lines load_file apply_defaults apply_env apply_environment validate refuse◌else◌
    contains_wildcard wildcard_from settings setting equal c_str upto beyond trim_right ci_equal
    signed decimal_from skip_separators
refuses = (refl, refl, refl)

loads : config_load true environment file ≡ ok loaded
unfolding config_load set_field assign field_value parse_bool parse_long log_level skip_spaces
    apply_value trim trim_end find_in find_by_key apply_found apply_pair apply_trimmed apply_line
    fgets load_lines load_file apply_defaults apply_env apply_environment validate refuse◌else◌
    contains_wildcard wildcard_from settings setting equal c_str upto beyond trim_right ci_equal
    signed decimal_from skip_separators
loads = refl

config_load-secret_example :
    (v : Bytes) × (environment (codes "PS_JWT_SECRET") ≡ some v)
    × (loaded (codes "auth.jwt_secret") ≡ text v)
    × (secret_min ≤ length v)
    × (length v < 512)
config_load-secret_example = config_load-secret true environment file loaded loads

policy_init-config_load_example :
    policy_init true
      (text_at loaded "cors.allowed_origins")
      (bool_at loaded "cors.allow_credentials")
    ≢ CorsResult.err wildcard_with_credentials
policy_init-config_load_example = policy_init-config_load true environment file loaded loads
