-- ===== src/Platform/Config/Values.antt =====
-- What the settings of src/platform/config.c hold, and how a text is put into a field.
use platform_service.Common.{
  ℕ, Bool, true, false, ◌||◌, Option, none, some, [], ◌∷◌, Bytes, codes, leb, if◌then◌else◌, length,
  equal,
}
use platform_service.Common.Int.{ℤ, pos, negsuc, ltℤ}
use platform_service.Http.Request.Lines.{ci_equal}
use platform_service.Api.Routes.{is_space, signed}
use platform_service.Platform.Config.Settings.{
  SettingType, t_str, t_path, t_int, t_u16, t_bool, t_loglevel, Setting,
}

-- What a field holds: nothing but zeros, a text, a number, a flag or a log level.
pub data FieldValue : Type 0 where
  zeroed : FieldValue
  text : Bytes → FieldValue
  integer : ℤ → FieldValue
  flag : Bool → FieldValue
  level : ℕ → FieldValue

-- `ps_config_t`.
abbrev pub Config : Type 0
Config = Bytes → FieldValue

unfoldable pub set_field : Config → Bytes → FieldValue → Config
set_field cfg key v = λ k. if equal k key then v else cfg k

pub data ConfigError : Type 0 where
  no_error_buffer bad_value cannot_open read_error : ConfigError
  no_equals_sign unknown_setting env_only_setting invalid out_of_fuel : ConfigError

pub data ConfigResult : Type 0 where
  ok : Config → ConfigResult
  err : ConfigError → ConfigResult

infixl 5 ◌>>=◌
abbrev pub ◌>>=◌ : ConfigResult → (Config → ConfigResult) → ConfigResult
ok cfg >>= f = f cfg
err e >>= f = err e

unfoldable pub parse_bool : Bytes → Option Bool
parse_bool v =
    if ci_equal v (codes "true")
      || ci_equal v (codes "yes")
      || equal v (codes "1")
      || ci_equal v (codes "on")
    then some true
    else if ci_equal v (codes "false")
        || ci_equal v (codes "no")
        || equal v (codes "0")
        || ci_equal v (codes "off")
    then some false
    else none

unfoldable pub skip_spaces : Bytes → Bytes
skip_spaces [] = []
skip_spaces (c ∷ cs) = let rest = skip_spaces cs in if is_space c then rest else c ∷ cs

-- `parse_long`: `strtol` skips white space and reads 64 bits.
unfoldable pub parse_long : Bytes → Option ℤ
unfolding skip_spaces
parse_long v = signed (skip_spaces v)

-- `ps_log_level_from_string`.
unfoldable pub log_level : Bytes → Option ℕ
log_level v =
    if ci_equal v (codes "TRACE")
    then some 0
    else if ci_equal v (codes "DEBUG")
    then some 1
    else if ci_equal v (codes "INFO")
    then some 2
    else if ci_equal v (codes "WARN")
    then some 3
    else if ci_equal v (codes "ERROR")
    then some 4
    else none

abbrev between : ℤ → ℤ → Option ℤ → Option FieldValue
between least most none = none
between least most (some n) = if ltℤ n least || ltℤ most n then none else some (integer n)

abbrev as_flag : Option Bool → Option FieldValue
as_flag none = none
as_flag (some b) = some (flag b)

abbrev as_level : Option ℕ → Option FieldValue
as_level none = none
as_level (some n) = some (level n)

-- What the text of a value stands for in a field of a type and a size.
unfoldable pub field_value : SettingType → ℕ → Bytes → Option FieldValue
unfolding parse_bool parse_long log_level
field_value t_str size v = if leb size (length v) then none else some (text v)
field_value t_path size v = if leb size (length v) then none else some (text v)
field_value t_int size v = between (negsuc 2147483647) (pos 2147483647) (parse_long v)
field_value t_u16 size v = between (pos 1) (pos 65535) (parse_long v)
field_value t_bool size v = as_flag (parse_bool v)
field_value t_loglevel size v = as_level (log_level v)

unfoldable pub assign : Config → Bytes → Option FieldValue → ConfigResult
unfolding set_field
assign cfg key none = err bad_value
assign cfg key (some v) = ok (set_field cfg key v)

-- `apply_value`.
unfoldable pub apply_value : Config → Setting → Bytes → ConfigResult
unfolding assign field_value
apply_value cfg s value = assign cfg s.key (field_value s.type s.size value)
