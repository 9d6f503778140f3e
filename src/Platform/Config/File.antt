-- ===== src/Platform/Config/File.antt =====
-- The reading of a configuration file, src/platform/config.c.
use platform_service.Common.{
  ℕ, zero, suc, Bool, ◌&&◌, ◌||◌, Option, none, some, List, [], ◌∷◌, Bytes, ◌==◌, if◌then◌else◌,
  length, equal,
}
use platform_service.Json.Value.{c_str}
use platform_service.Http.Request.Lines.{is_nil, upto, beyond}
use platform_service.Api.Routes.{is_space}
use platform_service.Platform.Config.Settings.{Setting, settings}
use platform_service.Platform.Config.Values.{
  Config, ConfigResult, apply_value, cannot_open, env_only_setting, err, no_equals_sign, ok,
  out_of_fuel, read_error, skip_spaces, unknown_setting, ◌>>=◌,
}

unfoldable pub trim_end : Bytes → Bytes
trim_end [] = []
trim_end (c ∷ cs) = let rest = trim_end cs in if is_nil rest && is_space c then [] else c ∷ rest

unfoldable pub trim : Bytes → Bytes
unfolding skip_spaces trim_end
trim s = trim_end (skip_spaces s)

unfoldable pub find_in : List Setting → Bytes → Option Setting
find_in [] key = none
find_in (s ∷ ss) key = let later = find_in ss key in if equal s.key key then some s else later

unfoldable pub find_by_key : Bytes → Option Setting
unfolding find_in
find_by_key key = find_in settings key

unfoldable pub apply_found : Config → Bytes → Option Setting → ConfigResult
unfolding apply_value
apply_found cfg value none = err unknown_setting
apply_found cfg value (some s) =
    if s.env_only then err env_only_setting else apply_value cfg s value

-- A trimmed line that is no comment, by what stands in front of the '=' and from there on.
unfoldable pub apply_pair : Config → Bytes → Bytes → ConfigResult
unfolding apply_found find_by_key trim
apply_pair cfg front [] = err no_equals_sign
apply_pair cfg front (c ∷ rest) = apply_found cfg (trim rest) (find_by_key (trim front))

unfoldable pub apply_trimmed : Config → Bytes → ConfigResult
unfolding apply_pair
apply_trimmed cfg [] = ok cfg
apply_trimmed cfg (c ∷ cs) =
    if c == b'#' || c == b';'
    then ok cfg
    else apply_pair cfg (upto b'=' (c ∷ cs)) (beyond b'=' (c ∷ cs))

-- The body of the loop over the lines.
unfoldable pub apply_line : Config → Bytes → ConfigResult
unfolding apply_trimmed trim
apply_line cfg line = apply_trimmed cfg (trim (c_str line))

-- `fgets`: at most so many bytes, up to and with the '\n'; and what is left.
unfoldable pub fgets : ℕ → Bytes → Bytes × Bytes
fgets zero file = ([], file)
fgets (suc room) [] = ([], [])
fgets (suc room) (c ∷ cs) =
    let (line, rest) = fgets room cs in if c == b'\n' then (c ∷ [], cs) else (c ∷ line, rest)

-- The size of `line`, without its NUL.
abbrev pub line_room : ℕ
line_room = 1023

unfoldable pub load_lines : ℕ → Config → Bytes → ConfigResult
unfolding apply_line fgets
load_lines zero cfg file = err out_of_fuel
load_lines (suc fuel) cfg [] = ok cfg
load_lines (suc fuel) cfg (c ∷ cs) =
    let (line, rest) = fgets line_room (c ∷ cs) in
    apply_line cfg line >>= (λ cfg'. load_lines fuel cfg' rest)

-- The path of the file: NULL, a file that does not open, or one with these bytes, after which
-- `ferror` may say that there would have been more.
pub data ConfigFile : Type 0 where
  no_path unopened : ConfigFile
  opened : Bytes → Bool → ConfigFile

-- `load_file`. Each line takes a byte at least, so that this fuel never runs out.
unfoldable pub load_file : Config → ConfigFile → ConfigResult
unfolding load_lines
load_file cfg no_path = ok cfg
load_file cfg unopened = err cannot_open
load_file cfg (opened file broken) =
    load_lines (suc (length file)) cfg file >>= (λ cfg'. if broken then err read_error else ok cfg')
