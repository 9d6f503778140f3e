-- ===== src/Platform/Config/Secrets.antt =====
-- Where the secret of the configuration, src/platform/config.c, comes from.
use platform_service.Common.{
  ℕ, zero, suc, ◌≤◌, ◌<◌, ◌≡◌, refl, sym, ap, ◌∙◌, subst, inl, inr, Bool, true, false, ◌||◌, Option,
  none, some, List, [], ◌∷◌, arith, Bytes, codes, ltb, leb, ◌==◌, if◌then◌else◌, Bool-cases, length,
  drop, equal, equal_iff,
}
use platform_service.Http.Request.Lines.{upto, beyond}
use platform_service.Json.Value.{c_str}
use platform_service.Platform.Config.Settings.{Setting, settings, setting, t_str}
use platform_service.Platform.Config.{
  apply_defaults, apply_environment, as_text, text_at, validate, refuse◌else◌, config_load,
  secret_min,
}
use platform_service.Platform.Config.File.{
  ConfigFile, no_path, unopened, opened, find_in, find_by_key, apply_found, apply_pair,
  apply_trimmed, apply_line, trim, fgets, line_room, load_lines, load_file,
}
use platform_service.Platform.Config.Values.{
  Config, FieldValue, zeroed, text, invalid, env_only_setting, read_error, ok, err, ◌>>=◌,
  field_value,
}
use platform_service.Platform.Config.Fields.{
  >>=-ok, ok_field, apply_value_other, absent, absent-Absent, Once, defaults_single, env_single,
}

find_in-key :
    (ss : List Setting) (key : Bytes) (s : Setting)
    → find_in ss key ≡ some s
    → equal s.key key ≡ true
unfolding find_in
find_in-key [] key s h = cc
find_in-key (r ∷ rs) key s h = elim (Bool-cases (equal r.key key)) [
  | inl here ↦
      let same : some r ≡ some s = rw here at h in
      let row : r ≡ s = cc same in subst (λ (t : Setting). equal t.key key ≡ true) row here
  | inr not_here ↦ find_in-key rs key s (rw not_here at h)
]

-- A setting that a file must not have: its own key finds it, and it is for the environment only.
record IsEnvOnly (s : Setting) : Type 0 where
  pub found : find_by_key s.key ≡ some s
  pub env_only : s.env_only ≡ true

apply_found_kept :
    (s : Setting) (cfg : Config) (value key : Bytes) (o : Option Setting) (cfg' : Config)
    → IsEnvOnly s
    → find_by_key key ≡ o
    → apply_found cfg value o ≡ ok cfg'
    → cfg' s.key ≡ cfg s.key
unfolding apply_found find_by_key
apply_found_kept s cfg value key none cfg' only f h = cc
apply_found_kept s cfg value key (some r) cfg' only f h = elim (Bool-cases r.env_only) [
  | inl refused ↦ let no : err env_only_setting ≡ ok cfg' = rw refused at h in absurd cc
  | inr free ↦ elim (Bool-cases (equal s.key r.key)) [
    | inl same ↦
        let path : s.key ≡ key =
          (equal_iff s.key r.key).0 same ∙ (equal_iff r.key key).0 (find_in-key settings key r f) in
        let again : find_by_key s.key ≡ some r = ap find_by_key path ∙ f in
        let row : s ≡ r = cc (sym only.found ∙ again) in
        let no : true ≡ false = sym only.env_only ∙ ap (λ (t : Setting). t.env_only) row ∙ free in
        absurd cc
    | inr other ↦ apply_value_other cfg r value s.key cfg' (rw free at h) other
  ]
]

apply_pair_kept :
    (s : Setting) (cfg : Config) (front rest : Bytes) (cfg' : Config)
    → IsEnvOnly s
    → apply_pair cfg front rest ≡ ok cfg'
    → cfg' s.key ≡ cfg s.key
unfolding apply_pair
apply_pair_kept s cfg front [] cfg' only h = cc
apply_pair_kept s cfg front (c ∷ rest) cfg' only h =
    apply_found_kept s cfg (trim rest) (trim front) (find_by_key (trim front)) cfg' only refl h

apply_trimmed_kept :
    (s : Setting) (cfg : Config) (line : Bytes) (cfg' : Config)
    → IsEnvOnly s
    → apply_trimmed cfg line ≡ ok cfg'
    → cfg' s.key ≡ cfg s.key
unfolding apply_trimmed
apply_trimmed_kept s cfg [] cfg' only h = ok_field cfg cfg' s.key h
apply_trimmed_kept s cfg (c ∷ cs) cfg' only h = elim (Bool-cases (c == b'#' || c == b';')) [
  | inl comment ↦ ok_field cfg cfg' s.key (rw comment at h)
  | inr pair ↦
      apply_pair_kept s cfg (upto b'=' (c ∷ cs)) (beyond b'=' (c ∷ cs)) cfg' only (rw pair at h)
]

load_lines_kept :
    (s : Setting) (fuel : ℕ) (cfg : Config) (file : Bytes) (cfg' : Config)
    → IsEnvOnly s
    → load_lines fuel cfg file ≡ ok cfg'
    → cfg' s.key ≡ cfg s.key
unfolding load_lines apply_line
load_lines_kept s zero cfg file cfg' only h = cc
load_lines_kept s (suc fuel) cfg [] cfg' only h = ok_field cfg cfg' s.key h
load_lines_kept s (suc fuel) cfg (c ∷ cs) cfg' only h =
    let line = (fgets line_room (c ∷ cs)).0 in
    let rest = (fgets line_room (c ∷ cs)).1 in
    let (c', e, g) = >>=-ok (apply_line cfg line) (λ cfg''. load_lines fuel cfg'' rest) cfg' h in
    load_lines_kept s fuel c' rest cfg' only g
    ∙ apply_trimmed_kept s cfg (trim (c_str line)) c' only e

load_file_kept :
    (s : Setting) (cfg : Config) (file : ConfigFile) (cfg' : Config)
    → IsEnvOnly s
    → load_file cfg file ≡ ok cfg'
    → cfg' s.key ≡ cfg s.key
unfolding load_file
load_file_kept s cfg no_path cfg' only h = ok_field cfg cfg' s.key h
load_file_kept s cfg unopened cfg' only h = cc
load_file_kept s cfg (opened file broken) cfg' only h =
    let (c, e, g) =
      >>=-ok (load_lines (suc (length file)) cfg file)
        (λ cfg''. if broken then err read_error else ok cfg'') cfg' h in
    ends broken c g ∙ load_lines_kept s (suc (length file)) cfg file c only e
  where
    ends :
        (b : Bool) (c : Config)
        → (if b then err read_error else ok c) ≡ ok cfg'
        → cfg' s.key ≡ c s.key
    ends true c g = cc
    ends false c g = ok_field c cfg' s.key g

abbrev jwt_secret : Setting
jwt_secret = setting "auth.jwt_secret" "PS_JWT_SECRET" t_str 512 "" true true

jwt_secret-IsEnvOnly : IsEnvOnly jwt_secret
unfolding find_by_key find_in settings setting equal
jwt_secret-IsEnvOnly = record { found = refl; env_only = refl }

jwt_secret-Once : Once jwt_secret settings
unfolding Once absent settings setting equal
jwt_secret-Once = (refl, absent-Absent jwt_secret.key (drop 33 settings) refl)

text_field :
    (size : ℕ) (v : Bytes) (f : FieldValue)
    → field_value t_str size v ≡ some f
    → (f ≡ text v) × (length v < size)
unfolding field_value
text_field size v f h = elim (Bool-cases (leb size (length v))) [
  | inl long ↦ let no : none ≡ some f = rw (long, field_value) at h in absurd cc
  | inr fits ↦
      let e : some (text v) ≡ some f = rw (fits, field_value) at h in (sym (cc e), ground arith)
]

validate_secret :
    (cfg : Config) → validate cfg ≡ true → secret_min ≤ length (text_at cfg "auth.jwt_secret")
unfolding validate refuse◌else◌
validate_secret cfg h =
    elim (Bool-cases (ltb (length (text_at cfg "auth.jwt_secret")) secret_min)) [
      | inl short ↦ let no : false ≡ true = rw short at h in absurd cc
      | inr long ↦ ground arith
    ]

pub config_load-validated :
    (reports : Bool) (getenv : Bytes → Option Bytes) (file : ConfigFile) (cfg : Config)
    → config_load reports getenv file ≡ ok cfg
    → validate cfg ≡ true
unfolding config_load
config_load-validated false getenv file cfg h = cc
config_load-validated true getenv file cfg h =
    let (c, e, g) =
      >>=-ok
        (apply_defaults settings (λ k. zeroed)
          >>= (λ c. load_file c file)
          >>= apply_environment getenv settings)
        (λ c. if validate c then ok c else err invalid) cfg h in
    elim (Bool-cases (validate c)) [
      | inl good ↦
          let same : ok c ≡ ok cfg = rw good at g in
          let kept : c ≡ cfg = cc same in subst (λ (d : Config). validate d ≡ true) kept good
      | inr bad ↦ let no : err invalid ≡ ok cfg = rw bad at g in absurd cc
    ]

-- The secret that signs the tokens, in a configuration that is accepted, is the value of
-- PS_JWT_SECRET and has 32 to 511 bytes, whatever the file says.
pub config_load-secret :
    (reports : Bool) (getenv : Bytes → Option Bytes) (file : ConfigFile) (cfg : Config)
    → config_load reports getenv file ≡ ok cfg
    → (v : Bytes) × (getenv (codes "PS_JWT_SECRET") ≡ some v)
      × (cfg (codes "auth.jwt_secret") ≡ text v)
      × (secret_min ≤ length v)
      × (length v < 512)
unfolding config_load setting field_value
config_load-secret false getenv file cfg h = cc
config_load-secret true getenv file cfg h =
    let (c3, e3, g3) =
      >>=-ok
        (((apply_defaults settings (λ k. zeroed)) >>= (λ c. load_file c file))
          >>= apply_environment getenv settings)
        (λ c. if validate c then ok c else err invalid) cfg h in
    let (c2, e2, g2) =
      >>=-ok ((apply_defaults settings (λ k. zeroed)) >>= (λ c. load_file c file))
        (apply_environment getenv settings) c3 e3 in
    let (c1, e1, g1) =
      >>=-ok (apply_defaults settings (λ k. zeroed)) (λ c. load_file c file) c2 e2 in
    let first = defaults_single settings (λ k. zeroed) jwt_secret c1 jwt_secret-Once e1 in
    let kept = load_file_kept jwt_secret c1 file c2 jwt_secret-IsEnvOnly g1 in
    let empty : c2 (codes "auth.jwt_secret") ≡ text [] = kept ∙ sym (cc first) in
    let (valid, same) = accepted c3 g3 in
    let bound = validate_secret c3 valid in
    elim (env_single getenv settings c2 jwt_secret c3 jwt_secret-Once g2) [
      | inl unset ↦
          let shown : text_at c3 "auth.jwt_secret" ≡ [] = ap as_text (unset ∙ empty) in
          absurd (omega (arith, rw shown at bound))
      | inr (v, given, stands) ↦
          let (stored, short) = text_field 512 v (c3 (codes "auth.jwt_secret")) stands in
          let shown : text_at c3 "auth.jwt_secret" ≡ v = ap as_text stored in
          (
            v,
            given,
            sym (ap (λ (c : Config). c (codes "auth.jwt_secret")) same) ∙ stored,
            rw shown at bound,
            short,
          )
    ]
  where
    accepted :
        (c : Config)
        → (if validate c then ok c else err invalid) ≡ ok cfg
        → (validate c ≡ true) × (c ≡ cfg)
    accepted c g = elim (Bool-cases (validate c)) [
      | inl good ↦ (good, let e : ok c ≡ ok cfg = rw good at g in cc e)
      | inr bad ↦ let e : err invalid ≡ ok cfg = rw bad at g in absurd cc
    ]
