-- ===== src/Platform/Config/Fields.antt =====
-- What the defaults and the environment leave in a field of the configuration,
-- src/platform/config.c.
use platform_service.Common.{
  ◌≡◌, refl, sym, ap, ◌∙◌, subst, ◌⊎◌, inl, inr, Bool, true, false, not, ◌&&◌, Option, none, some,
  List, [], ◌∷◌, Bytes, if◌then◌else◌, Bool-cases, equal, equal_iff,
}
use platform_service.Http.Request.Lines.{is_nil}
use platform_service.Platform.Config.Settings.{Setting}
use platform_service.Platform.Config.{apply_defaults, apply_env, apply_environment}
use platform_service.Platform.Config.Values.{
  Config, FieldValue, set_field, ConfigResult, ok, err, ◌>>=◌, assign, field_value, apply_value,
}

pub >>=-ok :
    (m : ConfigResult) (f : Config → ConfigResult) (cfg : Config)
    → (m >>= f) ≡ ok cfg
    → (c : Config) × (m ≡ ok c) × (f c ≡ ok cfg)
>>=-ok (ok c) f cfg h = (c, refl, h)
>>=-ok (err e) f cfg h = cc

pub ok_field : (cfg cfg' : Config) (k : Bytes) → ok cfg ≡ ok cfg' → cfg' k ≡ cfg k
ok_field cfg cfg' k h = let e : cfg ≡ cfg' = cc h in ap (λ (c : Config). c k) (sym e)

assign-ok :
    (cfg : Config) (key : Bytes) (o : Option FieldValue) (cfg' : Config)
    → assign cfg key o ≡ ok cfg'
    → (v : FieldValue) × (o ≡ some v) × (cfg' ≡ set_field cfg key v)
unfolding assign
assign-ok cfg key none cfg' h = cc
assign-ok cfg key (some v) cfg' h = (v, refl, sym (cc h))

set_field_self : (cfg : Config) (key : Bytes) (v : FieldValue) → set_field cfg key v key ≡ v
unfolding set_field
set_field_self cfg key v = rw ((equal_iff key key).1 refl) refl

set_field_other :
    (cfg : Config) (key k : Bytes) (v : FieldValue)
    → equal k key ≡ false
    → set_field cfg key v k ≡ cfg k
unfolding set_field
set_field_other cfg key k v h = rw h refl

apply_value_self :
    (cfg : Config) (s : Setting) (value : Bytes) (cfg' : Config)
    → apply_value cfg s value ≡ ok cfg'
    → field_value s.type s.size value ≡ some (cfg' s.key)
unfolding apply_value
apply_value_self cfg s value cfg' h =
    let (v, e, g) = assign-ok cfg s.key (field_value s.type s.size value) cfg' h in
    e ∙ ap some (sym (ap (λ (c : Config). c s.key) g ∙ set_field_self cfg s.key v))

pub apply_value_other :
    (cfg : Config) (s : Setting) (value k : Bytes) (cfg' : Config)
    → apply_value cfg s value ≡ ok cfg'
    → equal k s.key ≡ false
    → cfg' k ≡ cfg k
unfolding apply_value
apply_value_other cfg s value k cfg' h ne =
    let (v, e, g) = assign-ok cfg s.key (field_value s.type s.size value) cfg' h in
    ap (λ (c : Config). c k) g ∙ set_field_other cfg s.key k v ne

-- No row of the table has the key; and one row has it, and only that.
unfoldable pub Absent : Bytes → List Setting → Type 0
Absent k [] = Unit {0}
Absent k (s ∷ ss) = (equal k s.key ≡ false) × Absent k ss

unfoldable pub absent : Bytes → List Setting → Bool
absent k [] = true
absent k (s ∷ ss) = not (equal k s.key) && absent k ss

pub absent-Absent : (k : Bytes) (ss : List Setting) → absent k ss ≡ true → Absent k ss
unfolding absent Absent
absent-Absent k [] h = tt
absent-Absent k (s ∷ ss) h = elim (Bool-cases (equal k s.key)) [
  | inl here ↦ let no : false ≡ true = rw here at h in absurd cc
  | inr not_here ↦ (not_here, absent-Absent k ss (rw not_here at h))
]

unfoldable pub Once : Setting → List Setting → Type 0
unfolding Absent
Once s [] = ⊥
Once s (r ∷ rs) = if equal s.key r.key then (r ≡ s) × Absent s.key rs else Once s rs

defaults_other :
    (ss : List Setting) (cfg : Config) (k : Bytes) (cfg' : Config)
    → Absent k ss
    → apply_defaults ss cfg ≡ ok cfg'
    → cfg' k ≡ cfg k
unfolding Absent apply_defaults
defaults_other [] cfg k cfg' a h = ok_field cfg cfg' k h
defaults_other (s ∷ ss) cfg k cfg' a h =
    let (c, e, g) = >>=-ok (apply_value cfg s s.dflt) (apply_defaults ss) cfg' h in
    defaults_other ss c k cfg' a.1 g ∙ apply_value_other cfg s s.dflt k c e a.0

pub defaults_single :
    (ss : List Setting) (cfg : Config) (s : Setting) (cfg' : Config)
    → Once s ss
    → apply_defaults ss cfg ≡ ok cfg'
    → field_value s.type s.size s.dflt ≡ some (cfg' s.key)
unfolding Once apply_defaults
defaults_single [] cfg s cfg' o h = absurd o
defaults_single (r ∷ rs) cfg s cfg' o h =
    let (c, e, g) = >>=-ok (apply_value cfg r r.dflt) (apply_defaults rs) cfg' h in
    elim (Bool-cases (equal s.key r.key)) [
      | inl here ↦
          let (same, alone) = rw here at o in
          let own =
            apply_value_self cfg s s.dflt c (subst (λ t. apply_value cfg t t.dflt ≡ ok c) same e) in
          own ∙ ap some (sym (defaults_other rs c s.key cfg' alone g))
      | inr not_here ↦ defaults_single rs c s cfg' (rw not_here at o) g
    ]

apply_env_other :
    (cfg : Config) (s : Setting) (o : Option Bytes) (k : Bytes) (c : Config)
    → apply_env cfg s o ≡ ok c
    → equal k s.key ≡ false
    → c k ≡ cfg k
unfolding apply_env
apply_env_other cfg s none k c e ne = ok_field cfg c k e
apply_env_other cfg s (some v) k c e ne = elim (Bool-cases (is_nil v)) [
  | inl empty ↦ ok_field cfg c k (rw empty at e)
  | inr filled ↦ apply_value_other cfg s v k c (rw filled at e) ne
]

env_other :
    (getenv : Bytes → Option Bytes) (ss : List Setting) (cfg : Config) (k : Bytes) (cfg' : Config)
    → Absent k ss
    → apply_environment getenv ss cfg ≡ ok cfg'
    → cfg' k ≡ cfg k
unfolding Absent apply_environment
env_other getenv [] cfg k cfg' a h = ok_field cfg cfg' k h
env_other getenv (s ∷ ss) cfg k cfg' a h =
    let (c, e, g) = >>=-ok (apply_env cfg s (getenv s.env)) (apply_environment getenv ss) cfg' h in
    env_other getenv ss c k cfg' a.1 g ∙ apply_env_other cfg s (getenv s.env) k c e a.0

-- What a field holds once the environment is read: what it held, where the variable is not set or
-- empty, or what the variable's text stands for.
abbrev pub FromEnvironment : (Bytes → Option Bytes) → Setting → FieldValue → FieldValue → Type 0
FromEnvironment getenv s before after =
    (after ≡ before)
    ⊎ ((v : Bytes) × (getenv s.env ≡ some v) × (field_value s.type s.size v ≡ some after))

apply_env_self :
    (getenv : Bytes → Option Bytes) (cfg : Config) (s : Setting) (o : Option Bytes) (c : Config)
    → getenv s.env ≡ o
    → apply_env cfg s o ≡ ok c
    → FromEnvironment getenv s (cfg s.key) (c s.key)
unfolding apply_env
apply_env_self getenv cfg s none c g e = inl (ok_field cfg c s.key e)
apply_env_self getenv cfg s (some v) c g e = elim (Bool-cases (is_nil v)) [
  | inl empty ↦ inl (ok_field cfg c s.key (rw empty at e))
  | inr filled ↦ inr (v, g, apply_value_self cfg s v c (rw filled at e))
]

pub env_single :
    (getenv : Bytes → Option Bytes) (ss : List Setting) (cfg : Config) (s : Setting) (cfg' : Config)
    → Once s ss
    → apply_environment getenv ss cfg ≡ ok cfg'
    → FromEnvironment getenv s (cfg s.key) (cfg' s.key)
unfolding Once apply_environment
env_single getenv [] cfg s cfg' o h = absurd o
env_single getenv (r ∷ rs) cfg s cfg' o h =
    let (c, e, g) = >>=-ok (apply_env cfg r (getenv r.env)) (apply_environment getenv rs) cfg' h in
    elim (Bool-cases (equal s.key r.key)) [
      | inl here ↦
          let (same, alone) = rw here at o in
          let own =
            apply_env_self getenv cfg s (getenv s.env) c refl
              (subst (λ t. apply_env cfg t (getenv t.env) ≡ ok c) same e) in
          subst (FromEnvironment getenv s (cfg s.key))
            (sym (env_other getenv rs c s.key cfg' alone g)) own
      | inr not_here ↦
          let untouched = apply_env_other cfg r (getenv r.env) s.key c e not_here in
          subst (λ b. FromEnvironment getenv s b (cfg' s.key)) untouched
            (env_single getenv rs c s cfg' (rw not_here at o) g)
    ]
