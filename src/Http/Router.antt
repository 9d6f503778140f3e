-- ===== src/Http/Router.antt =====
-- Routing by method and path, src/http/router.c and router.h. Positions in a text are the text that is
-- left; a C string is its bytes. A negative route id does not occur.
pub mod Segments
pub mod Answers
mod Tests
use platform_service.Common.{
  ℕ, zero, suc, ◌+◌, ◌-◌, ◌*◌, ◌/◌, ◌%◌, ◌^◌, ◌≤◌, ◌<◌, min, code, String, ◌≡◌, refl, sym, ap, ◌∙◌,
  subst, ◌≢◌, ◌↔◌, ◌⊎◌, inl, inr, Bool, true, false, not, ◌&&◌, ◌||◌, Option, none, some, List, [],
  ◌∷◌, ◌++◌, append_assoc, append-nil, arith, Bytes, codes, ltb, leb, ◌==◌, if◌then◌else◌, ltb→lt,
  lt→ltb, leb→le, ==_iff, tests, Bool-cases, Option-cases, length, get_elem?, set, length-append,
  length-set, get_elem?-set_self, get_elem?-set_ne, get_or, take, drop, replicate, take-append-drop,
  length-take, length-drop, length-replicate, length-map, equal, equal_iff,
}

-- `ps_route_param_t`: a name and the segment that it captured.
pub record Param : Type 0 where
  pub name : Bytes
  pub value : Bytes

-- `ps_route_entry_t`.
pub record Route : Type 0 where
  pub method : Bytes
  pub pattern : Bytes
  pub route_id : ℕ

abbrev pub Router : Type 0
Router = List Route

abbrev pub max_routes : ℕ
max_routes = 32

abbrev pub method_max : ℕ
method_max = 8

abbrev pub pattern_max : ℕ
pattern_max = 128

abbrev pub max_params : ℕ
max_params = 4

unfoldable pub init : Router
init = []

abbrev starts_with_slash : Bytes → Bool
starts_with_slash [] = false
starts_with_slash (c ∷ _) = c == b'/'

-- `reports` says that the caller gave room for an error text.
unfoldable pub add : Bool → Router → Bytes → Bytes → ℕ → Router × Bool
add reports router method pattern route_id =
    if not reports
    then (router, false)
    else if leb max_routes (length router)
    then (router, false)
    else if length method == 0 || leb method_max (length method)
    then (router, false)
    else if length pattern == 0
        || leb pattern_max (length pattern)
        || not (starts_with_slash pattern)
    then (router, false)
    else (router ++ (record { method = method; pattern = pattern; route_id = route_id }) ∷ [], true)

-- The bytes up to the next '/', and what stands from there on.
pub segment : Bytes → Bytes
segment [] = []
segment (c ∷ cs) = if c == b'/' then [] else c ∷ segment cs

pub behind : Bytes → Bytes
behind [] = []
behind (c ∷ cs) = let later = behind cs in if c == b'/' then c ∷ cs else later

-- A segment `{name}` of a pattern.
pub is_capture : Bytes → Bool
is_capture s = leb 2 (length s) && get_or s 0 0 == b'{' && get_or s (length s - 1) 0 == b'}'

abbrev pub param : Bytes → Bytes → Param
param s t = record { name = take (length s - 2) (drop 1 s); value = t }

-- One segment of the pattern against one of the path; `none` where the source returns false.
pub match_segment : Bytes → Bytes → List Param → Option (List Param)
match_segment s t params =
    if is_capture s
    then (if length t == 0
        then none
        else if leb max_params (length params)
        then none
        else some (params ++ param s t ∷ []))
    else if not (equal s t)
    then none
    else some params

-- The loop of `match_path`, a segment a round.
pub match_from : ℕ → Bytes → Bytes → List Param → Option (List Param)
match_from zero pattern path params = none
match_from (suc fuel) [] [] params = some params
match_from (suc fuel) [] (_ ∷ _) params = none
match_from (suc fuel) (_ ∷ _) [] params = none
match_from (suc fuel) (p ∷ ps) (q ∷ qs) params =
    if not (p == b'/') || not (q == b'/')
    then none
    else elim (match_segment (segment ps) (segment qs) params) [
      | none ↦ none
      | some params' ↦ match_from fuel (behind ps) (behind qs) params'
    ]

-- A round reads at least one byte of the pattern, so that this fuel never runs out.
unfoldable pub match_path : Bytes → Bytes → Option (List Param)
unfolding match_from match_segment is_capture segment behind
match_path pattern path = match_from (suc (length pattern)) pattern path []

-- `ps_route_match_result_t`, with what is written through the pointers.
pub data MatchResult : Type 0 where
  matched : ℕ → List Param → MatchResult
  method_not_allowed not_found : MatchResult

-- The loop of `ps_router_match`; the flag is `path_matched_some_method`.
pub match_routes : List Route → Bytes → Bytes → Bool → MatchResult
match_routes [] method path some_method = if some_method then method_not_allowed else not_found
match_routes (r ∷ rs) method path some_method = elim (match_path r.pattern path) [
  | none ↦ match_routes rs method path some_method
  | some params ↦
      let later = match_routes rs method path true in
      if equal r.method method then matched r.route_id params else later
]

unfoldable pub router_match : Router → Bytes → Bytes → MatchResult
unfolding match_routes
router_match router method path = match_routes router method path false

-- `ps_route_params_get`.
unfoldable pub params_get : List Param → Bytes → Option Param
params_get [] name = none
params_get (p ∷ ps) name = if equal p.name name then some p else params_get ps name
