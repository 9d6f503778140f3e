-- ===== src/Http/Router/Segments.antt =====
-- Matching a path by a pattern is matching their lists of segments.
use platform_service.Common.{
  ℕ, zero, suc, ◌≤◌, ◌<◌, ◌≡◌, refl, ◌∙◌, inl, inr, Bool, true, false, ◌&&◌, Option, none, some,
  List, [], ◌∷◌, arith, Bytes, ◌==◌, if◌then◌else◌, Bool-cases, Option-cases, length,
}
use platform_service.Http.Router.{Param, segment, behind, match_segment, match_from, match_path}

-- A text cut at each '/': what stands before the first, and the pieces behind each.
abbrev pub cut : Bytes → Bytes × List Bytes
cut [] = ([], [])
cut (c ∷ cs) =
    let (first, rest) = cut cs in if c == b'/' then ([], first ∷ rest) else (c ∷ first, rest)

-- Both lists are used up together, and each pair of segments fits.
abbrev pub match_all : List Bytes → List Bytes → List Param → Option (List Param)
match_all [] [] params = some params
match_all [] (_ ∷ _) params = none
match_all (_ ∷ _) [] params = none
match_all (s ∷ ss) (t ∷ ts) params = elim (match_segment s t params) [
  | none ↦ none
  | some params' ↦ match_all ss ts params'
]

abbrev is_nil : Bytes → Bool
is_nil [] = true
is_nil (_ ∷ _) = false

abbrev pub match_cut : Bytes × List Bytes → Bytes × List Bytes → List Param → Option (List Param)
match_cut (p, ps) (q, qs) params = if is_nil p && is_nil q then match_all ps qs params else none

segment-cut : (cs : Bytes) → segment cs ≡ (cut cs).0
unfolding segment
segment-cut [] = refl
segment-cut (c ∷ cs) = ground (arith, segment-cut cs)

cut-behind : (cs : Bytes) → cut (behind cs) ≡ ([], (cut cs).1)
unfolding behind
cut-behind [] = refl
cut-behind (c ∷ cs) = ground (arith, cut-behind cs)

length-behind : (cs : Bytes) → length (behind cs) ≤ length cs
unfolding behind
length-behind [] = omega arith
length-behind (c ∷ cs) = ground (arith, length-behind cs)

round :
    (s t : Bytes) (ss ts : List Bytes) (params : List Param)
    (continue : List Param → Option (List Param))
    → ((params' : List Param) → continue params' ≡ match_all ss ts params')
    → elim (match_segment s t params) [ none ↦ none | some params' ↦ continue params' ]
      ≡ match_all (s ∷ ss) (t ∷ ts) params
round s t ss ts params continue h = elim (Option-cases (match_segment s t params)) [
  | inl differ ↦ rw (differ, match_all)
  | inr (params', fit) ↦ rw (fit, match_all) (h params')
]

match_from-match_cut :
    (fuel : ℕ) (pattern path : Bytes) (params : List Param)
    → length pattern < fuel
    → match_from fuel pattern path params ≡ match_cut (cut pattern) (cut path) params
unfolding match_from
match_from-match_cut zero pattern path params h = absurd (omega arith)
match_from-match_cut (suc fuel) [] [] params h = refl
match_from-match_cut (suc fuel) [] (q ∷ qs) params h = ground arith
match_from-match_cut (suc fuel) (p ∷ ps) [] params h = ground arith
match_from-match_cut (suc fuel) (p ∷ ps) (q ∷ qs) params h =
    elim (Bool-cases (p == b'/' && q == b'/')) [
      | inl slashes ↦
          let hp : (p == b'/') ≡ true = ground arith in
          let hq : (q == b'/') ≡ true = ground arith in
          rw (hp, hq)
            (rw (segment-cut ps, segment-cut qs)
              (round (cut ps).0 (cut qs).0 (cut ps).1 (cut qs).1 params
                (match_from fuel (behind ps) (behind qs))
                (λ params'.
                  match_from-match_cut fuel (behind ps) (behind qs) params'
                    (omega (arith, length-behind ps))
                  ∙ rw (cut-behind ps, cut-behind qs))))
      | inr other ↦ ground arith
    ]

-- Matching a path by a pattern compares their segments in order, for any texts: the fuel is enough.
pub match_path-match_cut :
    (pattern path : Bytes) → match_path pattern path ≡ match_cut (cut pattern) (cut path) []
unfolding match_path
match_path-match_cut pattern path =
    match_from-match_cut (suc (length pattern)) pattern path [] (omega arith)
