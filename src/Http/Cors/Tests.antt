-- ===== src/Http/Cors/Tests.antt =====
-- Runs of the CORS policy, and instances of its theorems.
use platform_service.Common.{◌≤◌, ◌≡◌, refl, true, false, ◌&&◌, some, [], ◌∷◌, codes, length, equal}
use platform_service.Http.Request.Lines.{upto, beyond, trim_right}
use platform_service.Http.Cors.{
  CorsPolicy, ok, err, wildcard_with_credentials, max_origins, skip_separators, add_origin,
  origins_from, policy_init, origin_allowed,
}
use platform_service.Http.Cors.Policies.{policy_init-IsSafe}

abbrev two : CorsPolicy
two = record { origins = codes "https://a" ∷ codes "https://b" ∷ []; allow_credentials = true }

reads_two : policy_init true (codes " https://a ,, https://b") true ≡ ok two
unfolding policy_init origins_from skip_separators add_origin upto beyond trim_right equal
reads_two = refl

refuses_wildcard : policy_init true (codes "https://a,*") true ≡ err wildcard_with_credentials
unfolding policy_init origins_from skip_separators add_origin upto beyond trim_right equal
refuses_wildcard = refl

policy_init-IsSafe_example :
    (length two.origins ≤ max_origins)
    × (two.allow_credentials ≡ true)
    × ((true && origin_allowed (some two) (some (codes "*"))) ≡ false)
policy_init-IsSafe_example =
    policy_init-IsSafe true true (codes " https://a ,, https://b") two reads_two
