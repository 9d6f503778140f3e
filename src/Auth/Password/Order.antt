-- ===== src/Auth/Password/Order.antt =====
-- The order of `strcmp` on byte strings, for src/auth/password.c.
use platform_service.Common.{ℕ, ◌≡◌, refl, ap, ◌∙◌, ◌↔◌, true, false, [], ◌∷◌, arith, Bytes}
use platform_service.Auth.Password.{below, zero_sign, strcmp, is_above}

pub strcmp-same : (a b : Bytes) → strcmp a b ≡ zero_sign → a ≡ b
unfolding strcmp
strcmp-same [] [] h = refl
strcmp-same [] (b ∷ ys) h = cc
strcmp-same (a ∷ xs) [] h = cc
strcmp-same (a ∷ xs) (b ∷ ys) h =
    let heads : a ≡ b = ground arith in
    ap (λ (c : ℕ). c ∷ xs) heads ∙ ap (λ (zs : Bytes). b ∷ zs) (strcmp-same xs ys (ground arith))

pub strcmp_refl : (a : Bytes) → strcmp a a ≡ zero_sign
unfolding strcmp
strcmp_refl [] = refl
strcmp_refl (a ∷ xs) = ground (arith, strcmp_refl xs)

-- Below one way is above the other way.
pub strcmp-flip : (a b : Bytes) → (strcmp a b ≡ below) ↔ (is_above (strcmp b a) ≡ true)
unfolding strcmp is_above
strcmp-flip [] [] = ground arith
strcmp-flip [] (b ∷ ys) = ground arith
strcmp-flip (a ∷ xs) [] = ground arith
strcmp-flip (a ∷ xs) (b ∷ ys) = ground (arith, strcmp-flip xs ys)

pub strcmp_trans :
    (a b c : Bytes)
    → is_above (strcmp a b) ≡ false
    → is_above (strcmp b c) ≡ false
    → is_above (strcmp a c) ≡ false
unfolding strcmp is_above
strcmp_trans [] b [] h k = refl
strcmp_trans [] b (c ∷ cs) h k = refl
strcmp_trans (a ∷ xs) [] c h k = cc
strcmp_trans (a ∷ xs) (b ∷ ys) [] h k = cc
strcmp_trans (a ∷ xs) (b ∷ ys) (c ∷ cs) h k = ground (arith, strcmp_trans xs ys cs)
