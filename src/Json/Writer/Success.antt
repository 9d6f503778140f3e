-- ===== src/Json/Writer/Success.antt =====
-- When `write_value` of src/json/json_write.c succeeds.
use platform_service.Common.{
  ℕ, zero, suc, ◌≤◌, ◌<◌, ◌≡◌, refl, ap, inl, inr, true, false, Option, none, some, [], ◌++◌, arith,
  Bytes, codes, Bool-cases,
}
use platform_service.Json.Value.{
  c_str, Value, null, boolean, number, string, array, object, Items, no_items, item, Members,
  no_members, member, depth, items_depth, members_depth, max_depth,
}
use platform_service.Json.Writer.{
  Doubles, IsLawful, ◌then_text◌, write_string, write_number, write_value, write_items,
  write_members, write,
}

then_text_total :
    (a : Bytes) (m n : Option Bytes) {x y : Bytes}
    → m ≡ some x
    → n ≡ some y
    → (t : Bytes) × ((some a then_text m then_text n) ≡ some t)
then_text_total a (some x) (some y) e f = (a ++ (x ++ y), refl)
then_text_total a (some x) none e f = ground arith
then_text_total a none n e f = ground arith

module _ {F : Type 0} {fp : Doubles F} (law : IsLawful fp) where
  pub depth_pos : (v : Value F) → 0 < depth v
  unfolding depth
  depth_pos null = omega arith
  depth_pos (boolean b) = omega arith
  depth_pos (number n) = omega arith
  depth_pos (string s) = omega arith
  depth_pos (array vs) = omega arith
  depth_pos (object ms) = omega arith

  write_number_total : (n : F) → (t : Bytes) × (write_number fp n ≡ some t)
  unfolding write_number
  write_number_total n = elim (Bool-cases (fp.is_finite n)) [
    | inl finite ↦ (fp.format n, ground (arith, law.short n))
    | inr infinite ↦ (codes "null", ground arith)
  ]

  mutual
    unfolding write_value depth

    write_value_total :
        (v : Value F) (levels : ℕ)
        → depth v ≤ levels
        → (t : Bytes) × (write_value fp levels v ≡ some t)
    write_value_total v zero h = absurd (omega (arith, depth_pos v))
    write_value_total null (suc levels) h = (_, refl)
    write_value_total (boolean true) (suc levels) h = (_, refl)
    write_value_total (boolean false) (suc levels) h = (_, refl)
    write_value_total (number n) (suc levels) h = write_number_total n
    write_value_total (string s) (suc levels) h = (_, refl)
    write_value_total (array vs) (suc levels) h =
        let (t, e) = write_items_total vs levels [] (omega arith) in
        then_text_total (codes "[") (write_items fp levels [] vs) (some (codes "]")) e refl
    write_value_total (object ms) (suc levels) h =
        let (t, e) = write_members_total ms levels [] (omega arith) in
        then_text_total (codes "{") (write_members fp levels [] ms) (some (codes "}")) e refl

    write_items_total :
        (vs : Items F) (levels : ℕ) (separator : Bytes)
        → items_depth vs ≤ levels
        → (t : Bytes) × (write_items fp levels separator vs ≡ some t)
    write_items_total no_items levels separator h = (_, refl)
    write_items_total (item v vs) levels separator h =
        let (t, e) = write_value_total v levels (omega arith) in
        let (ts, es) = write_items_total vs levels (codes ",") (omega arith) in
        then_text_total separator (write_value fp levels v) (write_items fp levels (codes ",") vs) e
          es

    write_members_total :
        (ms : Members F) (levels : ℕ) (separator : Bytes)
        → members_depth ms ≤ levels
        → (t : Bytes) × (write_members fp levels separator ms ≡ some t)
    write_members_total no_members levels separator h = (_, refl)
    write_members_total (member k v ms) levels separator h =
        let (t, e) = write_value_total v levels (omega arith) in
        let (ts, es) = write_members_total ms levels (codes ",") (omega arith) in
        let (u, eu) =
          then_text_total (write_string (c_str k) ++ codes ":") (write_value fp levels v)
            (write_members fp levels (codes ",") ms) e es in
        (separator ++ u, ap (λ z. some separator then_text z) eu)

  -- The writer succeeds on every value of at most 32 levels, whatever its numbers are, where
  -- `snprintf` writes doubles as documented: one that is not finite is written as null.
  pub write_total : (v : Value F) → depth v ≤ max_depth → (t : Bytes) × (write fp v ≡ some t)
  unfolding write
  write_total v h = write_value_total v max_depth h
