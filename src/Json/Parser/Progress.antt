-- ===== src/Json/Parser/Progress.antt =====
-- `ps_json_parse` of src/json/json_parse.c comes to an end on every input.
use platform_service.Common.{
  ℕ, zero, suc, ◌-◌, ◌≤◌, ◌<◌, ◌≡◌, refl, ◌⊎◌, inl, inr, true, false, ◌||◌, Option, [], ◌∷◌, arith,
  Bytes, codes, ◌==◌, Option-cases, length,
}
use platform_service.Json.Value.{
  Value, Items, Members, number, string, array, object, null, boolean, no_items, no_members,
  array_append, object_set, max_depth,
}
use platform_service.Json.Scanner.{
  Reason, trailing_data, Parsed, done, failed, stuck, ◌and_then◌, skip_ws, expect_literal,
  parse_number, is_digit,
}
use platform_service.Json.Scanner.Progress.{
  if-Leaves, expect_literal-le, Leaves, Leaves-and_then, Leaves-mono, length-skip_ws,
  parse_number-Leaves,
}
use platform_service.Json.Strings.{parse_string}
use platform_service.Json.Strings.Progress.{parse_string-Leaves}
use platform_service.Json.Parser.{
  after_item, array_loop, after_bracket, parse_array, parse_colon, parse_key, parse_member,
  after_member, object_loop, after_brace, parse_object, wrap, literal, dispatch, parse_value,
  at_end, parse,
}

parse_colon-Leaves : (s : Bytes) → Leaves (length s) (parse_colon s)
unfolding parse_colon Leaves
parse_colon-Leaves [] = tt
parse_colon-Leaves (c ∷ s) =
    if-Leaves (length (c ∷ s)) (c == b':') _ _ (omega (arith, length-skip_ws s)) tt

parse_key-Leaves : (s : Bytes) → Leaves (length s) (parse_key s)
unfolding parse_key Leaves
parse_key-Leaves [] = tt
parse_key-Leaves (c ∷ s) =
    if-Leaves (length (c ∷ s)) (c == b'"') _ _
      (Leaves-and_then (length s) (length (c ∷ s)) (parse_string s) _ (parse_string-Leaves s)
        (λ key r h.
          Leaves-and_then (length r) (length (c ∷ s)) (parse_colon (skip_ws r)) _
            (Leaves-mono _ _ _ (length-skip_ws r) (parse_colon-Leaves (skip_ws r)))
            (λ a t l. omega arith)))
      tt

module _ {F : Type 0} where
  after_item-Leaves :
      (next : Bytes → Parsed (Items F)) (vs : Items F) (s : Bytes)
      → ((t : Bytes) → length t < length s → Leaves (length t) (next t))
      → Leaves (length s) (after_item next vs s)
  unfolding after_item Leaves
  after_item-Leaves next vs [] go = tt
  after_item-Leaves next vs (c ∷ s) go =
      if-Leaves (length (c ∷ s)) (c == b',') _ _
        (Leaves-mono (length s) _ _ (omega arith) (go s (omega arith)))
        (if-Leaves (length (c ∷ s)) (c == b']') _ _ (omega arith) tt)

  after_member-Leaves :
      (next : Bytes → Parsed (Members F)) (ms : Members F) (s : Bytes)
      → ((t : Bytes) → length t < length s → Leaves (length t) (next t))
      → Leaves (length s) (after_member next ms s)
  unfolding after_member Leaves
  after_member-Leaves next ms [] go = tt
  after_member-Leaves next ms (c ∷ s) go =
      if-Leaves (length (c ∷ s)) (c == b',') _ _
        (Leaves-mono (length s) _ _ (omega arith) (go s (omega arith)))
        (if-Leaves (length (c ∷ s)) (c == b'}') _ _ (omega arith) tt)

  module _ (p : Bytes → Parsed (Value F)) (moves : (s : Bytes) → Leaves (length s) (p s)) where
    array_loop-Leaves :
        (fuel : ℕ) (vs : Items F) (s : Bytes)
        → length s < fuel
        → Leaves (length s) (array_loop p fuel vs s)
    unfolding array_loop
    array_loop-Leaves zero vs s h = absurd (omega arith)
    array_loop-Leaves (suc fuel) vs s h =
        Leaves-and_then (length (skip_ws s)) (length s) (p (skip_ws s)) _ (moves (skip_ws s))
          (λ v r l.
            Leaves-mono (length (skip_ws r)) _ _ (omega (arith, length-skip_ws s, length-skip_ws r))
              (after_item-Leaves (λ t. array_loop p fuel (array_append vs v) t) (array_append vs v)
                (skip_ws r)
                (λ t k.
                  array_loop-Leaves fuel (array_append vs v) t
                    (omega (arith, length-skip_ws s, length-skip_ws r)))))

    after_bracket-Leaves : (s : Bytes) → Leaves (length s) (after_bracket p s)
    unfolding after_bracket Leaves
    after_bracket-Leaves [] = array_loop-Leaves 1 no_items [] (omega arith)
    after_bracket-Leaves (c ∷ s) =
        if-Leaves (length (c ∷ s)) (c == b']') _ _ (omega arith)
          (array_loop-Leaves (suc (length (c ∷ s))) no_items (c ∷ s) (omega arith))

    parse_array-Leaves : (s : Bytes) → Leaves (length s) (parse_array p s)
    unfolding parse_array
    parse_array-Leaves s =
        Leaves-mono (length (skip_ws s)) _ _ (length-skip_ws s) (after_bracket-Leaves (skip_ws s))

    parse_member-Leaves : (s : Bytes) → Leaves (length s) (parse_member p s)
    unfolding parse_member Leaves
    parse_member-Leaves s =
        Leaves-and_then (length s) (length s) (parse_key s) _ (parse_key-Leaves s) (λ key r h.
          Leaves-and_then (length s) (length s) (p r) _ (Leaves-mono (length r) _ _ h (moves r))
            (λ v t l. l))

    object_loop-Leaves :
        (fuel : ℕ) (ms : Members F) (s : Bytes)
        → length s < fuel
        → Leaves (length s) (object_loop p fuel ms s)
    unfolding object_loop
    object_loop-Leaves zero ms s h = absurd (omega arith)
    object_loop-Leaves (suc fuel) ms s h =
        Leaves-and_then (length (skip_ws s)) (length s) (parse_member p (skip_ws s)) _
          (parse_member-Leaves (skip_ws s))
          (λ kv r l.
            Leaves-mono (length (skip_ws r)) _ _ (omega (arith, length-skip_ws s, length-skip_ws r))
              (after_member-Leaves (λ t. object_loop p fuel (object_set ms kv.0 kv.1) t)
                (object_set ms kv.0 kv.1) (skip_ws r)
                (λ t k.
                  object_loop-Leaves fuel (object_set ms kv.0 kv.1) t
                    (omega (arith, length-skip_ws s, length-skip_ws r)))))

    after_brace-Leaves : (s : Bytes) → Leaves (length s) (after_brace p s)
    unfolding after_brace Leaves
    after_brace-Leaves [] = object_loop-Leaves 1 no_members [] (omega arith)
    after_brace-Leaves (c ∷ s) =
        if-Leaves (length (c ∷ s)) (c == b'}') _ _ (omega arith)
          (object_loop-Leaves (suc (length (c ∷ s))) no_members (c ∷ s) (omega arith))

    parse_object-Leaves : (s : Bytes) → Leaves (length s) (parse_object p s)
    unfolding parse_object
    parse_object-Leaves s =
        Leaves-mono (length (skip_ws s)) _ _ (length-skip_ws s) (after_brace-Leaves (skip_ws s))

    wrap-Leaves :
        {A : Type 0} (f : A → Value F) (n k : ℕ) (m : Parsed A)
        → n ≤ k
        → Leaves n m
        → Leaves k (wrap f m)
    unfolding Leaves
    wrap-Leaves f n k m h l = Leaves-and_then n k m _ l (λ a r b. omega arith)

    literal-Leaves : (text : Bytes) (v : Value F) (s : Bytes) → Leaves (length s) (literal text v s)
    unfolding literal Leaves
    literal-Leaves text v s = elim (Option-cases (expect_literal text s)) [
      | inl missing ↦ rw (missing, Leaves) tt
      | inr (r, found) ↦ rw (found, Leaves) (expect_literal-le text s r found)
    ]

    dispatch-Leaves :
        (strtod : Bytes → Option F) (s : Bytes) → Leaves (length s) (dispatch strtod p s)
    unfolding dispatch Leaves
    dispatch-Leaves strtod [] = tt
    dispatch-Leaves strtod (c ∷ s) =
        let n = length (c ∷ s) in
        if-Leaves n (c == b'"') _ _
          (wrap-Leaves string (length s) n (parse_string s) (omega arith) (parse_string-Leaves s))
          (if-Leaves n (c == b'{') _ _
            (wrap-Leaves object (length s) n (parse_object p s) (omega arith)
              (parse_object-Leaves s))
            (if-Leaves n (c == b'[') _ _
              (wrap-Leaves array (length s) n (parse_array p s) (omega arith)
                (parse_array-Leaves s))
              (if-Leaves n (c == b't') _ _ (literal-Leaves (codes "true") (boolean true) (c ∷ s)) (
                if-Leaves n (c == b'f') _ _ (literal-Leaves (codes "false") (boolean false) (c ∷ s))
                  (if-Leaves n (c == b'n') _ _ (literal-Leaves (codes "null") null (c ∷ s)) (
                    if-Leaves n (c == b'-' || is_digit c) _ _
                      (wrap-Leaves number (length s) n (parse_number strtod (c ∷ s)) (omega arith) (
                        Leaves-mono (n - 1) (length s) _ (omega arith)
                          (parse_number-Leaves strtod (c ∷ s))))
                      tt))))))

  parse_value-Leaves :
      (strtod : Bytes → Option F) (levels : ℕ) (s : Bytes)
      → Leaves (length s) (parse_value strtod levels s)
  unfolding parse_value Leaves
  parse_value-Leaves strtod zero s = tt
  parse_value-Leaves strtod (suc levels) s =
      Leaves-mono (length (skip_ws s)) _ _ (length-skip_ws s) (
        dispatch-Leaves (λ t. parse_value strtod levels t) (λ t. parse_value-Leaves strtod levels t)
          strtod (skip_ws s))

  at_end_total :
      (v : Value F) (s : Bytes)
      → (at_end v s ≡ done v []) ⊎ ((e : Reason) × (r : Bytes) × (at_end v s ≡ failed e r))
  unfolding at_end
  at_end_total v [] = inl refl
  at_end_total v (c ∷ s) = inr (trailing_data, c ∷ s, refl)

  settled :
      (m : Parsed (Value F)) (n : ℕ)
      → Leaves n m
      → ((v : Value F) × ((m and_then (λ w r. at_end w (skip_ws r))) ≡ done v []))
        ⊎ ((e : Reason) × (r : Bytes) × ((m and_then (λ w r. at_end w (skip_ws r))) ≡ failed e r))
  unfolding Leaves
  settled (done v r) n h = elim (at_end_total v (skip_ws r)) [
    | inl good ↦ inl (v, good)
    | inr bad ↦ inr bad
  ]
  settled (failed e r) n h = inr (e, r, refl)
  settled stuck n h = absurd h

  -- The parser comes to an end on every input, with a value and nothing left or with a reason and
  -- a position: no loop runs out of its fuel, which is one more than the bytes that are left.
  pub parse_total :
      (strtod : Bytes → Option F) (s : Bytes)
      → ((v : Value F) × (parse strtod s ≡ done v []))
        ⊎ ((e : Reason) × (r : Bytes) × (parse strtod s ≡ failed e r))
  unfolding parse
  parse_total strtod s =
      settled (parse_value strtod max_depth s) (length s) (parse_value-Leaves strtod max_depth s)
