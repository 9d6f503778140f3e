-- ===== src/Json/Parser.antt =====
-- The recursive-descent parser, `parse_array`, `parse_object`, `parse_value` and `ps_json_parse`
-- of src/json/json_parse.c. `levels` counts down from PS_JSON_MAX_DEPTH where `depth` counts up:
-- it is 33 - depth, and 0 where the source refuses. Both loops take fuel, one more than the bytes
-- that are left.
pub mod Progress
pub mod Outcome
mod Tests
use platform_service.Common.{
  ℕ, zero, suc, ◌+◌, ◌-◌, ◌*◌, ◌/◌, ◌%◌, ◌^◌, ◌≤◌, ◌<◌, min, code, String, ◌≡◌, refl, sym, ap, ◌∙◌,
  subst, ◌≢◌, ◌↔◌, ◌⊎◌, inl, inr, Bool, true, false, not, ◌&&◌, ◌||◌, Option, none, some, List, [],
  ◌∷◌, ◌++◌, append_assoc, append-nil, arith, Bytes, codes, ltb, leb, ◌==◌, if◌then◌else◌, ltb→lt,
  lt→ltb, leb→le, ==_iff, tests, Bool-cases, Option-cases, length, get_elem?, set, length-append,
  length-set, get_elem?-set_self, get_elem?-set_ne, get_or, take, drop, replicate, take-append-drop,
  length-take, length-drop, length-replicate, length-map, equal, equal_iff,
}
use platform_service.Json.Value.{
  Value, null, boolean, number, string, array, object, Items, no_items, Members, no_members,
  array_append, object_set, max_depth,
}
use platform_service.Json.Scanner.{
  Parsed, ◌and_then◌, done, failed, stuck, Reason, peek, skip_ws, expect_literal, is_digit,
  parse_number, expected_comma_or_bracket, expected_string_key, expected_colon,
  expected_comma_or_brace, depth_exceeded, invalid_literal, unexpected_end, unexpected_character,
  trailing_data,
}
use platform_service.Json.Strings.{parse_string}

-- The colon behind a key.
unfoldable pub parse_colon : Bytes → Parsed (Unit {0})
parse_colon [] = failed expected_colon []
parse_colon (c ∷ s) = if c == b':' then done tt (skip_ws s) else failed expected_colon (c ∷ s)

-- A key, up to the value that follows it.
unfoldable pub parse_key : Bytes → Parsed Bytes
unfolding parse_colon
parse_key [] = failed expected_string_key []
parse_key (c ∷ s) =
    if c == b'"'
    then (parse_string s and_then (λ key r. parse_colon (skip_ws r) and_then (λ _ t. done key t)))
    else failed expected_string_key (c ∷ s)

-- A result with its value under a constructor.
abbrev pub wrap : {A B : Type 0} → (A → B) → Parsed A → Parsed B
wrap f m = m and_then (λ a r. done (f a) r)

module _ {F : Type 0} where
  -- Behind an item of an array: `next` is the loop from behind a comma.
  unfoldable pub after_item : (Bytes → Parsed (Items F)) → Items F → Bytes → Parsed (Items F)
  after_item next vs [] = failed expected_comma_or_bracket []
  after_item next vs (c ∷ s) =
      if c == b','
      then next s
      else if c == b']'
      then done vs s
      else failed expected_comma_or_bracket (c ∷ s)

  -- The loop of `parse_array`, with the items so far; `parse` is `parse_value` one level down.
  unfoldable pub array_loop : (Bytes → Parsed (Value F)) → ℕ → Items F → Bytes → Parsed (Items F)
  unfolding after_item
  array_loop parse zero vs s = stuck
  array_loop parse (suc fuel) vs s = elim (parse (skip_ws s)) [
    | done v r ↦
        after_item (λ t. array_loop parse fuel (array_append vs v) t) (array_append vs v)
          (skip_ws r)
    | failed e r ↦ failed e r
    | stuck ↦ stuck
  ]

  unfoldable pub after_bracket : (Bytes → Parsed (Value F)) → Bytes → Parsed (Items F)
  unfolding array_loop
  after_bracket parse [] = array_loop parse 1 no_items []
  after_bracket parse (c ∷ s) =
      if c == b']'
      then done no_items s
      else array_loop parse (suc (length (c ∷ s))) no_items (c ∷ s)

  -- Behind the opening bracket.
  unfoldable pub parse_array : (Bytes → Parsed (Value F)) → Bytes → Parsed (Items F)
  unfolding after_bracket
  parse_array parse s = after_bracket parse (skip_ws s)

  unfoldable pub after_member :
      (Bytes → Parsed (Members F)) → Members F → Bytes → Parsed (Members F)
  after_member next ms [] = failed expected_comma_or_brace []
  after_member next ms (c ∷ s) =
      if c == b','
      then next s
      else if c == b'}'
      then done ms s
      else failed expected_comma_or_brace (c ∷ s)

  -- `parse` is `parse_value` one level down.
  unfoldable pub parse_member : (Bytes → Parsed (Value F)) → Bytes → Parsed (Bytes × Value F)
  unfolding parse_key
  parse_member parse s = parse_key s and_then (λ key r. parse r and_then (λ v t. done (key, v) t))

  -- The loop of `parse_object`, with the members so far.
  unfoldable pub object_loop :
      (Bytes → Parsed (Value F)) → ℕ → Members F → Bytes → Parsed (Members F)
  unfolding after_member parse_member
  object_loop parse zero ms s = stuck
  object_loop parse (suc fuel) ms s = elim (parse_member parse (skip_ws s)) [
    | done (key, v) r ↦
        after_member (λ t. object_loop parse fuel (object_set ms key v) t) (object_set ms key v)
          (skip_ws r)
    | failed e r ↦ failed e r
    | stuck ↦ stuck
  ]

  unfoldable pub after_brace : (Bytes → Parsed (Value F)) → Bytes → Parsed (Members F)
  unfolding object_loop
  after_brace parse [] = object_loop parse 1 no_members []
  after_brace parse (c ∷ s) =
      if c == b'}'
      then done no_members s
      else object_loop parse (suc (length (c ∷ s))) no_members (c ∷ s)

  unfoldable pub parse_object : (Bytes → Parsed (Value F)) → Bytes → Parsed (Members F)
  unfolding after_brace
  parse_object parse s = after_brace parse (skip_ws s)

  unfoldable pub literal : Bytes → Value F → Bytes → Parsed (Value F)
  literal text v s = elim (expect_literal text s) [
    | none ↦ failed invalid_literal s
    | some r ↦ done v r
  ]

  -- The switch of `parse_value` on the byte at the position.
  unfoldable pub dispatch :
      (Bytes → Option F) → (Bytes → Parsed (Value F)) → Bytes → Parsed (Value F)
  unfolding literal parse_array parse_object
  dispatch strtod parse [] = failed unexpected_end []
  dispatch strtod parse (c ∷ s) =
      if c == b'"'
      then wrap string (parse_string s)
      else if c == b'{'
      then wrap object (parse_object parse s)
      else if c == b'['
      then wrap array (parse_array parse s)
      else if c == b't'
      then literal (codes "true") (boolean true) (c ∷ s)
      else if c == b'f'
      then literal (codes "false") (boolean false) (c ∷ s)
      else if c == b'n'
      then literal (codes "null") null (c ∷ s)
      else if c == b'-' || is_digit c
      then wrap number (parse_number strtod (c ∷ s))
      else failed unexpected_character (c ∷ s)

  unfoldable pub parse_value : (Bytes → Option F) → ℕ → Bytes → Parsed (Value F)
  unfolding dispatch
  parse_value strtod zero s = failed depth_exceeded s
  parse_value strtod (suc levels) s = dispatch strtod (λ t. parse_value strtod levels t) (skip_ws s)

  unfoldable pub at_end : Value F → Bytes → Parsed (Value F)
  at_end v [] = done v []
  at_end v (c ∷ s) = failed trailing_data (c ∷ s)

  -- `ps_json_parse` with room for an error text.
  unfoldable pub parse : (Bytes → Option F) → Bytes → Parsed (Value F)
  unfolding parse_value at_end
  parse strtod s = parse_value strtod max_depth s and_then (λ v r. at_end v (skip_ws r))
