-- ===== src/Json/Parser/Outcome.antt =====
-- What `ps_json_parse` of src/json/json_parse.c returns: values within the depth limit whose
-- objects have different keys.
use platform_service.Common.{
  ℕ, zero, suc, ◌≤◌, ◌≡◌, refl, subst, inl, inr, true, false, ◌||◌, Option, [], ◌∷◌, arith, Bytes,
  codes, ◌==◌, Option-cases, length,
}
use platform_service.Json.Value.{
  c_str, Value, null, boolean, Items, no_items, Members, no_members, array_append, object_set,
  depth, items_depth, members_depth, max_depth,
}
use platform_service.Json.Value.Readable.{IsReadable, AllReadable, MembersReadable, any}
use platform_service.Json.Value.Setting.{
  c_str_idem, members_depth-set_member, items_depth-array_append, AllReadable-array_append,
  MembersReadable-set_member,
}
use platform_service.Json.Scanner.{Parsed, done, skip_ws, expect_literal, parse_number, is_digit}
use platform_service.Json.Scanner.Outcome.{Yields, Yields-and_then, Yields-any, if-Yields}
use platform_service.Json.Strings.{parse_string}
use platform_service.Json.Parser.{
  after_item, array_loop, after_bracket, parse_array, parse_key, parse_member, after_member,
  object_loop, after_brace, parse_object, literal, dispatch, parse_value, at_end, parse,
}

module _ {F : Type 0} where
  Sound : ℕ → Value F → Type 0
  Sound levels v = IsReadable any v × (depth v ≤ levels)

  SoundItems : ℕ → Items F → Type 0
  SoundItems levels vs = AllReadable any vs × (items_depth vs ≤ levels)

  SoundMembers : ℕ → Members F → Type 0
  SoundMembers levels ms = MembersReadable any ms × (members_depth ms ≤ levels)

  append-Sound :
      (levels : ℕ) (vs : Items F) (v : Value F)
      → SoundItems levels vs
      → Sound levels v
      → SoundItems levels (array_append vs v)
  unfolding Sound SoundItems
  append-Sound levels vs v h g =
      (AllReadable-array_append any vs v h.0 g.0, items_depth-array_append vs v levels h.1 g.1)

  set-Sound :
      (levels : ℕ) (ms : Members F) (k : Bytes) (v : Value F)
      → SoundMembers levels ms
      → Sound levels v
      → SoundMembers levels (object_set ms k v)
  unfolding Sound SoundMembers object_set
  set-Sound levels ms k v h g = (
    MembersReadable-set_member any (c_str k) v ms (c_str_idem k) g.0 h.0,
    members_depth-set_member (c_str k) v ms levels g.1 h.1,
  )

  after_item-Sound :
      (levels : ℕ) (next : Bytes → Parsed (Items F)) (vs : Items F) (s : Bytes)
      → SoundItems levels vs
      → ((t : Bytes) → Yields (SoundItems levels) (next t))
      → Yields (SoundItems levels) (after_item next vs s)
  unfolding after_item Yields
  after_item-Sound levels next vs [] h go = tt
  after_item-Sound levels next vs (c ∷ s) h go =
      if-Yields _ (c == b',') _ _ (go s) (if-Yields _ (c == b']') _ _ h tt)

  after_member-Sound :
      (levels : ℕ) (next : Bytes → Parsed (Members F)) (ms : Members F) (s : Bytes)
      → SoundMembers levels ms
      → ((t : Bytes) → Yields (SoundMembers levels) (next t))
      → Yields (SoundMembers levels) (after_member next ms s)
  unfolding after_member Yields
  after_member-Sound levels next ms [] h go = tt
  after_member-Sound levels next ms (c ∷ s) h go =
      if-Yields _ (c == b',') _ _ (go s) (if-Yields _ (c == b'}') _ _ h tt)

  module _ (levels : ℕ) (p : Bytes → Parsed (Value F))
      (sound : (s : Bytes) → Yields (Sound levels) (p s)) where
    array_loop-Sound :
        (fuel : ℕ) (vs : Items F) (s : Bytes)
        → SoundItems levels vs
        → Yields (SoundItems levels) (array_loop p fuel vs s)
    unfolding array_loop Yields
    array_loop-Sound zero vs s h = tt
    array_loop-Sound (suc fuel) vs s h =
        Yields-and_then (Sound levels) (SoundItems levels) (p (skip_ws s)) _ (sound (skip_ws s))
          (λ v r g.
            after_item-Sound levels (λ t. array_loop p fuel (array_append vs v) t)
              (array_append vs v) (skip_ws r) (append-Sound levels vs v h g)
              (λ t. array_loop-Sound fuel (array_append vs v) t (append-Sound levels vs v h g)))

    after_bracket-Sound : (s : Bytes) → Yields (SoundItems levels) (after_bracket p s)
    unfolding after_bracket SoundItems IsReadable depth Yields
    after_bracket-Sound [] = array_loop-Sound 1 no_items [] (tt, omega arith)
    after_bracket-Sound (c ∷ s) =
        if-Yields _ (c == b']') _ _ (tt, omega arith)
          (array_loop-Sound (suc (length (c ∷ s))) no_items (c ∷ s) (tt, omega arith))

    parse_array-Sound : (s : Bytes) → Yields (SoundItems levels) (parse_array p s)
    unfolding parse_array
    parse_array-Sound s = after_bracket-Sound (skip_ws s)

    member-Sound : (s : Bytes) → Yields (λ kv. Sound levels kv.1) (parse_member p s)
    unfolding parse_member Yields
    member-Sound s =
        Yields-and_then (λ k. Unit {0}) (λ kv. Sound levels kv.1) (parse_key s) _
          (Yields-any (parse_key s))
          (λ key r u.
            Yields-and_then (Sound levels) (λ kv. Sound levels kv.1) (p r) _ (sound r) (λ v t g. g))

    object_loop-Sound :
        (fuel : ℕ) (ms : Members F) (s : Bytes)
        → SoundMembers levels ms
        → Yields (SoundMembers levels) (object_loop p fuel ms s)
    unfolding object_loop Yields
    object_loop-Sound zero ms s h = tt
    object_loop-Sound (suc fuel) ms s h =
        Yields-and_then (λ kv. Sound levels kv.1) (SoundMembers levels) (parse_member p (skip_ws s))
          _ (member-Sound (skip_ws s))
          (λ kv r g.
            after_member-Sound levels (λ t. object_loop p fuel (object_set ms kv.0 kv.1) t)
              (object_set ms kv.0 kv.1) (skip_ws r) (set-Sound levels ms kv.0 kv.1 h g)
              (λ t.
                object_loop-Sound fuel (object_set ms kv.0 kv.1) t
                  (set-Sound levels ms kv.0 kv.1 h g)))

    after_brace-Sound : (s : Bytes) → Yields (SoundMembers levels) (after_brace p s)
    unfolding after_brace SoundMembers IsReadable depth Yields
    after_brace-Sound [] = object_loop-Sound 1 no_members [] (tt, omega arith)
    after_brace-Sound (c ∷ s) =
        if-Yields _ (c == b'}') _ _ (tt, omega arith)
          (object_loop-Sound (suc (length (c ∷ s))) no_members (c ∷ s) (tt, omega arith))

    parse_object-Sound : (s : Bytes) → Yields (SoundMembers levels) (parse_object p s)
    unfolding parse_object
    parse_object-Sound s = after_brace-Sound (skip_ws s)

    literal-Sound :
        (text : Bytes) (v : Value F) (s : Bytes)
        → Sound (suc levels) v
        → Yields (Sound (suc levels)) (literal text v s)
    unfolding literal Yields
    literal-Sound text v s h = elim (Option-cases (expect_literal text s)) [
      | inl missing ↦ rw (missing, Yields) tt
      | inr (r, found) ↦ rw (found, Yields) h
    ]

    dispatch-Sound :
        (strtod : Bytes → Option F) (s : Bytes) → Yields (Sound (suc levels)) (dispatch strtod p s)
    unfolding dispatch Yields Sound SoundItems SoundMembers IsReadable depth
    dispatch-Sound strtod [] = tt
    dispatch-Sound strtod (c ∷ s) =
        if-Yields _ (c == b'"') _ _
          (Yields-and_then (λ k. Unit {0}) _ (parse_string s) _ (Yields-any (parse_string s))
            (λ k r u. (tt, omega arith)))
          (if-Yields _ (c == b'{') _ _
            (Yields-and_then (SoundMembers levels) _ (parse_object p s) _
              (after_brace-Sound (skip_ws s)) (λ ms r g. (g.0, omega arith)))
            (if-Yields _ (c == b'[') _ _
              (Yields-and_then (SoundItems levels) _ (parse_array p s) _ (parse_array-Sound s)
                (λ vs r g. (g.0, omega arith)))
              (if-Yields _ (c == b't') _ _
                (literal-Sound (codes "true") (boolean true) (c ∷ s) (tt, omega arith))
                (if-Yields _ (c == b'f') _ _
                  (literal-Sound (codes "false") (boolean false) (c ∷ s) (tt, omega arith))
                  (if-Yields _ (c == b'n') _ _
                    (literal-Sound (codes "null") null (c ∷ s) (tt, omega arith))
                    (if-Yields _ (c == b'-' || is_digit c) _ _
                      (Yields-and_then (λ k. Unit {0}) _ (parse_number strtod (c ∷ s)) _
                        (Yields-any (parse_number strtod (c ∷ s))) (λ x r u. (refl, omega arith)))
                      tt))))))

  parse_value-Sound :
      (strtod : Bytes → Option F) (levels : ℕ) (s : Bytes)
      → Yields (Sound levels) (parse_value strtod levels s)
  unfolding parse_value Yields
  parse_value-Sound strtod zero s = tt
  parse_value-Sound strtod (suc levels) s =
      dispatch-Sound levels (λ t. parse_value strtod levels t)
        (λ t. parse_value-Sound strtod levels t) strtod (skip_ws s)

  at_end-Sound :
      (levels : ℕ) (v : Value F) (s : Bytes) → Sound levels v → Yields (Sound levels) (at_end v s)
  unfolding at_end Yields
  at_end-Sound levels v [] h = h
  at_end-Sound levels v (c ∷ s) h = tt

  parse-Sound : (strtod : Bytes → Option F) (s : Bytes) → Yields (Sound max_depth) (parse strtod s)
  unfolding parse
  parse-Sound strtod s =
      Yields-and_then (Sound max_depth) (Sound max_depth) (parse_value strtod max_depth s) _
        (parse_value-Sound strtod max_depth s) (λ v r g. at_end-Sound max_depth v (skip_ws r) g)

  -- A value that the parser returns is at most 32 levels deep, and the keys of its objects are
  -- different and without NUL bytes.
  pub parse-IsReadable :
      (strtod : Bytes → Option F) (s : Bytes) (v : Value F)
      → parse strtod s ≡ done v []
      → IsReadable any v × (depth v ≤ max_depth)
  unfolding Yields Sound
  parse-IsReadable strtod s v h = subst (λ m. Yields (Sound max_depth) m) h (parse-Sound strtod s)
