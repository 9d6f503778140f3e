-- ===== src/Json/RoundTrip/Values.antt =====
-- The round trip of values, items and members through the text of json_write.c and the parser of
-- json_parse.c.
use platform_service.Common.{
  ℕ, zero, suc, ◌≤◌, ◌≡◌, refl, sym, ap, ◌∙◌, subst, true, false, some, [], ◌∷◌, ◌++◌, append-nil,
  arith, Bytes, codes, length, length-append,
}
use platform_service.Json.Value.{
  c_str, Value, null, boolean, number, string, array, object, Items, no_items, item, Members,
  no_members, member, depth, items_depth, members_depth, max_depth, array_append, find_member,
  count_items, count_members,
}
use platform_service.Json.Scanner.{expect_literal, is_digit, Parsed, done, is_space, skip_ws}
use platform_service.Json.Scanner.Numbers.{ends_number, unlike_number}
use platform_service.Json.Parser.{
  after_item, array_loop, parse_array, after_member, object_loop, parse_object, wrap, dispatch,
  literal, parse_value, at_end, parse,
}
use platform_service.Json.Writer.{Doubles, IsLawful, write_string, write}
use platform_service.Json.Writer.Text.{value_text, items_text, members_text, write-eq-some}
use platform_service.Json.Value.Readable.{IsReadable, AllReadable, MembersReadable}
use platform_service.Json.RoundTrip.Collected.{
  append_items, append_items-array_append, append_members, append_items_nil, append_members_assoc,
  append_members_nil, Apart, Apart-added, Apart-nil,
}
use platform_service.Json.RoundTrip.Starts.{skip_ws-Begins, dispatch-format, dispatch-write_string}
use platform_service.Json.RoundTrip.Rounds.{
  begins, skip_ws-write_string, array_round, object_round, after_bracket-Begins,
  after_brace-write_string,
}
use platform_service.Json.RoundTrip.Lengths.{
  length-value_text, count_items-le-length, count_members-le-length,
}
use platform_service.Json.Writer.Text.{number_text_finite}

module _ {F : Type 0} {fp : Doubles F} (law : IsLawful fp) where
  ends_number-items_text :
      (vs : Items F) (r : Bytes) → ends_number (items_text fp (codes ",") vs (b']' ∷ r)) ≡ true
  unfolding ends_number items_text unlike_number is_digit
  ends_number-items_text no_items r = refl
  ends_number-items_text (item v vs) r = refl

  ends_number-members_text :
      (ms : Members F) (r : Bytes) → ends_number (members_text fp (codes ",") ms (b'}' ∷ r)) ≡ true
  unfolding ends_number members_text unlike_number is_digit
  ends_number-members_text no_members r = refl
  ends_number-members_text (member k v ms) r = refl

  abbrev parser : ℕ → Bytes → Parsed (Value F)
  parser levels t = parse_value fp.strtod levels t

  scalar :
      (v : Value F) (levels : ℕ) (r : Bytes)
      → IsReadable fp.is_finite v
      → dispatch fp.strtod (λ t. parse_value fp.strtod levels t) (value_text fp v r) ≡ done v r
      → parse_value fp.strtod (suc levels) (value_text fp v r) ≡ done v r
  unfolding parse_value
  scalar v levels r h e = rw (skip_ws-Begins _ (begins law v r h)) e

  mutual
    unfolding Apart find_member value_text dispatch array_append depth IsReadable literal
        expect_literal append_items append_members count_items count_members after_item after_member
        skip_ws is_space parse_array parse_object

    parse_value-value_text :
        (v : Value F) (levels : ℕ) (r : Bytes)
        → depth v ≤ levels
        → IsReadable fp.is_finite v
        → ends_number r ≡ true
        → parse_value fp.strtod levels (value_text fp v r) ≡ done v r
    parse_value-value_text null zero r d h n = absurd (omega arith)
    parse_value-value_text null (suc levels) r d h n = scalar null levels r h refl
    parse_value-value_text (boolean b) zero r d h n = absurd (omega arith)
    parse_value-value_text (boolean true) (suc levels) r d h n =
        scalar (boolean true) levels r h refl
    parse_value-value_text (boolean false) (suc levels) r d h n =
        scalar (boolean false) levels r h refl
    parse_value-value_text (number x) zero r d h n = absurd (omega arith)
    parse_value-value_text (number x) (suc levels) r d h n =
        scalar (number x) levels r h
          (rw (number_text_finite fp x h) (dispatch-format law (parser levels) x r h n))
    parse_value-value_text (string s) zero r d h n = absurd (omega arith)
    parse_value-value_text (string s) (suc levels) r d h n =
        scalar (string s) levels r h (dispatch-write_string fp.strtod (parser levels) s r)
    parse_value-value_text (array vs) zero r d h n = absurd (omega arith)
    parse_value-value_text (array vs) (suc levels) r d h n =
        scalar (array vs) levels r h
          (ap (wrap array) (parse_array-items_text vs levels r (omega arith) h))
    parse_value-value_text (object ms) zero r d h n = absurd (omega arith)
    parse_value-value_text (object ms) (suc levels) r d h n =
        scalar (object ms) levels r h
          (ap (wrap object) (parse_object-members_text ms levels r (omega arith) h))

    -- Behind an item.
    after_item-items_text :
        (vs : Items F) (levels fuel : ℕ) (acc : Items F) (r : Bytes)
        → items_depth vs ≤ levels
        → AllReadable fp.is_finite vs
        → count_items vs ≤ fuel
        → after_item
            (λ t. array_loop (parser levels) fuel acc t)
            acc
            (skip_ws (items_text fp (codes ",") vs (b']' ∷ r)))
          ≡ done (append_items acc vs) r
    after_item-items_text no_items levels fuel acc r d h f =
        ap (λ ws. done ws r) (sym (append_items_nil acc))
    after_item-items_text (item v vs) levels zero acc r d h f = absurd (omega arith)
    after_item-items_text (item v vs) levels (suc fuel) acc r d h f =
        let rest = items_text fp (b',' ∷ []) vs (b']' ∷ r) in
        array_round law (parser levels) fuel acc v rest h.0
          (parse_value-value_text v levels rest (omega arith) h.0 (ends_number-items_text vs r))
        ∙ after_item-items_text vs levels fuel (array_append acc v) r (omega arith) h.1
            (omega arith)
        ∙ ap (λ ws. done ws r) (append_items-array_append acc v vs)

    parse_array-items_text :
        (vs : Items F) (levels : ℕ) (r : Bytes)
        → items_depth vs ≤ levels
        → AllReadable fp.is_finite vs
        → parse_array (parser levels) (items_text fp [] vs (b']' ∷ r)) ≡ done vs r
    parse_array-items_text no_items levels r d h = refl
    parse_array-items_text (item v vs) levels r d h =
        let rest = items_text fp (b',' ∷ []) vs (b']' ∷ r) in
        let text = value_text fp v rest in
        rw (skip_ws-Begins text (begins law v rest h.0)) (
          after_bracket-Begins law (parser levels) text (begins law v rest h.0)
          ∙ array_round law (parser levels) (length text) no_items v rest h.0
              (parse_value-value_text v levels rest (omega arith) h.0 (ends_number-items_text vs r))
          ∙ after_item-items_text vs levels (length text) (item v no_items) r (omega arith) h.1
              (omega (arith, length-value_text fp v rest, count_items-le-length fp vs (b']' ∷ r))))

    -- Behind a member.
    after_member-members_text :
        (ms : Members F) (levels fuel : ℕ) (acc : Members F) (r : Bytes)
        → members_depth ms ≤ levels
        → MembersReadable fp.is_finite ms
        → Apart acc ms
        → count_members ms ≤ fuel
        → after_member
            (λ t. object_loop (parser levels) fuel acc t)
            acc
            (skip_ws (members_text fp (codes ",") ms (b'}' ∷ r)))
          ≡ done (append_members acc ms) r
    after_member-members_text no_members levels fuel acc r d h a f =
        ap (λ ws. done ws r) (sym (append_members_nil acc))
    after_member-members_text (member k v ms) levels zero acc r d h a f = absurd (omega arith)
    after_member-members_text (member k v ms) levels (suc fuel) acc r d h a f =
        let rest = members_text fp (b',' ∷ []) ms (b'}' ∷ r) in
        object_round law (parser levels) fuel acc k v rest h.2 h.0 a.0
          (parse_value-value_text v levels rest (omega arith) h.2 (ends_number-members_text ms r))
        ∙ after_member-members_text ms levels fuel (append_members acc (member k v no_members)) r
            (omega arith) h.3 (Apart-added acc k v ms h.1 a.1) (omega arith)
        ∙ ap (λ ws. done ws r) (append_members_assoc acc (member k v no_members) ms)

    parse_object-members_text :
        (ms : Members F) (levels : ℕ) (r : Bytes)
        → members_depth ms ≤ levels
        → MembersReadable fp.is_finite ms
        → parse_object (parser levels) (members_text fp [] ms (b'}' ∷ r)) ≡ done ms r
    parse_object-members_text no_members levels r d h = refl
    parse_object-members_text (member k v ms) levels r d h =
        let rest = members_text fp (b',' ∷ []) ms (b'}' ∷ r) in
        let tail = b':' ∷ value_text fp v rest in
        rw (skip_ws-write_string law (c_str k) tail) (
          after_brace-write_string law (parser levels) (c_str k) tail
          ∙ object_round law (parser levels) (length (write_string (c_str k) ++ tail)) no_members k
              v rest h.2 h.0 refl
              (parse_value-value_text v levels rest (omega arith) h.2
                (ends_number-members_text ms r))
          ∙ after_member-members_text ms levels (length (write_string (c_str k) ++ tail))
              (member k v no_members) r (omega arith) h.3
              (Apart-added no_members k v ms h.1 (Apart-nil ms))
              (omega (
                arith,
                length-append (write_string (c_str k)) tail,
                length-value_text fp v rest,
                count_members-le-length fp ms (b'}' ∷ r),
              )))

  parse_written :
      (v : Value F) (t : Bytes)
      → depth v ≤ max_depth
      → IsReadable fp.is_finite v
      → value_text fp v [] ≡ t ++ []
      → parse_value fp.strtod max_depth t ≡ done v []
  unfolding ends_number
  parse_written v t d h e =
      subst (λ s. parse_value fp.strtod max_depth s ≡ done v []) (e ∙ append-nil t)
        (parse_value-value_text v max_depth [] d h refl)

  -- What the writer makes of a value is read back by the parser as the same value, where the
  -- numbers are finite, the keys of an object are different and without NUL bytes, and the
  -- functions of the C library on doubles do what they document.
  pub parse-write :
      (v : Value F) (t : Bytes)
      → IsReadable fp.is_finite v
      → write fp v ≡ some t
      → parse fp.strtod t ≡ done v []
  unfolding parse at_end skip_ws
  parse-write v t h e =
      let (d, text) = write-eq-some fp v t e in rw (parse_written v t d h (text [])) refl
