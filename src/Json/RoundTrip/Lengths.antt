-- ===== src/Json/RoundTrip/Lengths.antt =====
-- The text of json_write.c is as long as the parser's loops in json_parse.c need fuel.
use platform_service.Common.{◌≤◌, true, false, [], ◌∷◌, ◌++◌, arith, Bytes, length, length-append}
use platform_service.Json.Value.{
  c_str, Value, null, boolean, number, string, array, object, Items, no_items, item, Members,
  no_members, member, count_items, count_members,
}
use platform_service.Json.Writer.{Doubles, write_string}
use platform_service.Json.Writer.Text.{number_text, value_text, items_text, members_text}

module _ {F : Type 0} (fp : Doubles F) where
  mutual
    unfolding value_text

    pub length-value_text : (v : Value F) (r : Bytes) → length r ≤ length (value_text fp v r)
    length-value_text null r = omega arith
    length-value_text (boolean true) r = omega arith
    length-value_text (boolean false) r = omega arith
    length-value_text (number n) r = omega (arith, length-append (number_text fp n) r)
    length-value_text (string s) r = omega (arith, length-append (write_string s) r)
    length-value_text (array vs) r = omega (arith, length-items_text [] vs (b']' ∷ r))
    length-value_text (object ms) r = omega (arith, length-members_text [] ms (b'}' ∷ r))

    length-items_text :
        (separator : Bytes) (vs : Items F) (r : Bytes)
        → length r ≤ length (items_text fp separator vs r)
    length-items_text separator no_items r = omega arith
    length-items_text separator (item v vs) r =
        let rest = items_text fp (b',' ∷ []) vs r in
        omega (
          arith,
          length-append separator (value_text fp v rest),
          length-value_text v rest,
          length-items_text (b',' ∷ []) vs r,
        )

    length-members_text :
        (separator : Bytes) (ms : Members F) (r : Bytes)
        → length r ≤ length (members_text fp separator ms r)
    length-members_text separator no_members r = omega arith
    length-members_text separator (member k v ms) r =
        let rest = members_text fp (b',' ∷ []) ms r in
        let key = write_string (c_str k) in
        omega (
          arith,
          length-append separator (key ++ b':' ∷ value_text fp v rest),
          length-append key (b':' ∷ value_text fp v rest),
          length-value_text v rest,
          length-members_text (b',' ∷ []) ms r,
        )

  pub count_items-le-length :
      (vs : Items F) (r : Bytes) → count_items vs ≤ length (items_text fp (b',' ∷ []) vs r)
  unfolding count_items items_text
  count_items-le-length no_items r = omega arith
  count_items-le-length (item v vs) r =
      let rest = items_text fp (b',' ∷ []) vs r in
      omega (arith, length-value_text v rest, count_items-le-length vs r)

  pub count_members-le-length :
      (ms : Members F) (r : Bytes) → count_members ms ≤ length (members_text fp (b',' ∷ []) ms r)
  unfolding count_members members_text
  count_members-le-length no_members r = omega arith
  count_members-le-length (member k v ms) r =
      let rest = members_text fp (b',' ∷ []) ms r in
      omega (
        arith,
        length-append (write_string (c_str k)) (b':' ∷ value_text fp v rest),
        length-value_text v rest,
        count_members-le-length ms r,
      )
