-- ===== src/Json/RoundTrip/Rounds.antt =====
-- One round of each loop of the parser of json_parse.c over the text of json_write.c.
use platform_service.Common.{arith, length, ℕ, suc, ◌≡◌, refl, subst, true, none, ◌∷◌, ◌++◌, Bytes}
use platform_service.Json.Value.{
  c_str, Value, number, Items, Members, no_items, no_members, member, array_append, object_set,
  find_member,
}
use platform_service.Json.Scanner.{Parsed, done, is_space, skip_ws}
use platform_service.Json.Strings.RoundTrip.{parse_string-write_bytes}
use platform_service.Json.Parser.{
  after_bracket, after_brace, after_item, array_loop, parse_colon, parse_key, parse_member,
  after_member, object_loop,
}
use platform_service.Json.Writer.{Doubles, IsLawful, write_string}
use platform_service.Json.Writer.Text.{value_text}
use platform_service.Json.Value.Readable.{IsReadable}
use platform_service.Json.RoundTrip.Collected.{append_members, set_member_new}
use platform_service.Json.RoundTrip.Starts.{
  Begins, skip_ws-Begins, write_string-append, value_text-Begins,
}

module _ {F : Type 0} {fp : Doubles F} (law : IsLawful fp) where
  readable_number :
      (v : Value F) (n : F) → IsReadable fp.is_finite v → v ≡ number n → fp.is_finite n ≡ true
  unfolding IsReadable
  readable_number v n h e = subst (λ w. IsReadable fp.is_finite w) e h

  pub begins : (v : Value F) (r : Bytes) → IsReadable fp.is_finite v → Begins (value_text fp v r)
  begins v r h = value_text-Begins law v r (λ n e. readable_number v n h e)

  pub skip_ws-write_string : (s r : Bytes) → skip_ws (write_string s ++ r) ≡ write_string s ++ r
  unfolding skip_ws is_space
  skip_ws-write_string s r = rw (write_string-append s r) refl

  module _ (parse : Bytes → Parsed (Value F)) where
    pub array_round :
        (fuel : ℕ) (acc : Items F) (v : Value F) (r : Bytes)
        → IsReadable fp.is_finite v
        → parse (value_text fp v r) ≡ done v r
        → array_loop parse (suc fuel) acc (value_text fp v r)
          ≡ after_item
              (λ t. array_loop parse fuel (array_append acc v) t)
              (array_append acc v)
              (skip_ws r)
    unfolding array_loop
    array_round fuel acc v r h e =
        rw (skip_ws-Begins _ (begins v r h), array_loop) (rw (e, array_loop) refl)

    member_text :
        (k : Bytes) (v : Value F) (r : Bytes)
        → IsReadable fp.is_finite v
        → parse (value_text fp v r) ≡ done v r
        → parse_member parse (write_string k ++ b':' ∷ value_text fp v r) ≡ done (k, v) r
    unfolding parse_member parse_key parse_colon skip_ws is_space
    member_text k v r h e =
        rw
          (
            write_string-append k (b':' ∷ value_text fp v r),
            parse_string-write_bytes k (b':' ∷ value_text fp v r),
            skip_ws-Begins _ (begins v r h),
            e,
          )
          refl

    pub object_round :
        (fuel : ℕ) (acc : Members F) (k : Bytes) (v : Value F) (r : Bytes)
        → IsReadable fp.is_finite v
        → c_str k ≡ k
        → find_member k acc ≡ none
        → parse (value_text fp v r) ≡ done v r
        → object_loop parse (suc fuel) acc (write_string (c_str k) ++ b':' ∷ value_text fp v r)
          ≡ after_member
              (λ t. object_loop parse fuel (append_members acc (member k v no_members)) t)
              (append_members acc (member k v no_members))
              (skip_ws r)
    unfolding object_loop object_set
    object_round fuel acc k v r h c n e =
        rw (c, skip_ws-write_string k (b':' ∷ value_text fp v r), object_loop)
          (rw (member_text k v r h e, object_loop)
            (rw (c, set_member_new k v acc n, object_set) refl))

    -- The loops begin where the parts do not stop at once.
    pub after_bracket-Begins :
        (s : Bytes)
        → Begins s
        → after_bracket parse s ≡ array_loop parse (suc (length s)) no_items s
    unfolding after_bracket Begins
    after_bracket-Begins s (c, r, e, _, n) = rw e (ground arith)

    pub after_brace-write_string :
        (k r : Bytes)
        → after_brace parse (write_string k ++ r)
          ≡ object_loop parse (suc (length (write_string k ++ r))) no_members (write_string k ++ r)
    unfolding after_brace
    after_brace-write_string k r = rw (write_string-append k r) refl
