-- ===== src/Json/Value/Setting.antt =====
-- Setting and reading the members of an object, `ps_json_object_set` and `ps_json_object_get` of
-- src/json/json_parse.c.
use platform_service.Common.{
  ℕ, ◌≤◌, ◌≡◌, refl, ap, ◌∙◌, inl, inr, Bool, true, false, some, [], ◌∷◌, arith, Bytes, ◌==◌,
  if◌then◌else◌, Bool-cases, equal, equal_iff,
}
use platform_service.Json.Value.{
  c_str, Value, object, Items, no_items, item, array_append, Members, no_members, member,
  set_member, object_set, find_member, object_get, depth, items_depth, members_depth,
}
use platform_service.Json.Value.Readable.{IsReadable, AllReadable, MembersReadable}

pub c_str_idem : (s : Bytes) → c_str (c_str s) ≡ c_str s
unfolding c_str
c_str_idem [] = refl
c_str_idem (c ∷ s) = elim (Bool-cases (c == 0)) [
  | inl nul ↦ rw nul refl
  | inr other ↦ rw (other, other) (ap (λ t. c ∷ t) (c_str_idem s))
]

pub equal-false-sym : (a b : Bytes) → equal a b ≡ false → equal b a ≡ false
equal-false-sym a b h = ground (arith, equal_iff a b, equal_iff b a)

equal_refl : (a : Bytes) → equal a a ≡ true
equal_refl a = (equal_iff a a).1 refl

equal_through : (a b c : Bytes) → equal a b ≡ true → equal a c ≡ equal b c
equal_through a b c h = rw ((equal_iff a b).0 h) refl

module _ {F : Type 0} where
  find_member-set_member_self :
      (k : Bytes) (v : Value F) (ms : Members F) → find_member k (set_member k v ms) ≡ some v
  unfolding find_member set_member
  find_member-set_member_self k v no_members = rw (equal_refl k) refl
  find_member-set_member_self k v (member j w ms) =
      ground (arith, find_member-set_member_self k v ms)

  pub find_member-set_member_ne :
      (i k : Bytes) (v : Value F) (ms : Members F)
      → equal k i ≡ false
      → find_member i (set_member k v ms) ≡ find_member i ms
  unfolding find_member set_member
  find_member-set_member_ne i k v no_members n = rw n refl
  find_member-set_member_ne i k v (member j w ms) n =
      ground (arith, find_member-set_member_ne i k v ms, equal_through j k i)

  -- A member that has been set is the one that is read under any C string equal to its key, and
  -- under every other key the object reads as before, whether the key was new or not.
  object_get-object_set :
      (ms : Members F) (k i : Bytes) (v : Value F)
      → object_get (some (object (object_set ms k v))) i
        ≡ (if equal (c_str k) (c_str i) then some v else object_get (some (object ms)) i)
  unfolding object_get object_set
  object_get-object_set ms k i v = elim (Bool-cases (equal (c_str k) (c_str i))) [
    | inl same ↦
        rw same (
          rw (← (equal_iff (c_str k) (c_str i)).0 same)
            (find_member-set_member_self (c_str k) v ms))
    | inr other ↦ rw other (find_member-set_member_ne (c_str i) (c_str k) v ms other)
  ]

  pub members_depth-set_member :
      (k : Bytes) (v : Value F) (ms : Members F) (n : ℕ)
      → depth v ≤ n
      → members_depth ms ≤ n
      → members_depth (set_member k v ms) ≤ n
  unfolding depth set_member
  members_depth-set_member k v no_members n h d = ground arith
  members_depth-set_member k v (member j w ms) n h d =
      ground (arith, members_depth-set_member k v ms n)

  pub items_depth-array_append :
      (vs : Items F) (v : Value F) (n : ℕ)
      → items_depth vs ≤ n
      → depth v ≤ n
      → items_depth (array_append vs v) ≤ n
  unfolding depth array_append
  items_depth-array_append no_items v n d h = ground arith
  items_depth-array_append (item w vs) v n d h = ground (arith, items_depth-array_append vs v n)

module _ {F : Type 0} (good : F → Bool) where
  pub AllReadable-array_append :
      (vs : Items F) (v : Value F)
      → AllReadable good vs
      → IsReadable good v
      → AllReadable good (array_append vs v)
  unfolding IsReadable array_append
  AllReadable-array_append no_items v h g = (g, tt)
  AllReadable-array_append (item w vs) v h g = (h.0, AllReadable-array_append vs v h.1 g)

  -- Setting keeps the keys of an object different.
  pub MembersReadable-set_member :
      (k : Bytes) (v : Value F) (ms : Members F)
      → c_str k ≡ k
      → IsReadable good v
      → MembersReadable good ms
      → MembersReadable good (set_member k v ms)
  unfolding IsReadable set_member find_member
  MembersReadable-set_member k v no_members e g h = (e, refl, g, tt)
  MembersReadable-set_member k v (member j w ms) e g h = elim (Bool-cases (equal j k)) [
    | inl same ↦ rw same (h.0, h.1, g, h.3)
    | inr other ↦ rw other (
      h.0,
      find_member-set_member_ne j k v ms (equal-false-sym j k other) ∙ h.1,
      h.2,
      MembersReadable-set_member k v ms e g h.3,
    )
  ]
