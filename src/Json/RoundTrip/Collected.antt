-- ===== src/Json/RoundTrip/Collected.antt =====
-- What the loops of the parser have collected: items and members one behind the other.
use platform_service.Common.{◌≡◌, refl, ap, false, none, arith, Bytes, equal, equal_iff}
use platform_service.Json.Value.{
  Value, Items, no_items, item, Members, no_members, member, array_append, set_member, find_member,
}

equal_sym : (a b : Bytes) → equal a b ≡ false → equal b a ≡ false
equal_sym a b h = ground (arith, equal_iff a b, equal_iff b a)

module _ {F : Type 0} where
  unfoldable pub append_items : Items F → Items F → Items F
  append_items no_items ws = ws
  append_items (item v vs) ws = item v (append_items vs ws)

  pub append_items-array_append :
      (vs : Items F) (v : Value F) (ws : Items F)
      → append_items (array_append vs v) ws ≡ append_items vs (item v ws)
  unfolding append_items array_append
  append_items-array_append no_items v ws = refl
  append_items-array_append (item u vs) v ws = ap (item u) (append_items-array_append vs v ws)

  pub append_items_nil : (vs : Items F) → append_items vs no_items ≡ vs
  unfolding append_items
  append_items_nil no_items = refl
  append_items_nil (item v vs) = ap (item v) (append_items_nil vs)

  unfoldable pub append_members : Members F → Members F → Members F
  append_members no_members ns = ns
  append_members (member k v ms) ns = member k v (append_members ms ns)

  pub append_members_assoc :
      (ms ns os : Members F)
      → append_members (append_members ms ns) os ≡ append_members ms (append_members ns os)
  unfolding append_members
  append_members_assoc no_members ns os = refl
  append_members_assoc (member k v ms) ns os = ap (member k v) (append_members_assoc ms ns os)

  pub append_members_nil : (ms : Members F) → append_members ms no_members ≡ ms
  unfolding append_members
  append_members_nil no_members = refl
  append_members_nil (member k v ms) = ap (member k v) (append_members_nil ms)

  -- A new key is set behind the others.
  pub set_member_new :
      (k : Bytes) (v : Value F) (ms : Members F)
      → find_member k ms ≡ none
      → set_member k v ms ≡ append_members ms (member k v no_members)
  unfolding set_member find_member append_members
  set_member_new k v no_members h = refl
  set_member_new k v (member j w ms) h = ground (arith, set_member_new k v ms)

  pub find_member_added :
      (k j : Bytes) (v : Value F) (ms : Members F)
      → equal j k ≡ false
      → find_member k ms ≡ none
      → find_member k (append_members ms (member j v no_members)) ≡ none
  unfolding find_member append_members
  find_member_added k j v no_members n h = rw n refl
  find_member_added k j v (member i w ms) n h = ground (arith, find_member_added k j v ms)

  -- None of the later keys has been collected.
  unfoldable pub Apart : Members F → Members F → Type 0
  Apart acc no_members = Unit {0}
  Apart acc (member k v ms) = (find_member k acc ≡ none) × Apart acc ms

  pub Apart-added :
      (acc : Members F) (k : Bytes) (v : Value F) (ms : Members F)
      → find_member k ms ≡ none
      → Apart acc ms
      → Apart (append_members acc (member k v no_members)) ms
  unfolding Apart find_member
  Apart-added acc k v no_members h a = tt
  Apart-added acc k v (member j w ms) h a = (
    find_member_added j k v acc (equal_sym j k (ground arith)) a.0,
    Apart-added acc k v ms (ground arith) a.1,
  )

  pub Apart-nil : (ms : Members F) → Apart no_members ms
  unfolding Apart find_member
  Apart-nil no_members = tt
  Apart-nil (member k v ms) = (refl, Apart-nil ms)
