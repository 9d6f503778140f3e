-- ===== src/Json/Value/Readable.antt =====
-- What JSON text can carry of the values of src/json/json_parse.c.
use platform_service.Common.{◌≡◌, Bool, true, ◌&&◌, none, arith}
use platform_service.Json.Value.{
  c_str, Value, null, boolean, number, string, array, object, Items, no_items, item, Members,
  no_members, member, find_member,
}

module _ {F : Type 0} (good : F → Bool) where
  unfoldable mutual
    -- Numbers that pass the test, and keys that are different C strings.
    pub IsReadable : Value F → Type 0
    IsReadable null = Unit {0}
    IsReadable (boolean b) = Unit {0}
    IsReadable (number n) = good n ≡ true
    IsReadable (string s) = Unit {0}
    IsReadable (array vs) = AllReadable vs
    IsReadable (object ms) = MembersReadable ms

    pub AllReadable : Items F → Type 0
    AllReadable no_items = Unit {0}
    AllReadable (item v vs) = IsReadable v × AllReadable vs

    pub MembersReadable : Members F → Type 0
    MembersReadable no_members = Unit {0}
    MembersReadable (member k v ms) =
        (c_str k ≡ k) × (find_member k ms ≡ none) × IsReadable v × MembersReadable ms

  unfoldable mutual
    -- Only the numbers.
    pub numbers_pass : Value F → Bool
    numbers_pass null = true
    numbers_pass (boolean b) = true
    numbers_pass (number n) = good n
    numbers_pass (string s) = true
    numbers_pass (array vs) = items_pass vs
    numbers_pass (object ms) = members_pass ms

    pub items_pass : Items F → Bool
    items_pass no_items = true
    items_pass (item v vs) = numbers_pass v && items_pass vs

    pub members_pass : Members F → Bool
    members_pass no_members = true
    members_pass (member k v ms) = numbers_pass v && members_pass ms

abbrev pub any : {F : Type 0} → F → Bool
any n = true

module _ {F : Type 0} (good : F → Bool) where
  mutual
    unfolding IsReadable numbers_pass

    pub IsReadable-any :
        (v : Value F) → IsReadable any v → numbers_pass good v ≡ true → IsReadable good v
    IsReadable-any null h n = tt
    IsReadable-any (boolean b) h n = tt
    IsReadable-any (number x) h n = n
    IsReadable-any (string s) h n = tt
    IsReadable-any (array vs) h n = AllReadable-any vs h n
    IsReadable-any (object ms) h n = MembersReadable-any ms h n

    AllReadable-any :
        (vs : Items F) → AllReadable any vs → items_pass good vs ≡ true → AllReadable good vs
    AllReadable-any no_items h n = tt
    AllReadable-any (item v vs) h n =
        (IsReadable-any v h.0 (ground arith), AllReadable-any vs h.1 (ground arith))

    MembersReadable-any :
        (ms : Members F)
        → MembersReadable any ms
        → members_pass good ms ≡ true
        → MembersReadable good ms
    MembersReadable-any no_members h n = tt
    MembersReadable-any (member k v ms) h n =
        (h.0, h.1, IsReadable-any v h.2 (ground arith), MembersReadable-any ms h.3 (ground arith))
