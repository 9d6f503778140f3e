-- ===== src/Json/Value.antt =====
-- JSON values, their construction and inspection, src/json/json_parse.c and json_parse.h.
-- `double` is the type `F`. Allocation succeeds; `ps_json_free` gives memory back and has no
-- counterpart. A pointer that may be NULL is an Option.
pub mod Readable
pub mod Setting
use platform_service.Common.{
  ℕ, zero, suc, Bool, false, Option, none, some, [], ◌∷◌, Bytes, ◌==◌, if◌then◌else◌, length, equal,
}
use Prim.Native.Nat.{max}

-- PS_JSON_MAX_DEPTH.
abbrev pub max_depth : ℕ
max_depth = 32

mutual
  pub data Value (F : Type 0) : Type 0 where
    null : Value F
    boolean : Bool → Value F
    number : F → Value F
    string : Bytes → Value F
    array : Items F → Value F
    object : Members F → Value F

  pub data Items (F : Type 0) : Type 0 where
    no_items : Items F
    item : Value F → Items F → Items F

  pub data Members (F : Type 0) : Type 0 where
    no_members : Members F
    member : Bytes → Value F → Members F → Members F

pub data Kind : Type 0 where
  null_kind : Kind
  bool_kind : Kind
  number_kind : Kind
  string_kind : Kind
  array_kind : Kind
  object_kind : Kind

-- What a C string function reads of the bytes: those before the first NUL.
unfoldable pub c_str : Bytes → Bytes
c_str [] = []
c_str (c ∷ s) = if c == 0 then [] else c ∷ c_str s

module _ {F : Type 0} where
  unfoldable pub array_append : Items F → Value F → Items F
  array_append no_items v = item v no_items
  array_append (item w vs) v = item w (array_append vs v)

  -- The loop of `ps_json_object_set`, whose key is a C string.
  unfoldable pub set_member : Bytes → Value F → Members F → Members F
  set_member key v no_members = member key v no_members
  set_member key v (member k w ms) =
      if equal k key then member k v ms else member k w (set_member key v ms)

  unfoldable pub object_set : Members F → Bytes → Value F → Members F
  object_set ms key v = set_member (c_str key) v ms

  unfoldable pub kind : Option (Value F) → Kind
  kind none = null_kind
  kind (some null) = null_kind
  kind (some (boolean b)) = bool_kind
  kind (some (number n)) = number_kind
  kind (some (string s)) = string_kind
  kind (some (array vs)) = array_kind
  kind (some (object ms)) = object_kind

  unfoldable pub get_bool : Option (Value F) → Bool
  get_bool (some (boolean b)) = b
  get_bool _ = false

  unfoldable pub get_number : F → Option (Value F) → F
  get_number zero_point (some (number n)) = n
  get_number zero_point _ = zero_point

  -- The bytes behind the pointer, all `len` of them.
  unfoldable pub get_string : Option (Value F) → Option Bytes
  get_string (some (string s)) = some s
  get_string _ = none

  unfoldable pub get_string_len : Option (Value F) → ℕ
  get_string_len (some (string s)) = length s
  get_string_len _ = 0

  unfoldable pub count_items : Items F → ℕ
  count_items no_items = 0
  count_items (item v vs) = suc (count_items vs)

  unfoldable pub nth_item : Items F → ℕ → Option (Value F)
  nth_item no_items i = none
  nth_item (item v vs) zero = some v
  nth_item (item v vs) (suc i) = nth_item vs i

  unfoldable pub array_count : Option (Value F) → ℕ
  unfolding count_items
  array_count (some (array vs)) = count_items vs
  array_count _ = 0

  unfoldable pub array_get : Option (Value F) → ℕ → Option (Value F)
  unfolding nth_item
  array_get (some (array vs)) i = nth_item vs i
  array_get _ i = none

  unfoldable pub count_members : Members F → ℕ
  count_members no_members = 0
  count_members (member k v ms) = suc (count_members ms)

  unfoldable pub find_member : Bytes → Members F → Option (Value F)
  find_member key no_members = none
  find_member key (member k v ms) = if equal k key then some v else find_member key ms

  unfoldable pub nth_member : Members F → ℕ → Option (Bytes × Value F)
  nth_member no_members i = none
  nth_member (member k v ms) zero = some (k, v)
  nth_member (member k v ms) (suc i) = nth_member ms i

  unfoldable pub object_count : Option (Value F) → ℕ
  unfolding count_members
  object_count (some (object ms)) = count_members ms
  object_count _ = 0

  unfoldable pub object_get : Option (Value F) → Bytes → Option (Value F)
  unfolding find_member
  object_get (some (object ms)) key = find_member (c_str key) ms
  object_get _ key = none

  -- The key and the value at an index, of `ps_json_object_key_at` and `ps_json_object_value_at`.
  unfoldable pub object_at : Option (Value F) → ℕ → Option (Bytes × Value F)
  unfolding nth_member
  object_at (some (object ms)) i = nth_member ms i
  object_at _ i = none

-- Levels of nesting; a value without parts has one.
unfoldable mutual
  pub depth : {F : Type 0} → Value F → ℕ
  depth null = 1
  depth (boolean b) = 1
  depth (number n) = 1
  depth (string s) = 1
  depth (array vs) = suc (items_depth vs)
  depth (object ms) = suc (members_depth ms)

  pub items_depth : {F : Type 0} → Items F → ℕ
  items_depth no_items = 0
  items_depth (item v vs) = max (depth v) (items_depth vs)

  pub members_depth : {F : Type 0} → Members F → ℕ
  members_depth no_members = 0
  members_depth (member k v ms) = max (depth v) (members_depth ms)
