-- ===== src/Json/Writer/Text.antt =====
-- The text of a value with what follows it, and `write_value` of src/json/json_write.c against
-- it: what the writer appends is that text, and it fails only beyond the depth limit.
use platform_service.Common.{
  ℕ, zero, suc, ◌≤◌, ◌≡◌, refl, sym, ap, ◌∙◌, true, false, not, Option, none, some, [], ◌∷◌, ◌++◌,
  append_assoc, arith, Bytes, codes, if◌then◌else◌,
}
use platform_service.Json.Value.{
  members_depth, items_depth, c_str, Value, null, boolean, number, string, array, object, Items,
  no_items, item, Members, no_members, member, depth, max_depth,
}
use platform_service.Json.Writer.{
  write_members, write_items, Doubles, write_string, write_number, ◌then_text◌, write_value, write,
}

-- A text behind `a` and in front of another, taken apart.
then_text-eq-some :
    (a : Bytes) (m n : Option Bytes) (t : Bytes)
    → (some a then_text m then_text n) ≡ some t
    → (x : Bytes) × (y : Bytes) × (m ≡ some x) × (n ≡ some y) × (t ≡ a ++ (x ++ y))
then_text-eq-some a (some x) (some y) t h = (x, y, refl, refl, ground arith)
then_text-eq-some a (some x) none t h = ground arith
then_text-eq-some a none n t h = ground arith

then_text_twice :
    (a b : Bytes) (m n : Option Bytes) (t : Bytes)
    → (some a then_text some b then_text m then_text n) ≡ some t
    → (x : Bytes) × (y : Bytes) × (m ≡ some x) × (n ≡ some y) × (t ≡ a ++ (b ++ (x ++ y)))
then_text_twice a b (some x) (some y) t h = (x, y, refl, refl, ground arith)
then_text_twice a b (some x) none t h = ground arith
then_text_twice a b none n t h = ground arith

-- The text between its brackets, with what follows.
closed_text :
    (open_byte close_byte : ℕ) (x y t rest inner : Bytes)
    → some (close_byte ∷ []) ≡ some y
    → t ≡ open_byte ∷ (x ++ y)
    → inner ≡ x ++ close_byte ∷ rest
    → open_byte ∷ inner ≡ t ++ rest
closed_text o c x y t rest inner h e i =
    ap (λ s. o ∷ s) (i ∙ sym (append_assoc x (c ∷ []) rest))
    ∙ rw e (ap (λ z. o ∷ ((x ++ z) ++ rest)) (cc h))

module _ {F : Type 0} (fp : Doubles F) where
  unfoldable pub number_text : F → Bytes
  number_text n = if not (fp.is_finite n) then codes "null" else fp.format n

  pub number_text_finite : (n : F) → fp.is_finite n ≡ true → number_text n ≡ fp.format n
  unfolding number_text
  number_text_finite n h = rw h refl

  unfoldable mutual
    pub value_text : Value F → Bytes → Bytes
    value_text null rest = codes "null" ++ rest
    value_text (boolean true) rest = codes "true" ++ rest
    value_text (boolean false) rest = codes "false" ++ rest
    value_text (number n) rest = number_text n ++ rest
    value_text (string s) rest = write_string s ++ rest
    value_text (array vs) rest = b'[' ∷ items_text [] vs (b']' ∷ rest)
    value_text (object ms) rest = b'{' ∷ members_text [] ms (b'}' ∷ rest)

    pub items_text : Bytes → Items F → Bytes → Bytes
    items_text separator no_items rest = rest
    items_text separator (item v vs) rest =
        separator ++ value_text v (items_text (b',' ∷ []) vs rest)

    pub members_text : Bytes → Members F → Bytes → Bytes
    members_text separator no_members rest = rest
    members_text separator (member k v ms) rest =
        separator
        ++ (write_string (c_str k) ++ b':' ∷ value_text v (members_text (b',' ∷ []) ms rest))

  write_number-eq-some : (n : F) (t : Bytes) → write_number fp n ≡ some t → t ≡ number_text n
  unfolding write_number number_text
  write_number-eq-some n t h = ground arith

  mutual
    unfolding write_value value_text depth

    -- A text that the writer appends is the value's, and the value is no deeper than allowed.
    pub write_value-eq-some :
        (levels : ℕ) (v : Value F) (t : Bytes)
        → write_value fp levels v ≡ some t
        → (depth v ≤ levels) × ((rest : Bytes) → value_text v rest ≡ t ++ rest)
    write_value-eq-some zero v t h = ground arith
    write_value-eq-some (suc levels) null t h = (omega arith, λ rest. ground arith)
    write_value-eq-some (suc levels) (boolean true) t h = (omega arith, λ rest. ground arith)
    write_value-eq-some (suc levels) (boolean false) t h = (omega arith, λ rest. ground arith)
    write_value-eq-some (suc levels) (number n) t h =
        (omega arith, λ rest. rw (write_number-eq-some n t h) refl)
    write_value-eq-some (suc levels) (string s) t h = (omega arith, λ rest. ground arith)
    write_value-eq-some (suc levels) (array vs) t h =
        let (x, y, ex, ey, et) =
          then_text-eq-some (codes "[") (write_items fp levels [] vs) (some (codes "]")) t h in
        let (d, e) = write_items-eq-some levels [] vs x ex in
        (omega arith, λ rest. closed_text b'[' b']' x y t rest _ ey et (e (b']' ∷ rest)))
    write_value-eq-some (suc levels) (object ms) t h =
        let (x, y, ex, ey, et) =
          then_text-eq-some (codes "{") (write_members fp levels [] ms) (some (codes "}")) t h in
        let (d, e) = write_members-eq-some levels [] ms x ex in
        (omega arith, λ rest. closed_text b'{' b'}' x y t rest _ ey et (e (b'}' ∷ rest)))

    write_items-eq-some :
        (levels : ℕ) (separator : Bytes) (vs : Items F) (t : Bytes)
        → write_items fp levels separator vs ≡ some t
        → (items_depth vs ≤ levels) × ((rest : Bytes) → items_text separator vs rest ≡ t ++ rest)
    write_items-eq-some levels separator no_items t h = (omega arith, λ rest. ground arith)
    write_items-eq-some levels separator (item v vs) t h =
        let (x, y, ex, ey, et) =
          then_text-eq-some separator (write_value fp levels v)
            (write_items fp levels (codes ",") vs) t h in
        let (d, e) = write_value-eq-some levels v x ex in
        let (ds, es) = write_items-eq-some levels (codes ",") vs y ey in
        (
          omega arith,
          λ rest. rw (et, e (items_text (b',' ∷ []) vs rest), es rest) (simp append_assoc),
        )

    write_members-eq-some :
        (levels : ℕ) (separator : Bytes) (ms : Members F) (t : Bytes)
        → write_members fp levels separator ms ≡ some t
        → (members_depth ms ≤ levels)
          × ((rest : Bytes) → members_text separator ms rest ≡ t ++ rest)
    write_members-eq-some levels separator no_members t h = (omega arith, λ rest. ground arith)
    write_members-eq-some levels separator (member k v ms) t h =
        let (x, y, ex, ey, et) =
          then_text_twice separator (write_string (c_str k) ++ codes ":") (write_value fp levels v)
            (write_members fp levels (codes ",") ms) t h in
        let (d, e) = write_value-eq-some levels v x ex in
        let (ds, es) = write_members-eq-some levels (codes ",") ms y ey in
        (
          omega arith,
          λ rest. rw (et, e (members_text (b',' ∷ []) ms rest), es rest) (simp append_assoc),
        )

  -- What `ps_json_write` appends is the text of the value, which is at most 32 levels deep.
  pub write-eq-some :
      (v : Value F) (t : Bytes)
      → write fp v ≡ some t
      → (depth v ≤ max_depth) × ((rest : Bytes) → value_text v rest ≡ t ++ rest)
  unfolding write
  write-eq-some v t h = write_value-eq-some max_depth v t h
