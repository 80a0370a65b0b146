-- ===== src/Protocol/Canonical/Order.antt =====
-- The order of members by UTF-16 units, and that the canonical text is free of the order in which a
-- document lists its members.
use retentionops_connector.Prelude.{
  ◌≡◌, refl, sym, ap, ◌∙◌, ◌≢◌, ◌⊎◌, inl, inr, ℕ, String, Bool, true, false, List, [], ◌∷◌, arith,
  Bool-cases,
}
use retentionops_connector.Prelude.Result.{ok, ◌>>=◌}
use retentionops_connector.Protocol.Json.{Json, Items, Members}
use retentionops_connector.Protocol.Canonical.{
  less_units, units, less_utf16, insert_entry, sort_entries, join_members, write_canonical,
  write_items, write_members,
}

less_units_trans :
    (a b c : List ℕ) → less_units a b ≡ true → less_units b c ≡ true → less_units a c ≡ true
unfolding less_units
less_units_trans [] [] c p q = cc
less_units_trans [] (y ∷ b) [] p q = cc
less_units_trans [] (y ∷ b) (z ∷ c) p q = refl
less_units_trans (x ∷ a) [] c p q = cc
less_units_trans (x ∷ a) (y ∷ b) [] p q = cc
less_units_trans (x ∷ a) (y ∷ b) (z ∷ c) p q = ground (arith, less_units_trans a b c)

less_units_asym : (a b : List ℕ) → less_units a b ≡ true → less_units b a ≡ false
unfolding less_units
less_units_asym [] [] p = cc
less_units_asym [] (y ∷ b) p = refl
less_units_asym (x ∷ a) [] p = cc
less_units_asym (x ∷ a) (y ∷ b) p = ground (arith, less_units_asym a b)

less_units_connex : (a b : List ℕ) → less_units a b ≡ false → less_units b a ≡ false → a ≡ b
unfolding less_units
less_units_connex [] [] p q = refl
less_units_connex [] (y ∷ b) p q = cc
less_units_connex (x ∷ a) [] p q = cc
less_units_connex (x ∷ a) (y ∷ b) p q = ground (arith, less_units_connex a b)

-- Two keys with different units are in one order or in the other, and not in both.
pub less_utf16-cases :
    (key other : String)
    → units key ≢ units other
    → ((less_utf16 key other ≡ true) × (less_utf16 other key ≡ false))
      ⊎ ((less_utf16 key other ≡ false) × (less_utf16 other key ≡ true))
less_utf16-cases key other apart = elim (Bool-cases (less_utf16 key other)) [
  | inl before ↦ inl (before, less_units_asym (units key) (units other) before)
  | inr not_before ↦ elim (Bool-cases (less_utf16 other key)) [
    | inl after ↦ inr (not_before, after)
    | inr neither ↦ absurd (apart (less_units_connex (units key) (units other) not_before neither))
  ]
]

module _ {ℓ} {A : Type ℓ} where
  -- Entries whose keys differ may be inserted in either order.
  insert_ordered :
      (key other : String) (a b : A) (rest : List (String × A))
      → less_utf16 key other ≡ true
      → less_utf16 other key ≡ false
      → insert_entry (key, a) (insert_entry (other, b) rest)
        ≡ insert_entry (other, b) (insert_entry (key, a) rest)
  unfolding insert_entry
  insert_ordered key other a b [] p q = ground arith
  insert_ordered key other a b ((third, c) ∷ rest) p q = ground (
    arith,
    insert_ordered key other a b rest p q,
    less_units_trans (units key) (units other) (units third) p,
  )

  pub insert_entry_comm :
      (key other : String) (a b : A) (rest : List (String × A))
      → units key ≢ units other
      → insert_entry (key, a) (insert_entry (other, b) rest)
        ≡ insert_entry (other, b) (insert_entry (key, a) rest)
  insert_entry_comm key other a b rest apart = elim (less_utf16-cases key other apart) [
    | inl (p, q) ↦ insert_ordered key other a b rest p q
    | inr (p, q) ↦ sym (insert_ordered other key b a rest q p)
  ]

-- Two documents that differ in the order of the members of their objects, at any depth. Members
-- whose names differ may change places.
mutual
  pub data Reordered : Json → Json → Type 0 where
    same : {j : Json} → Reordered j j
    array : {xs ys : Items} → ReorderedItems xs ys → Reordered (Json.array xs) (Json.array ys)
    object :
        {ms ns : Members} → ReorderedMembers ms ns → Reordered (Json.object ms) (Json.object ns)

  pub data ReorderedItems : Items → Items → Type 0 where
    no_items : ReorderedItems Items.nil Items.nil
    item :
        {v w : Json} {xs ys : Items}
        → Reordered v w
        → ReorderedItems xs ys
        → ReorderedItems (Items.cons v xs) (Items.cons w ys)

  pub data ReorderedMembers : Members → Members → Type 0 where
    no_members : ReorderedMembers Members.end Members.end
    one :
        {key : String} {v w : Json} {ms ns : Members}
        → Reordered v w
        → ReorderedMembers ms ns
        → ReorderedMembers (Members.member key v ms) (Members.member key w ns)
    swap :
        {key other : String} {v w : Json} {ms : Members}
        → units key ≢ units other
        → ReorderedMembers
            (Members.member key v (Members.member other w ms))
            (Members.member other w (Members.member key v ms))
    via :
        {ms ns os : Members}
        → ReorderedMembers ms ns
        → ReorderedMembers ns os
        → ReorderedMembers ms os

mutual
  unfolding write_canonical sort_entries

  write_reordered : {v w : Json} → Reordered v w → write_canonical v ≡ write_canonical w
  write_reordered same = refl
  write_reordered (array r) =
      ap (λ written. written >>= λ t. ok (b'[' ∷ t)) (items_reordered true r)
  write_reordered (object r) =
      ap (λ entries. join_members true entries >>= λ t. ok (b'{' ∷ t)) (members_reordered r)

  items_reordered :
      (first : Bool) {xs ys : Items}
      → ReorderedItems xs ys
      → write_items first xs ≡ write_items first ys
  items_reordered first no_items = refl
  items_reordered first (item r rs) = rw (write_reordered r, items_reordered false rs)

  members_reordered :
      {ms ns : Members}
      → ReorderedMembers ms ns
      → sort_entries (write_members ms) ≡ sort_entries (write_members ns)
  members_reordered no_members = refl
  members_reordered (one r rs) = rw (write_reordered r, members_reordered rs)
  members_reordered (swap {key} {other} {v} {w} {ms} apart) =
      insert_entry_comm key other (write_canonical v) (write_canonical w)
        (sort_entries (write_members ms)) apart
  members_reordered (via r rs) = members_reordered r ∙ members_reordered rs

-- Documents that differ only in the order of members are written alike, or refused with the same
-- error: the canonical text, and so a digest or a signature over it, does not depend on that order.
pub write_canonical-Reordered : (v w : Json) → Reordered v w → write_canonical v ≡ write_canonical w
write_canonical-Reordered v w r = write_reordered r
