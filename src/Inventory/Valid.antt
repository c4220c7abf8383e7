-- ===== src/Inventory/Valid.antt =====
-- When an inventory is well formed, and that a write of a like stack keeps it so.
use project_dawn_server.Base.{
  ℕ, ◌+◌, ◌<◌, ◌≤◌, ◌≡◌, ◌≢◌, ok, err, refl, ap, sym, ◌∙◌, subst, ◌⊎◌, inl, inr, List, none, some,
  String, arith, Option-cases, ℕ_discrete, length, eq_iff, u32_mod,
}
use project_dawn_server.Items.{Registry, IsRegistry, max_stack-u32, bag_num_slots}
use project_dawn_server.Inventory.Entry.{
  InventoryEntry, Slot, Slots, slot_at, count_in, merge_capped,
}
use project_dawn_server.Inventory.Location.{
  SlotRefInt, base, bag, cursor, base_slot_count, equip_slot_count, cursor_bag_key,
}
use project_dawn_server.Inventory.State.{
  PlayerInventory, Move, cell, write_cell, slot_bag_size, place_onto,
}
use project_dawn_server.Inventory.Cells.{
  host, size_of, count_of, InRange, cell-write_self, cell-write_ne, size-write_cell,
  length-base-write_cell, equipment-write_cell,
}

-- A stack holds at least one item, and its count fits a `u32`.
abbrev pub IsStack : Slot → Type 0
IsStack none = Unit {0}
IsStack (some e) = (0 < e.count) × (e.count < u32_mod)

-- Contents are kept exactly under the keys of slots that hold a bag, at the bag's size; no bag is
-- inside a bag or worn; and every slot holds a proper stack or nothing.
pub record IsValid (items : Registry) (inv : PlayerInventory) : Type 0 where
  pub base_len : length inv.base ≡ base_slot_count
  pub hosted : (k : ℕ) → slot_bag_size items (cell (host k) inv) ≡ size_of (inv.bags k)
  pub inner : (k i : ℕ) → slot_bag_size items (cell (bag k i) inv) ≡ none
  pub stacks : (r : SlotRefInt) → IsStack (cell r inv)
  pub worn_stacks : (k : ℕ) → IsStack (inv.equipment k)
  pub worn_plain : (k : ℕ) → slot_bag_size items (inv.equipment k) ≡ none
  pub worn_range : (k : ℕ) → equip_slot_count ≤ k → inv.equipment k ≡ none

-- The inventory afterwards is well formed and holds as many of each item.
abbrev pub Kept : Registry → PlayerInventory → PlayerInventory → Type 0
Kept items inv after =
    IsValid items after × ((path : String) → count_of path after ≡ count_of path inv)

-- An operation that succeeds only rearranges, and one that is refused changes nothing.
abbrev pub Rearranges : {A : Type 0} → Registry → PlayerInventory → Move A → Type 0
Rearranges items inv (ok _, after) = Kept items inv after
Rearranges items inv (err _, after) = after ≡ inv

pub SlotRefInt-discrete : Discrete SlotRefInt
SlotRefInt-discrete = hlevel ℕ_discrete

pub slot_at_above : (xs : Slots) (i : ℕ) → length xs ≤ i → slot_at xs i ≡ none
slot_at_above List.[] i h = refl
slot_at_above (List.◌∷◌ x xs) ℕ.zero h = absurd (omega arith)
slot_at_above (List.◌∷◌ x xs) (ℕ.suc i) h = slot_at_above xs i (omega arith)

-- Contents stand under the key of a base slot, or under that of the held bag.
pub bags-key :
    (items : Registry) (inv : PlayerInventory) (k : ℕ) {arr : Slots}
    → IsValid items inv
    → inv.bags k ≡ some arr
    → (k < base_slot_count) ⊎ (k ≡ cursor_bag_key)
unfolding cell
bags-key items inv k v e = ground (arith, slot_at_above inv.base k, v.hosted k, v.base_len)

pub InRange-write_cell :
    (r s : SlotRefInt) (v : Slot) (inv : PlayerInventory)
    → InRange s inv
    → InRange s (write_cell r v inv)
InRange-write_cell r (base i) v inv h = omega (arith, length-base-write_cell r v inv)
InRange-write_cell r (bag k i) v inv (arr, e, h, low) =
    elim (Option-cases ((write_cell r v inv).bags k)) [
      | inl gone ↦ absurd (ground (arith, size-write_cell r v inv k))
      | inr (new, f) ↦ (new, f, ground (arith, size-write_cell r v inv k), low)
    ]
InRange-write_cell r cursor v inv h = tt

module _ (items : Registry) (r : SlotRefInt) (v : Slot) (inv : PlayerInventory)
    (there : InRange r inv) where
  -- What holds of the new slot, and of every old one, holds of every slot after the write.
  pub cell-write_all :
      (P : Slot → Type 0) (s : SlotRefInt)
      → (r ≡ s → P v)
      → (r ≢ s → P (cell s inv))
      → P (cell s (write_cell r v inv))
  cell-write_all P s new old = elim (SlotRefInt-discrete r s) [
    | yes e ↦
        subst (λ t. P (cell t (write_cell r v inv))) e (rw (cell-write_self r v inv there) (new e))
    | no ne ↦ rw (cell-write_ne r s v inv ne) (old ne)
  ]

  pub write_cell-IsValid :
      IsValid items inv
      → IsStack v
      → slot_bag_size items v ≡ slot_bag_size items (cell r inv)
      → IsValid items (write_cell r v inv)
  write_cell-IsValid valid stack like = record {
    base_len = rw (length-base-write_cell r v inv) valid.base_len;
    hosted = λ k.
        cell-write_all (λ t. slot_bag_size items t ≡ size_of ((write_cell r v inv).bags k)) (host k)
          (λ e.
            like
            ∙ ap (λ t. slot_bag_size items (cell t inv)) e
            ∙ valid.hosted k
            ∙ sym (size-write_cell r v inv k))
          (λ _. valid.hosted k ∙ sym (size-write_cell r v inv k));
    inner = λ k i.
        cell-write_all (λ t. slot_bag_size items t ≡ none) (bag k i)
          (λ e. like ∙ ap (λ t. slot_bag_size items (cell t inv)) e ∙ valid.inner k i)
          (λ _. valid.inner k i);
    stacks = λ s. cell-write_all IsStack s (λ _. stack) (λ _. valid.stacks s);
    worn_stacks = λ k. rw (equipment-write_cell r v inv) (valid.worn_stacks k);
    worn_plain = λ k. rw (equipment-write_cell r v inv) (valid.worn_plain k);
    worn_range = λ k h. rw (equipment-write_cell r v inv) (valid.worn_range k h);
  }

-- What the match on the destination keeps: both sides are proper stacks, both are plain where both
-- were, and no item is lost.
pub record Placed (items : Registry) (existing : Slot) (entry : InventoryEntry) (out : Slot × Slot)
    : Type 0 where
  pub dst_stack : IsStack out.0
  pub src_stack : IsStack out.1
  pub dst_plain : slot_bag_size items out.0 ≡ none
  pub src_plain : slot_bag_size items out.1 ≡ none
  pub counts :
      (path : String)
      → count_in path out.0 + count_in path out.1
        ≡ count_in path existing + count_in path (some entry)

pub place_onto-Placed :
    (items : Registry) (existing : Slot) (entry : InventoryEntry)
    → IsRegistry items
    → IsStack existing
    → IsStack (some entry)
    → slot_bag_size items existing ≡ none
    → bag_num_slots items entry.item_path ≡ none
    → Placed items existing entry (place_onto items existing entry)
unfolding place_onto merge_capped
place_onto-Placed items none entry reg s t p q = record {
  dst_stack = t;
  src_stack = tt;
  dst_plain = q;
  src_plain = refl;
  counts = λ path. omega arith;
}
place_onto-Placed items (some x) entry reg s t p q =
    let cap = max_stack-u32 items reg x.item_path in
    let same = eq_iff x.item_path entry.item_path in
    record {
      dst_stack = ground (arith, cap);
      src_stack = ground (arith, cap);
      dst_plain = ground (arith, cap);
      src_plain = ground (arith, cap);
      counts = λ path. ground (arith, cap, same);
    }
