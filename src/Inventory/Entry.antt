-- ===== src/Inventory/Entry.antt =====
-- crates/projectdawn-server/src/world/inventory.rs: stacks and slots, the capped merge of two
-- stacks, and the reasons for which an operation is refused.
use project_dawn_server.Base.{
  ℕ, ◌+◌, ◌-◌, ◌<◌, ◌≡◌, Bool, true, false, Option, none, some, List, String, str_eq, ltb,
  if◌then◌else◌, u32_max, u32_mod, arith, get_or, min, ◌%◌,
}
use project_dawn_server.Items.{Registry, max_stack, bag_num_slots}

pub data MoveError : Type 0 where
  bag_in_hand bag_inside_bag bag_into_bag_slot bag_not_empty bag_not_empty_to_destroy : MoveError
  bag_slot_out_of_range bags_full base_item_not_equippable_here base_slot_out_of_range : MoveError
  cursor_occupied destination_bag_slot_out_of_range different_item empty_item_path : MoveError
  equip_slot_empty equip_slot_out_of_range inventory_full no_bag_at_slot no_destination_bag :
      MoveError
  no_source_bag not_equippable_here same_slot slot_out_of_range source_bag_slot_out_of_range :
      MoveError
  source_empty stack_size_exceeded too_few_to_split unsupported_location zero_count : MoveError

pub record InventoryEntry : Type 0 where
  pub item_path : String
  pub count : ℕ

-- A slot holds one stack, or nothing.
abbrev pub Slot : Type 0
Slot = Option InventoryEntry

abbrev pub Slots : Type 0
Slots = List Slot

-- `xs.get(i).and_then(|s| s.as_ref())`, and `xs[i]` where `i` is known to be in range.
abbrev pub slot_at : Slots → ℕ → Slot
slot_at xs i = get_or xs i none

-- `u32::saturating_add`
abbrev pub saturating_add : ℕ → ℕ → ℕ
saturating_add a b = min (a + b) u32_max

-- `entry.count -= n` as a release build computes it.
abbrev pub wrapping_sub : ℕ → ℕ → ℕ
wrapping_sub a n = (a + u32_mod - n) % u32_mod

module _ (items : Registry) where
  -- The destination after the merge, and what did not fit.
  unfoldable pub merge_capped : InventoryEntry → InventoryEntry → InventoryEntry × Slot
  merge_capped existing incoming =
      let cap = max_stack items existing.item_path in
      let space = cap - existing.count in
      let moved = min incoming.count space in
      let leftover = incoming.count - moved in
      let merged : InventoryEntry = record existing {
        count = saturating_add existing.count moved;
      } in
      let rest : InventoryEntry = record incoming { count = leftover } in
      (merged, if ltb 0 leftover then some rest else none)

  unfoldable pub is_bag_item : String → Bool
  is_bag_item path = elim (bag_num_slots items path) [ none ↦ false | some n ↦ true ]

-- How many of the item at `path` a slot holds.
abbrev pub count_in : String → Slot → ℕ
count_in path none = 0
count_in path (some e) = if str_eq e.item_path path then e.count else 0

-- Merging two stacks of one item whose counts fit a u32 together keeps the count of every item,
-- what stays in the stack and what is left over taken together.
pub merge_capped-count :
    (items : Registry) (path : String) (existing incoming : InventoryEntry)
    → existing.item_path ≡ incoming.item_path
    → existing.count + incoming.count < u32_mod
    → let (merged, rest) = merge_capped items existing incoming in
      count_in path (some merged) + count_in path rest
      ≡ count_in path (some existing) + count_in path (some incoming)
unfolding merge_capped
merge_capped-count items path existing incoming same fits = ground arith
