-- ===== src/Inventory/Removal.antt =====
-- crates/projectdawn-server/src/world/inventory.rs: taking items out (destroy, drop, consume), and
-- splitting a base stack.
use project_dawn_server.Inventory.Equip.{sync_source, peek_source}
use project_dawn_server.Inventory.State.{
  parsed, ensure_bag_init, pure, cell, write_cell, require, modify, gets, refuse_if, ◌>>◌, ◌>>=◌,
  bag_key_is_nonempty, PlayerInventory, Action,
}
use project_dawn_server.Items.{max_stack, Registry}
use project_dawn_server.Inventory.Entry.{
  too_few_to_split, source_empty, zero_count, same_slot, slot_out_of_range, bag_in_hand,
  different_item, stack_size_exceeded, bag_not_empty, saturating_add, bag_not_empty_to_destroy,
  wrapping_sub, MoveError, Slot, InventoryEntry,
}
use project_dawn_server.Inventory.Location.{
  is_held_bag_slot, base_slot_count, cursor_bag_key, SlotRefInt, base, bag, cursor,
}
use project_dawn_server.Base.{
  [], ◌∷◌, err, false, ltb, as_u8, str_eq, leb, ◌||◌, ok, none, Bool, ◌==◌, some, Result, List,
  if◌then◌else◌, String, ℕ,
}

-- The stack with `n` items fewer, or an empty slot.
abbrev pub reduced : InventoryEntry → ℕ → Slot
reduced e n =
    let left = wrapping_sub e.count n in
    if left == 0 then none else some (record e { count = left })

-- `count == 0` and any count above the stack's mean the whole stack.
abbrev pub amount_to_remove : ℕ → InventoryEntry → ℕ
amount_to_remove count e = if count == 0 || leb e.count count then e.count else count

module _ (items : Registry) where
  -- The bag that a reference names still holds something.
  abbrev pub nonempty_bag : SlotRefInt → PlayerInventory → Bool
  nonempty_bag (base s) inv = bag_key_is_nonempty (as_u8 s) inv
  nonempty_bag (bag b s) inv = false
  nonempty_bag cursor inv = bag_key_is_nonempty cursor_bag_key inv

  abbrev pub nonempty_error : SlotRefInt → MoveError
  nonempty_error (base s) = bag_not_empty_to_destroy
  nonempty_error (bag b s) = bag_not_empty_to_destroy
  nonempty_error cursor = bag_not_empty

  unfoldable pub destroy_at : String → ℕ → ℕ → Action (String × ℕ)
  destroy_at loc slot count = do
    parsed_ref ← parsed loc slot
    refuse_if (is_held_bag_slot parsed_ref) bag_in_hand
    refuse_if (← gets (nonempty_bag parsed_ref)) (nonempty_error parsed_ref)
    entry ← (λ inv. (peek_source parsed_ref inv, inv))
    let to_remove = amount_to_remove count entry
    modify (write_cell parsed_ref (reduced entry to_remove))
    modify (sync_source items parsed_ref)
    pure (entry.item_path, to_remove)

  unfoldable pub decrement_at : String → ℕ → Action String
  decrement_at loc slot = do
    parsed_ref ← parsed loc slot
    refuse_if (is_held_bag_slot parsed_ref) bag_in_hand
    entry ← (λ inv. (peek_source parsed_ref inv, inv))
    modify (write_cell parsed_ref (reduced entry 1))
    modify (sync_source items parsed_ref)
    pure entry.item_path

  -- Whether the destination takes the split.
  abbrev pub split_refusal : InventoryEntry → ℕ → Slot → Result MoveError (Unit {0})
  split_refusal entry count none = ok tt
  split_refusal entry count (some existing) =
      if str_eq existing.item_path entry.item_path
      then if ltb (max_stack items entry.item_path) (saturating_add existing.count count)
        then err stack_size_exceeded
        else ok tt
      else err different_item

  -- The destination with the split added.
  abbrev pub with_split : InventoryEntry → ℕ → Slot → Slot
  with_split entry count none = some (record entry { count = count })
  with_split entry count (some existing) =
      some (record existing { count = saturating_add existing.count count })

  unfoldable pub split_base : ℕ → ℕ → ℕ → Action (List ℕ)
  split_base src dst count = do
    refuse_if (leb base_slot_count src || leb base_slot_count dst) slot_out_of_range
    refuse_if (src == dst) same_slot
    refuse_if (count == 0) zero_count
    src_entry ← require (← gets (cell (base src))) source_empty
    refuse_if (ltb src_entry.count count) too_few_to_split
    dst_slot ← gets (cell (base dst))
    (λ inv. (split_refusal src_entry count dst_slot, inv))
    modify (write_cell (base src) (reduced src_entry count))
    modify (write_cell (base dst) (with_split src_entry count dst_slot))
    modify (ensure_bag_init items src)
    modify (ensure_bag_init items dst)
    pure (src ∷ dst ∷ [])
