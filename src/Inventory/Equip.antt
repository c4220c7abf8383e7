-- ===== src/Inventory/Equip.antt =====
-- crates/projectdawn-server/src/world/inventory.rs: wearing gear and taking it off.
use project_dawn_server.Inventory.State.{
  parsed, pure, write_cell, modify, require, cell, gets, refuse_if, ◌>>◌, ◌>>=◌, ensure_bag_init,
  Touched, PlayerInventory, Action,
}
use project_dawn_server.Inventory.Entry.{
  equip_slot_empty, not_equippable_here, base_item_not_equippable_here, cursor_occupied,
  source_empty, bag_in_hand, slot_at, base_slot_out_of_range, bag_slot_out_of_range,
  equip_slot_out_of_range, no_source_bag, InventoryEntry, MoveError, Slot,
}
use project_dawn_server.Items.{is_equippable_in_slot, Registry}
use project_dawn_server.Inventory.Location.{
  is_held_bag_slot, base_slot_count, equip_slot_count, bag_location, SlotRefInt, base, bag, cursor,
}
use project_dawn_server.Base.{
  false, ◌==◌, ◌||◌, [], ◌∷◌, ok, not, is_some, length, if◌then◌else◌, leb, err, none, some, update,
  true, Result, String, Bool, ℕ,
}

-- The worn stack of a slot, replaced.
unfoldable pub put_worn : ℕ → Slot → PlayerInventory → PlayerInventory
put_worn slot s inv = record inv { equipment = update slot s inv.equipment }

-- The stack that a reference names, or the reason why there is none.
unfoldable pub peek_source : SlotRefInt → PlayerInventory → Result MoveError InventoryEntry
peek_source (bag b s) inv = elim (inv.bags b) [
  | none ↦ err no_source_bag
  | some arr ↦
      if leb (length arr) s
      then err bag_slot_out_of_range
      else elim (slot_at arr s) [ none ↦ err source_empty | some e ↦ ok e ]
]
peek_source (base s) inv = elim (slot_at inv.base s) [ none ↦ err source_empty | some e ↦ ok e ]
peek_source cursor inv = elim inv.cursor [ none ↦ err source_empty | some e ↦ ok e ]

abbrev pub touched_slot : SlotRefInt → String × ℕ
touched_slot (base s) = ("base", s)
touched_slot (bag b s) = (bag_location b, s)
touched_slot cursor = ("cursor", 0)

module _ (items : Registry) where
  -- The displaced base item must be wearable in that slot.
  abbrev pub swap_fits : ℕ → Slot → Bool
  swap_fits equip_slot none = true
  swap_fits equip_slot (some existing) = is_equippable_in_slot items existing.item_path equip_slot

  unfoldable pub unequip_to_base : ℕ → ℕ → Action Touched
  unequip_to_base equip_slot dst = do
    refuse_if (leb equip_slot_count equip_slot) equip_slot_out_of_range
    refuse_if (leb base_slot_count dst) base_slot_out_of_range
    prev_base ← gets (cell (base dst))
    refuse_if (not (swap_fits equip_slot prev_base)) base_item_not_equippable_here
    equip_entry ← require (← gets (λ inv. inv.equipment equip_slot)) equip_slot_empty
    modify (write_cell (base dst) (some equip_entry))
    modify (put_worn equip_slot prev_base)
    modify (ensure_bag_init items dst)
    pure (("base", dst) ∷ ("equip", equip_slot) ∷ [])

  unfoldable pub unequip_to_cursor : ℕ → Action Touched
  unequip_to_cursor equip_slot = do
    refuse_if (leb equip_slot_count equip_slot) equip_slot_out_of_range
    refuse_if (is_some (← gets (cell cursor))) cursor_occupied
    equip_entry ← require (← gets (λ inv. inv.equipment equip_slot)) equip_slot_empty
    modify (put_worn equip_slot none)
    modify (write_cell cursor (some equip_entry))
    pure (("cursor", 0) ∷ ("equip", equip_slot) ∷ [])

  -- `ensure_bag_init` where the source is a base slot.
  abbrev pub sync_source : SlotRefInt → PlayerInventory → PlayerInventory
  sync_source (base s) inv = ensure_bag_init items s inv
  sync_source (bag b s) inv = inv
  sync_source cursor inv = inv

  unfoldable pub equip_from_location : String → ℕ → ℕ → Action Touched
  equip_from_location src_loc src_slot equip_slot = do
    refuse_if (leb equip_slot_count equip_slot) equip_slot_out_of_range
    src ← parsed src_loc src_slot
    refuse_if (is_held_bag_slot src) bag_in_hand
    src_entry ← (λ inv. (peek_source src inv, inv))
    refuse_if (not (is_equippable_in_slot items src_entry.item_path equip_slot)) not_equippable_here
    prev ← gets (λ inv. inv.equipment equip_slot)
    modify (write_cell src prev)
    modify (put_worn equip_slot (some src_entry))
    modify (sync_source src)
    pure (touched_slot src ∷ ("equip", equip_slot) ∷ [])

  -- A piece that was worn at death goes back on, where its slot is empty and takes it.
  unfoldable pub restore_worn : String → ℕ → ℕ → PlayerInventory → Bool × PlayerInventory
  restore_worn path count slot inv =
      if leb equip_slot_count slot
        || count == 0
        || is_some (inv.equipment slot)
        || not (is_equippable_in_slot items path slot)
      then (false, inv)
      else (true, put_worn slot (some (record { item_path = path; count = count })) inv)
