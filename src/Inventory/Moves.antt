-- ===== src/Inventory/Moves.antt =====
-- crates/projectdawn-server/src/world/inventory.rs: the moves between slots, and `move_across`,
-- which routes a pair of wire locations to one of them.
use project_dawn_server.Base.{
  err, ok, Result, ℕ, Bool, false, not, ◌&&◌, ◌||◌, none, some, [], ◌∷◌, String, str_eq, leb, ◌==◌,
  if◌then◌else◌, length, as_u8,
}
use project_dawn_server.Items.{Registry}
use project_dawn_server.Inventory.Entry.{
  MoveError, InventoryEntry, Slot, slot_at, is_bag_item, bag_in_hand, bag_inside_bag,
  bag_into_bag_slot, bag_slot_out_of_range, base_slot_out_of_range,
  destination_bag_slot_out_of_range, no_bag_at_slot, no_destination_bag, no_source_bag,
  slot_out_of_range, source_bag_slot_out_of_range, source_empty,
}
use project_dawn_server.Inventory.Location.{
  base_slot_count, cursor_bag_key, bag_location, SlotRefInt, base, bag, cursor, is_held_bag_slot,
}
use project_dawn_server.Inventory.State.{
  parsed, PlayerInventory, Action, Touched, pure, require, gets, refuse_if, modify, ◌>>=◌, ◌>>◌,
  cell, write_cell, put_contents, place_onto, Exchange, exchange, ensure_bag_init,
  occupied_inner_slots, push_inner_union,
}

-- What the match has settled, written to both cells and under both keys.
unfoldable pub settle :
    SlotRefInt → ℕ → SlotRefInt → ℕ → Exchange → PlayerInventory → PlayerInventory
settle src src_key dst dst_key x inv =
    put_contents src_key x.src_contents
      (put_contents dst_key x.dst_contents (write_cell dst x.dst (write_cell src x.src inv)))

module _ (items : Registry) where
  -- Both cells after the match on the destination.
  unfoldable pub place :
      SlotRefInt → SlotRefInt → InventoryEntry → PlayerInventory → PlayerInventory
  place src dst entry inv =
      let (dst_slot, src_slot) = place_onto items (cell dst inv) entry in
      write_cell dst dst_slot (write_cell src src_slot inv)

  -- Both cells and the contents under both keys, where bags may ride along.
  unfoldable pub rehost :
      SlotRefInt → ℕ → SlotRefInt → ℕ → InventoryEntry → PlayerInventory → PlayerInventory
  rehost src src_key dst dst_key entry inv =
      settle src src_key dst dst_key
        (exchange items (cell dst inv) entry (inv.bags src_key) (inv.bags dst_key)) inv

  unfoldable pub move_base : ℕ → ℕ → Action Touched
  move_base src dst = do
    refuse_if (leb base_slot_count src || leb base_slot_count dst) slot_out_of_range
    let src_key = as_u8 src
    let dst_key = as_u8 dst
    let moved = do
      entry ← require (← gets (cell (base src))) source_empty
      pre_src ← gets (occupied_inner_slots src_key)
      pre_dst ← gets (occupied_inner_slots dst_key)
      modify (rehost (base src) src_key (base dst) dst_key entry)
      modify (ensure_bag_init items src)
      modify (ensure_bag_init items dst)
      gets (λ inv.
          push_inner_union dst_key pre_dst inv
            (push_inner_union src_key pre_src inv (("base", src) ∷ ("base", dst) ∷ [])))
    if src == dst then pure [] else moved

  unfoldable pub move_bag : ℕ → ℕ → ℕ → Action Touched
  move_bag base_idx src dst = do
    let key = as_u8 base_idx
    arr ← require (← gets (λ inv. inv.bags key)) no_bag_at_slot
    refuse_if (leb (length arr) src || leb (length arr) dst) bag_slot_out_of_range
    let moved = do
      entry ← require (slot_at arr src) source_empty
      modify (place (bag key src) (bag key dst) entry)
      let loc = bag_location base_idx
      pure ((loc, src) ∷ (loc, dst) ∷ [])
    if src == dst then pure [] else moved

  unfoldable pub move_base_to_cursor : ℕ → Action Touched
  move_base_to_cursor src = do
    refuse_if (leb base_slot_count src) base_slot_out_of_range
    entry ← require (← gets (cell (base src))) source_empty
    let src_key = as_u8 src
    pre_src ← gets (occupied_inner_slots src_key)
    pre_held ← gets (occupied_inner_slots cursor_bag_key)
    modify (rehost (base src) src_key cursor cursor_bag_key entry)
    modify (ensure_bag_init items src)
    gets (λ inv.
        push_inner_union cursor_bag_key pre_held inv
          (push_inner_union src_key pre_src inv (("base", src) ∷ ("cursor", 0) ∷ [])))

  unfoldable pub move_cursor_to_base : ℕ → Action Touched
  move_cursor_to_base dst = do
    refuse_if (leb base_slot_count dst) base_slot_out_of_range
    held ← require (← gets (cell cursor)) source_empty
    let dst_key = as_u8 dst
    pre_held ← gets (occupied_inner_slots cursor_bag_key)
    pre_dst ← gets (occupied_inner_slots dst_key)
    modify (rehost cursor cursor_bag_key (base dst) dst_key held)
    modify (ensure_bag_init items dst)
    gets (λ inv.
        push_inner_union cursor_bag_key pre_held inv
          (push_inner_union dst_key pre_dst inv (("cursor", 0) ∷ ("base", dst) ∷ [])))

  -- The swap that would push a held bag into the inner slot is refused before anything moves.
  unfoldable pub swap_with_held : ℕ → ℕ → PlayerInventory → Result MoveError (Unit {0})
  swap_with_held base_idx src inv = elim inv.cursor [
    | none ↦ ok tt
    | some held ↦ elim (inv.bags base_idx) [
      | none ↦ err no_source_bag
      | some arr ↦ elim (slot_at arr src) [
        | none ↦ err source_empty
        | some entry ↦
            if not (str_eq held.item_path entry.item_path) && is_bag_item items held.item_path
            then err bag_inside_bag
            else ok tt
      ]
    ]
  ]

  unfoldable pub move_bag_to_cursor : ℕ → ℕ → Action Touched
  move_bag_to_cursor base_idx src = do
    (λ inv. (swap_with_held base_idx src inv, inv))
    arr ← require (← gets (λ inv. inv.bags base_idx)) no_source_bag
    refuse_if (leb (length arr) src) bag_slot_out_of_range
    entry ← require (slot_at arr src) source_empty
    modify (place (bag base_idx src) cursor entry)
    pure ((bag_location base_idx, src) ∷ ("cursor", 0) ∷ [])

  unfoldable pub move_cursor_to_bag : ℕ → ℕ → Action Touched
  move_cursor_to_bag base_idx dst = do
    held ← require (← gets (cell cursor)) source_empty
    refuse_if (is_bag_item items held.item_path) bag_inside_bag
    arr ← require (← gets (λ inv. inv.bags base_idx)) no_destination_bag
    refuse_if (leb (length arr) dst) bag_slot_out_of_range
    modify (place cursor (bag base_idx dst) held)
    pure (("cursor", 0) ∷ (bag_location base_idx, dst) ∷ [])

  unfoldable pub move_base_to_bag : ℕ → ℕ → ℕ → Action Touched
  move_base_to_bag src base_idx dst = do
    refuse_if (leb base_slot_count src) base_slot_out_of_range
    entry ← require (← gets (cell (base src))) source_empty
    refuse_if (is_bag_item items entry.item_path) bag_inside_bag
    arr ← require (← gets (λ inv. inv.bags base_idx)) no_destination_bag
    refuse_if (leb (length arr) dst) bag_slot_out_of_range
    modify (place (base src) (bag base_idx dst) entry)
    modify (ensure_bag_init items src)
    pure (("base", src) ∷ (bag_location base_idx, dst) ∷ [])

  abbrev pub holds_bag : Slot → Bool
  holds_bag none = false
  holds_bag (some e) = is_bag_item items e.item_path

  unfoldable pub move_bag_to_base : ℕ → ℕ → ℕ → Action Touched
  move_bag_to_base base_idx src dst = do
    refuse_if (leb base_slot_count dst) base_slot_out_of_range
    arr ← require (← gets (λ inv. inv.bags base_idx)) no_source_bag
    refuse_if (leb (length arr) src) bag_slot_out_of_range
    refuse_if (holds_bag (← gets (cell (base dst)))) bag_into_bag_slot
    entry ← require (slot_at arr src) source_empty
    modify (place (bag base_idx src) (base dst) entry)
    modify (ensure_bag_init items dst)
    pure ((bag_location base_idx, src) ∷ ("base", dst) ∷ [])

  unfoldable pub move_bag_to_bag : ℕ → ℕ → ℕ → ℕ → Action Touched
  move_bag_to_bag src_base src_slot dst_base dst_slot =
      let across = do
        src_arr ← require (← gets (λ inv. inv.bags src_base)) no_source_bag
        refuse_if (leb (length src_arr) src_slot) source_bag_slot_out_of_range
        entry ← require (slot_at src_arr src_slot) source_empty
        dst_arr ← require (← gets (λ inv. inv.bags dst_base)) no_destination_bag
        refuse_if (leb (length dst_arr) dst_slot) destination_bag_slot_out_of_range
        modify (place (bag src_base src_slot) (bag dst_base dst_slot) entry)
        pure ((bag_location src_base, src_slot) ∷ (bag_location dst_base, dst_slot) ∷ [])
      in if src_base == dst_base then move_bag src_base src_slot dst_slot else across

  unfoldable pub dispatch : SlotRefInt → SlotRefInt → Action Touched
  dispatch (base s) (base d) = move_base s d
  dispatch (bag b1 s) (bag b2 d) = if b1 == b2 then move_bag b1 s d else move_bag_to_bag b1 s b2 d
  dispatch (base s) (bag b d) = move_base_to_bag s b d
  dispatch (bag b s) (base d) = move_bag_to_base b s d
  dispatch cursor cursor = pure []
  dispatch (base s) cursor = move_base_to_cursor s
  dispatch cursor (base d) = move_cursor_to_base d
  dispatch (bag b s) cursor = move_bag_to_cursor b s
  dispatch cursor (bag b d) = move_cursor_to_bag b d

  unfoldable pub move_across : String → ℕ → String → ℕ → Action Touched
  move_across src_loc src_slot dst_loc dst_slot = do
    src ← parsed src_loc src_slot
    dst ← parsed dst_loc dst_slot
    refuse_if (is_held_bag_slot src) bag_in_hand
    refuse_if (is_held_bag_slot dst) bag_in_hand
    dispatch src dst
