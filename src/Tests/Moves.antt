-- ===== src/Tests/Moves.antt =====
-- The theorems on the inventory at the small world, and what the operations compute there.
use project_dawn_server.Inventory.ParkLaws.{park_cursor_stack-Rearranges}
use project_dawn_server.Inventory.WornLaws.{restore_worn-Restores, Restores}
use project_dawn_server.Inventory.Park.{park_cursor_stack}
use project_dawn_server.Inventory.SplitLaws.{split_base-loses_contents, split_base-Rearranges}
use project_dawn_server.Base.{replicate, none, [], ◌∷◌, refl, arith, ok, some, ◌≡◌}
use project_dawn_server.Inventory.EquipLaws.{
  unequip_to_cursor-Rearranges, unequip_to_base-Rearranges, equip_from_location-Rearranges,
}
use project_dawn_server.Inventory.MoveAcross.{move_across-Rearranges}
use project_dawn_server.Inventory.Equip.{
  restore_worn, unequip_to_cursor, unequip_to_base, equip_from_location,
}
use project_dawn_server.Inventory.Removal.{split_base, decrement_at, destroy_at}
use project_dawn_server.Items.{lookup, bag_num_slots}
use project_dawn_server.Inventory.Location.{
  parse_bag_location-bag_location, is_held_bag_slot, parse_slot_ref, bag_location,
  parse_bag_location,
}
use project_dawn_server.Inventory.Moves.{place, move_base_to_bag, dispatch, move_across}
use project_dawn_server.Inventory.Entry.{is_bag_item}
use project_dawn_server.Inventory.State.{ensure_bag_init, write_cell, place_onto, cell}
use project_dawn_server.Inventory.RemovalLaws.{
  decrement_at-Removes, destroy_at-Removes, one_taken, Removes,
}
use project_dawn_server.Inventory.Valid.{Rearranges}
use project_dawn_server.Tests.World.{
  stack, held-IsValid, bread_is_plain, held, stock, pack, pack-IsValid, stock-IsRegistry,
}

-- All the loose bread goes into the second slot of the pouch.
moved :
    (move_across stock "base" 1 "bag_0" 1 pack).1.base
    ≡ stack "pouch" 1 ∷ none ∷ stack "sword" 1 ∷ none ∷ none ∷ none ∷ none ∷ none ∷ []
unfolding move_across dispatch move_base_to_bag parse_slot_ref parse_bag_location is_held_bag_slot
    place place_onto cell write_cell ensure_bag_init is_bag_item bag_num_slots lookup
moved = refl

move_across-Rearranges_example : Rearranges stock pack (move_across stock "base" 1 "bag_0" 1 pack)
move_across-Rearranges_example =
    move_across-Rearranges stock pack "base" 1 "bag_0" 1 stock-IsRegistry pack-IsValid

unequip_to_base-Rearranges_example : Rearranges stock pack (unequip_to_base stock 0 2 pack)
unequip_to_base-Rearranges_example = unequip_to_base-Rearranges stock pack 0 2 pack-IsValid

unequip_to_cursor-Rearranges_example : Rearranges stock pack (unequip_to_cursor stock 0 pack)
unequip_to_cursor-Rearranges_example = unequip_to_cursor-Rearranges stock pack 0 pack-IsValid

restore_worn-Restores_example :
    Restores stock "sword" 1 1 pack (restore_worn stock "sword" 1 1 pack)
restore_worn-Restores_example =
    restore_worn-Restores stock "sword" 1 1 pack (omega arith) pack-IsValid

equip_from_location-Rearranges_example :
    Rearranges stock pack (equip_from_location stock "base" 2 1 pack)
equip_from_location-Rearranges_example =
    equip_from_location-Rearranges stock pack "base" 2 1 pack-IsValid

destroy_at-Removes_example : Removes stock pack (destroy_at stock "base" 1 3 pack)
unfolding cell
destroy_at-Removes_example = destroy_at-Removes stock pack pack-IsValid "base" 1 (λ _. refl) 3

decrement_at-Removes_example : Removes stock pack (one_taken (decrement_at stock "base" 1 pack))
decrement_at-Removes_example = decrement_at-Removes stock pack pack-IsValid "base" 1 bread_is_plain

split_base-Rearranges_example : Rearranges stock pack (split_base stock 1 3 2 pack)
unfolding cell bag_num_slots lookup
split_base-Rearranges_example = split_base-Rearranges stock pack 1 3 2 pack-IsValid refl refl tt

split_base-loses_contents_example :
    let (result, after) = split_base stock 0 3 1 pack in
    (result ≡ ok (0 ∷ 3 ∷ [])) × (after.bags 0 ≡ none) × (after.bags 3 ≡ some (replicate 4 none))
unfolding cell bag_num_slots lookup
split_base-loses_contents_example =
    split_base-loses_contents stock pack 0 3 4 (record { item_path = "pouch"; count = 1 })
      pack-IsValid (omega arith) (omega arith) (ground arith) refl refl refl refl

parse_bag_location-bag_location_example : parse_bag_location (bag_location 3) ≡ some 3
parse_bag_location-bag_location_example = parse_bag_location-bag_location 3 (omega arith)

park_cursor_stack-Rearranges_example : Rearranges stock held (park_cursor_stack stock held)
park_cursor_stack-Rearranges_example =
    park_cursor_stack-Rearranges stock held stock-IsRegistry held-IsValid
