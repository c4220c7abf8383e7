-- ===== src/Tests/Grants.antt =====
-- The theorems on grants at the small world, and what the placer computes there.
use project_dawn_server.Inventory.Entry.{is_bag_item}
use project_dawn_server.Items.{lookup, bag_num_slots, max_stack}
use project_dawn_server.Inventory.State.{ensure_bag_init, cell, write_cell}
use project_dawn_server.Tests.World.{stack, pack-IsValid, stock-IsRegistry, pack, stock}
use project_dawn_server.Inventory.Grant.{
  inner_refs, fill_ref, fill_refs, place_new, can_accept, add_item_locating,
}
use project_dawn_server.Inventory.Granted.{
  can_accept-Admits, Admits, add_item_locating-Grants, Grants,
}
use project_dawn_server.Base.{true, refl, none, arith, ◌≡◌, [], ◌∷◌, String, List, ℕ}

abbrev gifts : List (String × ℕ)
gifts = ("bread", 30) ∷ ("pouch", 1) ∷ ("sword", 2) ∷ []

-- Of thirty-six breads fifteen fill the loose stack, eighteen the one in the pouch, and three start a
-- new stack.
topped_up :
    (add_item_locating stock "bread" 36 pack).1.base
    ≡ stack "pouch" 1
      ∷ stack "bread" 20
      ∷ stack "sword" 1
      ∷ stack "bread" 3
      ∷ none
      ∷ none
      ∷ none
      ∷ none
      ∷ []
unfolding add_item_locating place_new fill_refs fill_ref inner_refs write_cell cell max_stack
    ensure_bag_init is_bag_item bag_num_slots lookup
topped_up = refl

add_item_locating-Grants_example :
    Grants stock "bread" 36 pack (add_item_locating stock "bread" 36 pack)
add_item_locating-Grants_example =
    add_item_locating-Grants stock "bread" 36 pack stock-IsRegistry pack-IsValid (omega arith)

-- A pouch, thirty breads and two swords fit.
accepted : can_accept stock gifts pack ≡ true
unfolding can_accept add_item_locating place_new fill_refs fill_ref inner_refs write_cell cell
    max_stack ensure_bag_init is_bag_item bag_num_slots lookup
accepted = refl

can_accept-Admits_example : Admits stock gifts pack (can_accept stock gifts pack)
can_accept-Admits_example =
    can_accept-Admits stock gifts pack stock-IsRegistry (ground arith) pack-IsValid
