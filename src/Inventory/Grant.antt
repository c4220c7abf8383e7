-- ===== src/Inventory/Grant.antt =====
-- crates/projectdawn-server/src/world/inventory.rs: the placer of new items (`add_item_locating`) and
-- what rests on it.
use project_dawn_server.Inventory.Entry.{empty_item_path, is_bag_item, inventory_full, zero_count}
use project_dawn_server.Inventory.Equip.{touched_slot, sync_source}
use project_dawn_server.Inventory.Fill.{claim, top_up, unless_done, SlotStep}
use project_dawn_server.Items.{max_stack, Registry}
use project_dawn_server.Inventory.State.{write_cell, cell, Action, Touched, PlayerInventory}
use project_dawn_server.Base.{
  str_eq, ltb, false, ok, length, err, ◌++◌, true, some, ◌==◌, none, Bool, suc, map, String, List,
  ℕ, if◌then◌else◌, range, ◌∷◌, [],
}
use project_dawn_server.Inventory.Location.{base_slot_count, SlotRefInt, base, bag, cursor_bag_key}

-- The inventory under way, the slots that were changed, and the number still to be placed.
pub record Grant : Type 0 where
  pub inv : PlayerInventory
  pub touched : Touched
  pub remaining : ℕ

-- One round of a loop of the placer: what the step makes of the slot is written, and `sync` runs
-- after a write.
unfoldable pub fill_ref :
    SlotStep → (SlotRefInt → PlayerInventory → PlayerInventory) → SlotRefInt → Grant → Grant
fill_ref step sync r g =
    let (s, left, hit) = unless_done step g.remaining (cell r g.inv) in
    if hit
    then record {
      inv = sync r (write_cell r s g.inv);
      touched = g.touched ++ touched_slot r ∷ [];
      remaining = left;
    }
    else g

unfoldable pub fill_refs :
    SlotStep → (SlotRefInt → PlayerInventory → PlayerInventory) → List SlotRefInt → Grant → Grant
fill_refs step sync [] g = g
fill_refs step sync (r ∷ rs) g = fill_refs step sync rs (fill_ref step sync r g)

abbrev pub base_refs : List SlotRefInt
base_refs = map base (range base_slot_count)

-- The slots of the bags under the keys `k`, `k + 1`, … of which there are `n`, in order.
unfoldable pub inner_refs : ℕ → ℕ → PlayerInventory → List SlotRefInt
inner_refs k ℕ.zero inv = []
inner_refs k (ℕ.suc n) inv =
    let rest = inner_refs (suc k) n inv in
    elim (inv.bags k) [ none ↦ rest | some arr ↦ map (bag k) (range (length arr)) ++ rest ]

abbrev pub no_sync : SlotRefInt → PlayerInventory → PlayerInventory
no_sync r inv = inv

-- The slots of every bag but a held one.
abbrev pub bag_refs : PlayerInventory → List SlotRefInt
bag_refs inv = inner_refs 0 cursor_bag_key inv

module _ (items : Registry) where
  -- The two passes, each over the base slots and then over the bags.
  unfoldable pub place_new : String → ℕ → PlayerInventory → Grant
  place_new item_path count inv =
      let cap = max_stack items item_path in
      let g0 : Grant = record { inv = inv; touched = []; remaining = count } in
      let g1 = fill_refs (top_up cap item_path) no_sync base_refs g0 in
      let g2 = fill_refs (top_up cap item_path) no_sync (bag_refs g1.inv) g1 in
      let g3 = fill_refs (claim cap item_path) (sync_source items) base_refs g2 in
      if is_bag_item items item_path
      then g3
      else fill_refs (claim cap item_path) no_sync (bag_refs g3.inv) g3

  unfoldable pub add_item_locating : String → ℕ → Action (Touched × ℕ)
  add_item_locating item_path count inv =
      if count == 0
      then (err zero_count, inv)
      else if str_eq item_path ""
      then (err empty_item_path, inv)
      else (let g = place_new item_path count inv in (ok (g.touched, g.remaining), g.inv))

  -- Whether every grant fits, tried on a copy.
  unfoldable pub can_accept : List (String × ℕ) → PlayerInventory → Bool
  can_accept [] inv = true
  can_accept ((path, count) ∷ grants) inv =
      let (r, probe) = add_item_locating path count inv in
      elim r [
        | err e ↦ false
        | ok (touched, left) ↦ if left == 0 then can_accept grants probe else false
      ]

  unfoldable pub add_item : String → ℕ → Action (Unit {0})
  add_item item_path count inv =
      if count == 0
      then (ok tt, inv)
      else (let (r, after) = add_item_locating item_path count inv in
          elim r [
            | err e ↦ (err e, after)
            | ok (touched, left) ↦
                if ltb 0 left then (err inventory_full, after) else (ok tt, after)
          ])
