-- ===== src/Inventory/Strip.antt =====
-- crates/projectdawn-server/src/world/inventory.rs: everything a player carries as one list, the strip
-- at death, and the purge of NO RENT items at a login. A HashMap is walked in the order of its keys.
use project_dawn_server.Items.{is_no_rent, Registry}
use project_dawn_server.Inventory.State.{PlayerInventory}
use project_dawn_server.Inventory.Entry.{count_in, Slots, Slot, InventoryEntry}
use project_dawn_server.Base.{
  u32_mod, ◌∷◌, ◌%◌, true, empty, [], ◌++◌, sum_by, some, none, map, Option, List, Bool, String,
  Map, ℕ, if◌then◌else◌,
}

-- The stacks of a slot, of some slots, of the worn slots and of the bags with keys below `n`, of which
-- the entry passes a test.
abbrev pub in_slot : (InventoryEntry → Bool) → Slot → List InventoryEntry
in_slot p none = []
in_slot p (some e) = if p e then e ∷ [] else []

unfoldable pub in_slots : (InventoryEntry → Bool) → Slots → List InventoryEntry
in_slots p [] = []
in_slots p (s ∷ ss) = in_slot p s ++ in_slots p ss

unfoldable pub in_worn : (InventoryEntry → Bool) → ℕ → Map InventoryEntry → List InventoryEntry
in_worn p ℕ.zero m = []
in_worn p (ℕ.suc n) m = in_worn p n m ++ in_slot p (m n)

abbrev pub in_contents : (InventoryEntry → Bool) → Option Slots → List InventoryEntry
in_contents p none = []
in_contents p (some arr) = in_slots p arr

unfoldable pub in_bags : (InventoryEntry → Bool) → ℕ → Map Slots → List InventoryEntry
in_bags p ℕ.zero m = []
in_bags p (ℕ.suc n) m = in_bags p n m ++ in_contents p (m n)

abbrev pub any_stack : InventoryEntry → Bool
any_stack e = true

unfoldable pub all_stacks : PlayerInventory → List InventoryEntry
all_stacks inv =
    in_slots any_stack inv.base
    ++ in_worn any_stack 256 inv.equipment
    ++ in_bags any_stack 256 inv.bags
    ++ in_slot any_stack inv.cursor

-- A stack on a corpse, with the slot it was worn in.
pub record CorpseStack : Type 0 where
  pub entry : InventoryEntry
  pub worn : Option ℕ

abbrev pub carried : InventoryEntry → CorpseStack
carried e = record { entry = e; worn = none }

abbrev worn_stack : ℕ → Slot → List CorpseStack
worn_stack k none = []
worn_stack k (some e) = record { entry = e; worn = some k } ∷ []

unfoldable pub worn_stacks : ℕ → Map InventoryEntry → List CorpseStack
worn_stacks ℕ.zero m = []
worn_stacks (ℕ.suc n) m = worn_stacks n m ++ worn_stack n (m n)

unfoldable pub corpse_stacks : PlayerInventory → List CorpseStack
corpse_stacks inv =
    worn_stacks 256 inv.equipment
    ++ map carried (in_slots any_stack inv.base)
    ++ map carried (in_bags any_stack 256 inv.bags)
    ++ map carried (in_slot any_stack inv.cursor)

abbrev pub emptied : Slot → Slot
emptied s = none

unfoldable pub clear_all : PlayerInventory → PlayerInventory
clear_all inv = record inv {
  base = map emptied inv.base;
  equipment = empty;
  bags = empty;
  cursor = none;
}

abbrev pub map_contents : (Slot → Slot) → Option Slots → Option Slots
map_contents f none = none
map_contents f (some arr) = some (map f arr)

-- How many of an item stand in the base slots.
unfoldable pub total_count_of : String → PlayerInventory → ℕ
total_count_of item_path inv = sum_by (count_in item_path) inv.base % u32_mod

module _ (items : Registry) where
  abbrev pub doomed : InventoryEntry → Bool
  doomed e = is_no_rent items e.item_path

  abbrev pub spared : Slot → Slot
  spared none = none
  spared (some e) = if doomed e then none else some e

  -- The stacks that went, and the inventory without them.
  unfoldable pub purge_no_rent : PlayerInventory → List InventoryEntry × PlayerInventory
  purge_no_rent inv = (
    in_slots doomed inv.base
        ++ in_worn doomed 256 inv.equipment
        ++ in_bags doomed 256 inv.bags
        ++ in_slot doomed inv.cursor,
    record {
      base = map spared inv.base;
      equipment = λ k. spared (inv.equipment k);
      bags = λ k. map_contents spared (inv.bags k);
      cursor = spared inv.cursor;
    },
  )
