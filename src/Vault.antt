-- ===== src/Vault.antt =====
-- crates/projectdawn-server/src/world/inventory.rs: `ItemVault`, the flat store of the bank and of the
-- account's shared vault.
pub mod Laws
pub mod Rows
pub mod RowLaws
pub mod Withdrawals
use project_dawn_server.Inventory.Fill.{claim, top_up, pass}
use project_dawn_server.Inventory.Entry.{saturating_add, InventoryEntry, slot_at, Slots, Slot}
use project_dawn_server.Items.{is_no_rent, max_stack, Registry}
use project_dawn_server.Base.{
  map, ◌++◌, set, ◌&&◌, length, [], ◌-◌, str_eq, ltb, leb, ◌∷◌, some, none, if◌then◌else◌, List,
  replicate, String, ℕ,
}

pub record ItemVault : Type 0 where
  pub slots : Slots

unfoldable pub new_vault : ℕ → ItemVault
new_vault n = record { slots = replicate n none }

-- Room for an item in a slot.
abbrev pub room_in : ℕ → String → Slot → ℕ
room_in cap item_path none = cap
room_in cap item_path (some e) = if str_eq e.item_path item_path then cap - e.count else 0

abbrev pub capacity_from : ℕ → String → ℕ → Slots → ℕ
capacity_from cap item_path total [] = total
capacity_from cap item_path total (s ∷ ss) =
    capacity_from cap item_path (saturating_add total (room_in cap item_path s)) ss

module _ (items : Registry) where
  -- A NO RENT stack leaves its slot.
  abbrev pub purge_slot : Slot → Slot
  purge_slot none = none
  purge_slot (some e) = if is_no_rent items e.item_path then none else some e

  abbrev pub purged_slot : Slot → List InventoryEntry
  purged_slot none = []
  purged_slot (some e) = if is_no_rent items e.item_path then e ∷ [] else []

  abbrev pub purged : Slots → List InventoryEntry
  purged [] = []
  purged (s ∷ ss) = purged_slot s ++ purged ss

  -- The vault without its NO RENT stacks, and the stacks that went.
  unfoldable pub purge_no_rent : ItemVault → List InventoryEntry × ItemVault
  purge_no_rent v = (purged v.slots, record { slots = map purge_slot v.slots })

  -- The touched slots and what did not fit.
  unfoldable pub deposit : String → ℕ → ItemVault → (List ℕ × ℕ) × ItemVault
  deposit item_path count v =
      let cap = max_stack items item_path in
      let topped = pass (top_up cap item_path) count v.slots in
      let claimed = pass (claim cap item_path) topped.remaining topped.slots in
      ((topped.touched ++ claimed.touched, claimed.remaining), record { slots = claimed.slots })

  unfoldable pub capacity_for : String → ItemVault → ℕ
  capacity_for item_path v = capacity_from (max_stack items item_path) item_path 0 v.slots

unfoldable pub take_all : ℕ → ItemVault → Slot × ItemVault
take_all slot v =
    if leb (length v.slots) slot
    then (none, v)
    else (slot_at v.slots slot, record { slots = set v.slots slot none })

unfoldable pub peek : ℕ → ItemVault → Slot
peek slot v = slot_at v.slots slot

unfoldable pub restore : ℕ → String → ℕ → ItemVault → ItemVault
restore slot item_path count v =
    if ltb slot (length v.slots) && ltb 0 count
    then record {
      slots = set v.slots slot (some (record { item_path = item_path; count = count }));
    }
    else v
