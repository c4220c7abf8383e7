-- ===== src/Inventory/BagFacts.antt =====
-- What a well-formed inventory says of the contents of one bag.
use project_dawn_server.Inventory.Cells.{InRange}
use project_dawn_server.Inventory.Entry.{InventoryEntry, slot_at, is_bag_item, Slots, Slot}
use project_dawn_server.Base.{
  subst, ◌∙◌, none, ◌<◌, some, false, ◌≡◌, String, length, ℕ, refl, arith,
}
use project_dawn_server.Items.{bag_num_slots, Registry}
use project_dawn_server.Inventory.Location.{bag}
use project_dawn_server.Inventory.State.{slot_bag_size, PlayerInventory, cell}
use project_dawn_server.Inventory.Moves.{holds_bag}
use project_dawn_server.Inventory.Valid.{bags-key, IsValid}

pub not_bag :
    (items : Registry) (path : String)
    → is_bag_item items path ≡ false
    → bag_num_slots items path ≡ none
unfolding is_bag_item
not_bag items path h = ground arith

module _ (items : Registry) (inv : PlayerInventory) (k : ℕ) (valid : IsValid items inv)
    {arr : Slots} (held : inv.bags k ≡ some arr) where
  bag_cell : (i : ℕ) → cell (bag k i) inv ≡ slot_at arr i
  unfolding cell
  bag_cell i = rw (held, cell)

  bag_low : k < 256
  bag_low = ground (arith, bags-key items inv k valid held)

  pub bag_there : (i : ℕ) → i < length arr → InRange (bag k i) inv
  bag_there i h = (arr, held, h, bag_low)

  pub bag_plain : (i : ℕ) → slot_bag_size items (cell (bag k i) inv) ≡ none
  bag_plain i = valid.inner k i

  pub bag_entry :
      (i : ℕ) {entry : InventoryEntry}
      → slot_at arr i ≡ some entry
      → cell (bag k i) inv ≡ some entry
  bag_entry i h = bag_cell i ∙ h

  pub bag_entry_plain :
      (i : ℕ) (entry : InventoryEntry)
      → slot_at arr i ≡ some entry
      → bag_num_slots items entry.item_path ≡ none
  bag_entry_plain i entry h =
      subst (λ t. slot_bag_size items t ≡ none) (bag_entry i h) (bag_plain i)

pub plain_slot :
    (items : Registry) (s : Slot) → holds_bag items s ≡ false → slot_bag_size items s ≡ none
plain_slot items none h = refl
plain_slot items (some e) h = not_bag items e.item_path h
