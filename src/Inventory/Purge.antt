-- ===== src/Inventory/Purge.antt =====
-- The purge of NO RENT items, and the strip: what they leave.
use project_dawn_server.Inventory.StripLaws.{
  in_bags-splits, in_worn-splits, in_slots-splits, total-four, mapped-gone, total,
}
use project_dawn_server.Inventory.Valid.{IsValid}
use project_dawn_server.Inventory.Entry.{count_in, Slot}
use project_dawn_server.Inventory.Cells.{size_of, host, count_of}
use project_dawn_server.Inventory.State.{slot_bag_size, cell, PlayerInventory}
use project_dawn_server.Items.{is_no_rent, Registry}
use project_dawn_server.Inventory.Strip.{
  map_contents, in_bags, in_worn, in_slots, in_slot, spared, emptied, doomed, clear_all,
  purge_no_rent,
}
use project_dawn_server.Base.{
  sym, eq_iff, arith, ap, ◌∙◌, some, refl, get_or-map, true, none, length-map, ◌≡◌, ◌+◌, String, ℕ,
}
use project_dawn_server.Inventory.Location.{SlotRefInt, base, bag, cursor}

module _ (items : Registry) where
  spared-splits :
      (item : String) (s : Slot)
      → count_in item (spared items s) + total item (in_slot (doomed items) s) ≡ count_in item s
  spared-splits item none = refl
  spared-splits item (some e) = ground arith

  pub purge_no_rent-count :
      (item : String) (inv : PlayerInventory)
      → let (gone, after) = purge_no_rent items inv in
        count_of item after + total item gone ≡ count_of item inv
  unfolding purge_no_rent count_of
  purge_no_rent-count item inv =
      let p = doomed items in
      let split = spared-splits item in
      let base = in_slots p inv.base in
      let worn = in_worn p 256 inv.equipment in
      let bags = in_bags p 256 inv.bags in
      let hand = in_slot p inv.cursor in
      let parts : total item (purge_no_rent items inv).0
          ≡ total item base + total item worn + total item bags + total item hand =
        total-four item base worn bags hand in
      omega (
        arith,
        in_slots-splits item p (spared items) split inv.base,
        in_worn-splits item p (spared items) split 256 inv.equipment
            (λ k. spared items (inv.equipment k)) (λ k. refl),
        in_bags-splits item p (spared items) split 256 inv.bags
            (λ k. map_contents (spared items) (inv.bags k)) (λ k. refl),
        split inv.cursor,
        parts,
      )

  spared-gone :
      (item : String)
      → is_no_rent items item ≡ true
      → (s : Slot) → count_in item (spared items s) ≡ 0
  spared-gone item h none = refl
  spared-gone item h (some e) = ground (arith, h, eq_iff e.item_path item)

  pub purge_no_rent-gone :
      (item : String) (inv : PlayerInventory)
      → is_no_rent items item ≡ true
      → count_of item (purge_no_rent items inv).1 ≡ 0
  unfolding purge_no_rent
  purge_no_rent-gone item inv h =
      mapped-gone item (spared items) (spared-gone item h) inv (purge_no_rent items inv).1 refl
        (λ k. refl) (λ k. refl) refl

  -- Of every item, what a purge reports as gone and what it leaves are together what was there,
  -- and of a NO RENT item it leaves none.
  pub purge_no_rent-Parts :
      (inv : PlayerInventory)
      → let (gone, after) = purge_no_rent items inv in
        ((item : String) → count_of item after + total item gone ≡ count_of item inv)
        × ((item : String) → is_no_rent items item ≡ true → count_of item after ≡ 0)
  purge_no_rent-Parts inv =
      (λ item. purge_no_rent-count item inv, λ item h. purge_no_rent-gone item inv h)

  clear_all-cell : (inv : PlayerInventory) (r : SlotRefInt) → cell r (clear_all inv) ≡ none
  unfolding clear_all cell
  clear_all-cell inv (base i) = get_or-map emptied inv.base i none
  clear_all-cell inv (bag k i) = refl
  clear_all-cell inv cursor = refl

  clear_all-bags : (inv : PlayerInventory) (k : ℕ) → (clear_all inv).bags k ≡ none
  unfolding clear_all
  clear_all-bags inv k = refl

  pub clear_all-IsValid :
      (inv : PlayerInventory) → IsValid items inv → IsValid items (clear_all inv)
  unfolding clear_all
  clear_all-IsValid inv valid = record {
    base_len = length-map emptied inv.base ∙ valid.base_len;
    hosted = λ k.
        ap (slot_bag_size items) (clear_all-cell inv (host k))
        ∙ sym (ap size_of (clear_all-bags inv k));
    inner = λ k i. ap (slot_bag_size items) (clear_all-cell inv (bag k i));
    stacks = λ r. rw (clear_all-cell inv r) tt;
    worn_stacks = λ k. tt;
    worn_plain = λ k. refl;
    worn_range = λ k h. refl;
  }
