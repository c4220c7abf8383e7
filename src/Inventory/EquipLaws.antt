-- ===== src/Inventory/EquipLaws.antt =====
-- Wearing gear and taking it off either is refused and changes nothing, or rearranges what is there.
use project_dawn_server.Inventory.BagFacts.{bag_entry, bag_there}
use project_dawn_server.Inventory.Place.{base_there, ensure_bag_init-Kept}
use project_dawn_server.Inventory.Cells.{
  host, equipment-write_cell, count_of-write_cell, InRange, count_of,
}
use project_dawn_server.Inventory.Valid.{
  write_cell-IsValid, slot_at_above, IsStack, Kept, Rearranges, IsValid,
}
use project_dawn_server.Inventory.Entry.{count_in, slot_at, InventoryEntry, Slot}
use project_dawn_server.Inventory.State.{◌>>=◌, slot_bag_size, write_cell, cell, PlayerInventory}
use project_dawn_server.Inventory.Equip.{
  sync_source, swap_fits, put_worn, unequip_to_cursor, unequip_to_base, peek_source,
  equip_from_location,
}
use project_dawn_server.Items.{is_equippable_in_slot, bag_num_slots-equippable, Registry}
use project_dawn_server.Inventory.Location.{
  is_held_bag_slot, parse_slot_ref, base_slot_count, equip_slot_count, SlotRefInt, base, bag,
  cursor,
}
use project_dawn_server.Base.{
  refl, sym, ◌∙◌, sum_below-one, Result-cases, Option-cases, subst, inr, ap, update, none, inl,
  arith, length, leb, ◌+◌, some, ok, false, Bool-cases, ◌≡◌, ◌<◌, not, String, ℕ,
}

cell-put_worn :
    (k : ℕ) (s : Slot) (inv : PlayerInventory) (r : SlotRefInt)
    → cell r (put_worn k s inv) ≡ cell r inv
unfolding put_worn cell
cell-put_worn k s inv (base i) = refl
cell-put_worn k s inv (bag b i) = refl
cell-put_worn k s inv cursor = refl

module _ (items : Registry) (k : ℕ) (s : Slot) (inv : PlayerInventory) where
  pub put_worn-IsValid :
      IsValid items inv
      → k < equip_slot_count
      → IsStack s
      → slot_bag_size items s ≡ none
      → IsValid items (put_worn k s inv)
  unfolding put_worn
  put_worn-IsValid valid low stack plain = record {
    base_len = valid.base_len;
    hosted = λ j. rw (cell-put_worn k s inv (host j)) (valid.hosted j);
    inner = λ j i. rw (cell-put_worn k s inv (bag j i)) (valid.inner j i);
    stacks = λ r. rw (cell-put_worn k s inv r) (valid.stacks r);
    worn_stacks = λ j. ground (arith, valid.worn_stacks j);
    worn_plain = λ j. ground (arith, valid.worn_plain j);
    worn_range = λ j h. ground (arith, valid.worn_range j h);
  }

  pub count_of-put_worn :
      (path : String)
      → k < 256
      → count_of path (put_worn k s inv) + count_in path (inv.equipment k)
        ≡ count_of path inv + count_in path s
  unfolding count_of put_worn
  count_of-put_worn path low =
      let there : (update k s inv.equipment) k ≡ s = ground arith in
      omega (
        arith,
        ap (count_in path) there,
        sum_below-one (count_in path) 256 k (update k s inv.equipment) inv.equipment low
            (λ j d. ground arith),
      )

-- A slot and a worn slot, neither with a bag, change places.
worn_swap-Kept :
    (items : Registry) (inv : PlayerInventory) (r : SlotRefInt) (k : ℕ) (s w : Slot)
    → IsValid items inv
    → InRange r inv
    → k < equip_slot_count
    → cell r inv ≡ s
    → inv.equipment k ≡ w
    → slot_bag_size items s ≡ none
    → Kept items inv (put_worn k s (write_cell r w inv))
worn_swap-Kept items inv r k s w valid there low here worn plain =
    let w_plain : slot_bag_size items w ≡ none =
      subst (λ t. slot_bag_size items t ≡ none) worn (valid.worn_plain k) in
    let w_stack : IsStack w = subst IsStack worn (valid.worn_stacks k) in
    let s_stack : IsStack s = subst IsStack here (valid.stacks r) in
    let like : slot_bag_size items w ≡ slot_bag_size items (cell r inv) =
      w_plain ∙ sym plain ∙ ap (slot_bag_size items) (sym here) in
    let written = write_cell-IsValid items r w inv there valid w_stack like in
    (
      put_worn-IsValid items k s (write_cell r w inv) written low s_stack plain,
      λ path. omega (
        arith,
        count_of-put_worn items k s (write_cell r w inv) path (omega arith),
        count_of-write_cell path r w inv there,
        ap (count_in path) here,
        ap (λ m. count_in path (m k)) (equipment-write_cell r w inv),
        ap (count_in path) worn,
      ),
    )

swap_fits-plain :
    (items : Registry) (slot : ℕ) (s : Slot)
    → not (swap_fits items slot s) ≡ false
    → slot_bag_size items s ≡ none
swap_fits-plain items slot none h = refl
swap_fits-plain items slot (some e) h =
    bag_num_slots-equippable items e.item_path slot (ground (arith, h))

-- From a well-formed inventory, taking a worn piece off into a base slot either is refused and
-- leaves the inventory as it was, or leaves a well-formed inventory that holds as many of each
-- item.
pub unequip_to_base-Rearranges :
    (items : Registry) (inv : PlayerInventory) (equip_slot dst : ℕ)
    → IsValid items inv
    → Rearranges items inv (unequip_to_base items equip_slot dst inv)
unfolding unequip_to_base
unequip_to_base-Rearranges items inv equip_slot dst valid =
    elim (Bool-cases (leb equip_slot_count equip_slot)) [
      | inl out ↦ rw out refl
      | inr low ↦ rw low (elim (Bool-cases (leb base_slot_count dst)) [
        | inl out ↦ rw out refl
        | inr below ↦
            rw below (elim (Bool-cases (not (swap_fits items equip_slot (cell (base dst) inv)))) [
              | inl misfit ↦ rw misfit refl
              | inr fits ↦ rw fits (elim (Option-cases (inv.equipment equip_slot)) [
                | inl bare ↦ rw bare refl
                | inr (e, worn) ↦ rw worn (
                    ensure_bag_init-Kept items dst inv _ (ground (arith, below)) (
                      worn_swap-Kept items inv (base dst) equip_slot _ (some e) valid
                        (base_there items inv dst valid (ground (arith, below)))
                        (ground (arith, low)) refl worn (swap_fits-plain items equip_slot _ fits)))
              ])
            ])
      ])
    ]

-- From a well-formed inventory, taking a worn piece off into the hand either is refused and
-- leaves the inventory as it was, or leaves a well-formed inventory that holds as many of each
-- item.
pub unequip_to_cursor-Rearranges :
    (items : Registry) (inv : PlayerInventory) (equip_slot : ℕ)
    → IsValid items inv
    → Rearranges items inv (unequip_to_cursor items equip_slot inv)
unfolding unequip_to_cursor put_worn write_cell
unequip_to_cursor-Rearranges items inv equip_slot valid =
    elim (Bool-cases (leb equip_slot_count equip_slot)) [
      | inl out ↦ rw out refl
      | inr low ↦ rw low (elim (Option-cases (cell cursor inv)) [
        | inr (e, held) ↦ rw held refl
        | inl free ↦ rw free (elim (Option-cases (inv.equipment equip_slot)) [
          | inl bare ↦ rw bare refl
          | inr (e, worn) ↦ rw worn (
              worn_swap-Kept items inv cursor equip_slot none (some e) valid tt
                (ground (arith, low)) free worn refl)
        ])
      ])
    ]

pub base_in_range :
    (items : Registry) (inv : PlayerInventory) (s : ℕ) {e : InventoryEntry}
    → slot_at inv.base s ≡ some e
    → s < length inv.base
base_in_range items inv s h = ground (arith, slot_at_above inv.base s)

-- A stack that the peek finds stands in a slot that is there.
pub peek_source-ok :
    (items : Registry) (inv : PlayerInventory) (r : SlotRefInt) (e : InventoryEntry)
    → IsValid items inv
    → peek_source r inv ≡ ok e
    → InRange r inv × (cell r inv ≡ some e)
unfolding peek_source cell
peek_source-ok items inv (base s) e valid h = ground (arith, slot_at_above inv.base s)
peek_source-ok items inv (bag b s) e valid h = elim (Option-cases (inv.bags b)) [
  | inl gone ↦ absurd (ground arith)
  | inr (arr, held) ↦
      let low : s < length arr = ground arith in
      let found : slot_at arr s ≡ some e = ground arith in
      (bag_there items inv b valid held s low, bag_entry items inv b valid held s found)
]
peek_source-ok items inv cursor e valid h = ground arith

sync_source-Kept :
    (items : Registry) (inv after : PlayerInventory) (r : SlotRefInt)
    → IsValid items inv
    → InRange r inv
    → Kept items inv after
    → Kept items inv (sync_source items r after)
sync_source-Kept items inv after (base s) valid there kept =
    ensure_bag_init-Kept items s inv after (omega (arith, valid.base_len)) kept
sync_source-Kept items inv after (bag b s) valid there kept = kept
sync_source-Kept items inv after cursor valid there kept = kept

-- From a well-formed inventory, wearing what stands at any wire location either is refused and
-- leaves the inventory as it was, or leaves a well-formed inventory that holds as many of each
-- item.
pub equip_from_location-Rearranges :
    (items : Registry) (inv : PlayerInventory) (src_loc : String) (src_slot equip_slot : ℕ)
    → IsValid items inv
    → Rearranges items inv (equip_from_location items src_loc src_slot equip_slot inv)
unfolding equip_from_location
equip_from_location-Rearranges items inv src_loc src_slot equip_slot valid =
    elim (Bool-cases (leb equip_slot_count equip_slot)) [
      | inl out ↦ rw out refl
      | inr low ↦ rw low (elim (Result-cases (parse_slot_ref src_loc src_slot)) [
        | inr (e, refused) ↦ rw (refused, ◌>>=◌) refl
        | inl (r, read) ↦
            rw (read, ◌>>=◌)
              (elim (Bool-cases (is_held_bag_slot r)) [
                | inl held ↦ rw held refl
                | inr free ↦ rw free (elim (Result-cases (peek_source r inv)) [
                  | inr (e, refused) ↦ rw (refused, ◌>>=◌) refl
                  | inl (e, found) ↦
                      rw (found, ◌>>=◌)
                        (elim (Bool-cases (is_equippable_in_slot items e.item_path equip_slot)) [
                          | inr unfit ↦ rw unfit refl
                          | inl fits ↦ rw fits (
                              let there = peek_source-ok items inv r e valid found in
                              sync_source-Kept items inv _ r valid there.0 (
                                worn_swap-Kept items inv r equip_slot (some e) _ valid there.0
                                  (ground (arith, low)) there.1 refl
                                  (bag_num_slots-equippable items e.item_path equip_slot fits)))
                        ])
                ])
              ])
      ])
    ]
