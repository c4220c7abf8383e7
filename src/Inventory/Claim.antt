-- ===== src/Inventory/Claim.antt =====
-- A stack put into an empty base slot, with empty contents where it is a bag; and an empty bag, or
-- any other whole stack, taken out of one.
use project_dawn_server.Inventory.Rehost.{ensure_bag_init-IsValid}
use project_dawn_server.Inventory.Seat.{seated-count, seated-IsValid, ensured}
use project_dawn_server.Inventory.SplitLaws.{no_contents}
use project_dawn_server.Inventory.Cells.{count_of-write_cell, InRange, count_of, count_contents}
use project_dawn_server.Inventory.Valid.{InRange-write_cell, write_cell-IsValid, IsStack, IsValid}
use project_dawn_server.Inventory.State.{
  slot_bag_size, put_contents, write_cell, ensure_bag_init, cell, PlayerInventory,
  bag_key_is_nonempty,
}
use project_dawn_server.Inventory.Entry.{count_in, InventoryEntry, Slots, Slot}
use project_dawn_server.Items.{bag_num_slots, Registry}
use project_dawn_server.Base.{
  sum_by-replicate, replicate, get_or-replicate, length-replicate, sym, ap, ◌∙◌, length-set, arith,
  refl, [], ◌+◌, some, inr, ◌∷◌, inl, Option-cases, sum_by, is_some, false, ◌<◌, ◌≡◌, any, none,
  String, Option, ℕ,
}
use project_dawn_server.Inventory.Location.{base_slot_count, SlotRefInt, base, bag, cursor}

abbrev no_stack : Slot
no_stack = none

abbrev no_slots : Option Slots
no_slots = none

module _ (items : Registry) (inv : PlayerInventory) (i : ℕ) (e : InventoryEntry)
    (valid : IsValid items inv) (low : i < base_slot_count) (free : cell (base i) inv ≡ none)
    (stack : IsStack (some e)) where
  bare : inv.bags i ≡ none
  bare = no_contents items inv i valid low free

  seated-InRange :
      (c : Option Slots) (s : SlotRefInt)
      → InRange s inv
      → InRange s (put_contents i c (write_cell (base i) (some e) inv))
  unfolding write_cell put_contents
  seated-InRange c (base k) h = omega (arith, length-set inv.base i (some e), h)
  seated-InRange c (bag k j) (arr, there, short, key) =
      (arr, ground (arith, there, bare), short, key)
  seated-InRange c cursor h = tt

  -- The claim of an empty base slot, the allocation of a bag included.
  pub claimed_base :
      let after = ensure_bag_init items i (write_cell (base i) (some e) inv) in
      IsValid items after
      × ((path : String) → count_of path after ≡ count_of path inv + count_in path (some e))
      × ((s : SlotRefInt) → InRange s inv → InRange s after)
  claimed_base = elim (Option-cases (bag_num_slots items e.item_path)) [
    | inr (n, size) ↦
        let fits = size ∙ ap some (sym (length-replicate n no_stack)) in
        let vacant = λ (j : ℕ). get_or-replicate n j no_stack in
        let contents = some (replicate n no_stack) in
        rw
          (ensured items inv i (some e) contents valid low stack fits vacant (rw (size, bare) refl))
          (
            seated-IsValid items inv i (some e) contents valid low stack fits vacant,
            λ path. omega (
              arith,
              seated-count items inv i (some e) contents valid low stack fits vacant path,
              sum_by-replicate (count_in path) n none refl,
              ap (count_in path) free,
              ap (count_contents path) bare,
            ),
            seated-InRange contents,
          )
    | inl plain ↦
        let there : InRange (base i) inv = omega (arith, valid.base_len, low) in
        let kept =
          write_cell-IsValid items (base i) (some e) inv there valid stack
            (plain ∙ sym (ap (slot_bag_size items) free)) in
        rw (ensure_bag_init-IsValid items i (write_cell (base i) (some e) inv) low kept) (
          kept,
          λ path. omega (
            arith,
            count_of-write_cell path (base i) (some e) inv there,
            ap (count_in path) free,
          ),
          λ s. InRange-write_cell (base i) s (some e) inv,
        )
  ]

count_in_none :
    (path : String) (xs : Slots) → any is_some xs ≡ false → sum_by (count_in path) xs ≡ 0
count_in_none path [] h = refl
count_in_none path (none ∷ xs) h = omega (arith, count_in_none path xs h)
count_in_none path (some e ∷ xs) h = cc

spare_contents :
    (path : String) (i : ℕ) (inv : PlayerInventory)
    → bag_key_is_nonempty i inv ≡ false
    → count_contents path (inv.bags i) ≡ 0
unfolding bag_key_is_nonempty
spare_contents path i inv h = elim (Option-cases (inv.bags i)) [
  | inl gone ↦ rw gone refl
  | inr (arr, there) ↦
      let nothing : any is_some arr ≡ false = ground (arith, there, h) in
      rw there (count_in_none path arr nothing)
]

-- A base slot emptied, whose contents, if it has any, hold nothing.
pub vacated_base :
    (items : Registry) (inv : PlayerInventory) (i : ℕ)
    → IsValid items inv
    → i < base_slot_count
    → bag_key_is_nonempty i inv ≡ false
    → let after = ensure_bag_init items i (write_cell (base i) none inv) in
      IsValid items after
      × ((path : String)
          → count_of path after + count_in path (cell (base i) inv) ≡ count_of path inv)
vacated_base items inv i valid low spare =
    rw (ensured items inv i none no_slots valid low tt refl (λ j. refl) refl) (
      seated-IsValid items inv i none no_slots valid low tt refl (λ j. refl),
      λ path. omega (
        arith,
        seated-count items inv i none no_slots valid low tt refl (λ j. refl) path,
        spare_contents path i inv spare,
      ),
    )
