-- ===== src/Inventory/Cells.antt =====
-- What a write to one slot of the inventory changes: the slot itself, and the count of each item.
use project_dawn_server.Base.{
  inl, inr, ap₂, Option-cases, ℕ_discrete, ℕ, ◌+◌, ◌<◌, ◌≡◌, refl, ap, ◌≢◌, Option, none, some,
  String, update, length, set, arith, get_or-set_self, get_or-set_ne, length-set, sum_by,
  sum_by-set, sum_below, sum_below-one, ◌==◌, if◌then◌else◌,
}
use project_dawn_server.Inventory.Entry.{Slot, Slots, count_in}
use project_dawn_server.Inventory.Location.{SlotRefInt, base, bag, cursor, cursor_bag_key}
use project_dawn_server.Inventory.State.{PlayerInventory, cell, write_cell}

-- The slot that hosts the contents under a key.
abbrev pub host : ℕ → SlotRefInt
host k = if k == cursor_bag_key then cursor else base k

abbrev pub size_of : Option Slots → Option ℕ
size_of none = none
size_of (some arr) = some (length arr)

-- How many of an item some contents hold, and the whole inventory.
abbrev pub count_contents : String → Option Slots → ℕ
count_contents path none = 0
count_contents path (some arr) = sum_by (count_in path) arr

unfoldable pub count_of : String → PlayerInventory → ℕ
count_of path inv =
    sum_by (count_in path) inv.base
    + sum_below (count_in path) 256 inv.equipment
    + sum_below (count_contents path) 256 inv.bags
    + count_in path inv.cursor

-- The reference names a slot that is there.
abbrev pub InRange : SlotRefInt → PlayerInventory → Type 0
InRange (base i) inv = i < length inv.base
InRange (bag k i) inv = (arr : Slots) × (inv.bags k ≡ some arr) × (i < length arr) × (k < 256)
InRange cursor inv = Unit

pub cell-write_self :
    (r : SlotRefInt) (v : Slot) (inv : PlayerInventory)
    → InRange r inv
    → cell r (write_cell r v inv) ≡ v
unfolding cell write_cell
cell-write_self (base i) v inv h = get_or-set_self inv.base i v none h
cell-write_self (bag k i) v inv (arr, e, h, low) = ground (arith, get_or-set_self arr i v none h)
cell-write_self cursor v inv h = refl

pub cell-write_ne :
    (r s : SlotRefInt) (v : Slot) (inv : PlayerInventory)
    → r ≢ s
    → cell s (write_cell r v inv) ≡ cell s inv
unfolding cell write_cell
cell-write_ne (base i) (base j) v inv h = get_or-set_ne inv.base i j v none (λ e. h (ap base e))
cell-write_ne (base i) (bag k j) v inv h = refl
cell-write_ne (base i) cursor v inv h = refl
cell-write_ne (bag k i) (base j) v inv h = ground arith
cell-write_ne (bag k i) (bag l j) v inv h = elim (ℕ_discrete k l) [
  | yes same ↦ elim (Option-cases (inv.bags k)) [
    | inl e ↦ ground arith
    | inr (arr, e) ↦ ground (arith, get_or-set_ne arr i j v none (λ w. h (ap₂ bag same w)))
  ]
  | no other ↦ ground arith
]
cell-write_ne (bag k i) cursor v inv h = ground arith
cell-write_ne cursor (base j) v inv h = refl
cell-write_ne cursor (bag k j) v inv h = refl
cell-write_ne cursor cursor v inv h = absurd (h refl)

pub size-write_cell :
    (r : SlotRefInt) (v : Slot) (inv : PlayerInventory) (k : ℕ)
    → size_of ((write_cell r v inv).bags k) ≡ size_of (inv.bags k)
unfolding write_cell
size-write_cell (base i) v inv k = refl
size-write_cell (bag j i) v inv k = elim (Option-cases (inv.bags j)) [
  | inl e ↦ ground arith
  | inr (arr, e) ↦ ground (arith, length-set arr i v)
]
size-write_cell cursor v inv k = refl

pub length-base-write_cell :
    (r : SlotRefInt) (v : Slot) (inv : PlayerInventory)
    → length (write_cell r v inv).base ≡ length inv.base
unfolding write_cell
length-base-write_cell (base i) v inv = length-set inv.base i v
length-base-write_cell (bag j i) v inv = ground arith
length-base-write_cell cursor v inv = refl

pub equipment-write_cell :
    (r : SlotRefInt) (v : Slot) (inv : PlayerInventory)
    → (write_cell r v inv).equipment ≡ inv.equipment
unfolding write_cell
equipment-write_cell (base i) v inv = refl
equipment-write_cell (bag j i) v inv = ground arith
equipment-write_cell cursor v inv = refl

-- A write moves the count of each item by the difference of the two slots.
pub count_of-write_cell :
    (path : String) (r : SlotRefInt) (v : Slot) (inv : PlayerInventory)
    → InRange r inv
    → count_of path (write_cell r v inv) + count_in path (cell r inv)
      ≡ count_of path inv + count_in path v
unfolding count_of cell write_cell
count_of-write_cell path (base i) v inv h =
    omega (arith, sum_by-set (count_in path) inv.base i v none h)
count_of-write_cell path (bag k i) v inv (arr, e, h, low) =
    let one =
      sum_below-one (count_contents path) 256 k (update k (some (set arr i v)) inv.bags) inv.bags
        low (λ j d. ground arith) in
    let there : (update k (some (set arr i v)) inv.bags) k ≡ some (set arr i v) = ground arith in
    rw (e, cell, write_cell, count_of)
      (omega (
        arith,
        ap (count_contents path) there,
        one,
        ap (count_contents path) e,
        sum_by-set (count_in path) arr i v none h,
      ))
count_of-write_cell path cursor v inv h = omega arith
