-- ===== src/Inventory/Seat.antt =====
-- A base slot and the contents under its key written together, the contents empty or gone.
use project_dawn_server.Inventory.Rehost.{count_of-put_contents}
use project_dawn_server.Inventory.Settle.{content_at}
use project_dawn_server.Inventory.Cells.{
  count_of-write_cell, count_contents, host, count_of, size_of,
}
use project_dawn_server.Inventory.Valid.{IsStack, IsValid}
use project_dawn_server.Inventory.Entry.{count_in, Slots, Slot}
use project_dawn_server.Inventory.State.{
  sync_contents, write_cell, put_contents, ensure_bag_init, cell, slot_bag_size, PlayerInventory,
}
use project_dawn_server.Items.{Registry}
use project_dawn_server.Base.{
  inr, inl, ◌==◌, Bool-cases, ap, subst, length-set, get_or-set_ne, as_u8, ◌+◌, ◌≢◌, ℕ_discrete,
  refl, get_or-set_self, arith, length, String, none, ◌≡◌, ◌<◌, Option, ℕ,
}
use project_dawn_server.Inventory.Location.{
  cursor_bag_key, base_slot_count, SlotRefInt, base, bag, cursor,
}

module _ (items : Registry) (inv : PlayerInventory) (i : ℕ) (v : Slot) (c : Option Slots)
    (valid : IsValid items inv) (low : i < base_slot_count) (stack : IsStack v)
    (size : slot_bag_size items v ≡ size_of c) (vacant : (j : ℕ) → content_at c j ≡ none) where
  abbrev pub seated : PlayerInventory
  seated = put_contents i c (write_cell (base i) v inv)

  below_len : i < length inv.base
  below_len = omega (arith, valid.base_len, low)

  -- What `ensure_bag_init` does after the write of the slot, where it is to leave those contents.
  pub ensured :
      sync_contents (slot_bag_size items v) (inv.bags i) ≡ c
      → ensure_bag_init items i (write_cell (base i) v inv) ≡ seated
  unfolding ensure_bag_init write_cell put_contents
  ensured synced =
      let key : as_u8 i ≡ i = omega (arith, low) in
      let there = get_or-set_self inv.base i v none below_len in rw (key, there, synced) refl

  other_base : (k : ℕ) → i ≢ k → cell (base k) seated ≡ cell (base k) inv
  unfolding write_cell put_contents cell
  other_base k ne = get_or-set_ne inv.base i k v none ne

  this_base : cell (base i) seated ≡ v
  unfolding write_cell put_contents cell
  this_base = get_or-set_self inv.base i v none below_len

  this_bag : (j : ℕ) → cell (bag i j) seated ≡ none
  unfolding write_cell put_contents cell
  this_bag j = ground (arith, vacant j)

  other_bag : (k j : ℕ) → i ≢ k → cell (bag k j) seated ≡ cell (bag k j) inv
  unfolding write_cell put_contents cell
  other_bag k j ne = ground (arith, ne)

  this_cursor : cell cursor seated ≡ cell cursor inv
  unfolding write_cell put_contents cell
  this_cursor = refl

  seated-hosted : (k : ℕ) → slot_bag_size items (cell (host k) seated) ≡ size_of (seated.bags k)
  unfolding write_cell put_contents
  seated-hosted k = elim (ℕ_discrete i k) [
    | yes same ↦
        subst (λ k. slot_bag_size items (cell (host k) seated) ≡ size_of (seated.bags k)) same
          (ground (arith, ap (slot_bag_size items) this_base, size, low))
    | no ne ↦ elim (Bool-cases (k == cursor_bag_key)) [
      | inl held ↦ ground (arith, valid.hosted k, this_cursor)
      | inr free_key ↦ ground (arith, other_base k ne, valid.hosted k)
    ]
  ]

  seated-stacks : (r : SlotRefInt) → IsStack (cell r seated)
  seated-stacks (base k) = elim (ℕ_discrete i k) [
    | yes same ↦ subst (λ k. IsStack (cell (base k) seated)) same (rw this_base stack)
    | no ne ↦ rw (other_base k ne) (valid.stacks (base k))
  ]
  seated-stacks (bag k j) = elim (ℕ_discrete i k) [
    | yes same ↦ subst (λ k. IsStack (cell (bag k j) seated)) same (rw (this_bag j) tt)
    | no ne ↦ rw (other_bag k j ne) (valid.stacks (bag k j))
  ]
  seated-stacks cursor = rw this_cursor (valid.stacks cursor)

  seated-inner : (k j : ℕ) → slot_bag_size items (cell (bag k j) seated) ≡ none
  seated-inner k j = elim (ℕ_discrete i k) [
    | yes same ↦
        subst (λ k. slot_bag_size items (cell (bag k j) seated) ≡ none) same (rw (this_bag j) refl)
    | no ne ↦ rw (other_bag k j ne) (valid.inner k j)
  ]

  pub seated-IsValid : IsValid items seated
  unfolding write_cell put_contents
  seated-IsValid = record {
    base_len = omega (arith, length-set inv.base i v, valid.base_len);
    hosted = seated-hosted;
    inner = seated-inner;
    stacks = seated-stacks;
    worn_stacks = valid.worn_stacks;
    worn_plain = valid.worn_plain;
    worn_range = valid.worn_range;
  }

  still_there : (write_cell (base i) v inv).bags i ≡ inv.bags i
  unfolding write_cell
  still_there = refl

  pub seated-count :
      (path : String)
      → count_of path seated + count_in path (cell (base i) inv) + count_contents path (inv.bags i)
        ≡ count_of path inv + count_in path v + count_contents path c
  seated-count path = omega (
    arith,
    count_of-put_contents i c (write_cell (base i) v inv) path (omega (arith, low)),
    ap (count_contents path) still_there,
    count_of-write_cell path (base i) v inv below_len,
  )
