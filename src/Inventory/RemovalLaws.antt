-- ===== src/Inventory/RemovalLaws.antt =====
-- What destroying, consuming and splitting a stack do to the count of each item.
use project_dawn_server.Inventory.Claim.{vacated_base}
use project_dawn_server.Inventory.EquipLaws.{peek_source-ok}
use project_dawn_server.Inventory.Rehost.{ensure_bag_init-IsValid}
use project_dawn_server.Inventory.Equip.{peek_source, sync_source}
use project_dawn_server.Inventory.Removal.{
  amount_to_remove, nonempty_bag, destroy_at, decrement_at, reduced,
}
use project_dawn_server.Inventory.Cells.{count_of-write_cell, count_of, InRange}
use project_dawn_server.Inventory.State.{
  bag_key_is_nonempty, ◌>>=◌, write_cell, slot_bag_size, cell, Move, PlayerInventory,
}
use project_dawn_server.Inventory.Valid.{write_cell-IsValid, IsValid, IsStack}
use project_dawn_server.Items.{bag_num_slots, Registry}
use project_dawn_server.Inventory.Entry.{count_in, InventoryEntry}
use project_dawn_server.Inventory.Location.{
  base_slot_count, is_held_bag_slot, parse_slot_ref, SlotRefInt, base, bag, cursor,
}
use project_dawn_server.Base.{
  ℕ_discrete, as_u8, false, ap, sym, Bool-cases, ◌∙◌, inl, str_eq, inr, subst, refl, if◌then◌else◌,
  Result-cases, ◌+◌, err, ◌<◌, arith, ◌≤◌, ok, none, ◌≡◌, some, String, ℕ,
}

-- A removal that succeeds takes the reported number of the reported item and nothing else; one
-- that is refused changes nothing.
abbrev pub Removes : Registry → PlayerInventory → Move (String × ℕ) → Type 0
Removes items inv (ok (taken, n), after) =
    IsValid items after
    × (0 < n)
    × ((path : String)
        → count_of path after + (if str_eq taken path then n else 0) ≡ count_of path inv)
Removes items inv (err _, after) = after ≡ inv

-- The report of `decrement_at`, as a removal of one item.
abbrev pub one_taken : Move String → Move (String × ℕ)
one_taken (ok path, after) = (ok (path, 1), after)
one_taken (err e, after) = (err e, after)

reduced-count :
    (path : String) (e : InventoryEntry) (n : ℕ)
    → IsStack (some e)
    → n ≤ e.count
    → count_in path (reduced e n) + (if str_eq e.item_path path then n else 0)
      ≡ count_in path (some e)
reduced-count path e n s h = ground arith

reduced-IsStack : (e : InventoryEntry) (n : ℕ) → IsStack (some e) → IsStack (reduced e n)
reduced-IsStack e n s = ground arith

reduced-plain :
    (items : Registry) (e : InventoryEntry) (n : ℕ)
    → bag_num_slots items e.item_path ≡ none
    → slot_bag_size items (reduced e n) ≡ none
reduced-plain items e n h = ground arith

reduced-size :
    (items : Registry) (e : InventoryEntry) (n : ℕ)
    → IsStack (some e)
    → n < e.count
    → slot_bag_size items (reduced e n) ≡ bag_num_slots items e.item_path
reduced-size items e n s h = ground arith

pub reduced-all : (e : InventoryEntry) → IsStack (some e) → reduced e e.count ≡ none
reduced-all e s = ground arith

-- The slot named by a reference loses `n` items, and keeps its bag if it has one.
reduce_slot :
    (items : Registry) (inv : PlayerInventory) (r : SlotRefInt) (e : InventoryEntry) (n : ℕ)
    → IsValid items inv
    → InRange r inv
    → cell r inv ≡ some e
    → slot_bag_size items (reduced e n) ≡ bag_num_slots items e.item_path
    → n ≤ e.count
    → IsValid items (write_cell r (reduced e n) inv)
      × ((path : String)
          → count_of path (write_cell r (reduced e n) inv)
              + (if str_eq e.item_path path then n else 0)
            ≡ count_of path inv)
reduce_slot items inv r e n valid there holds like h =
    let stack = subst IsStack holds (valid.stacks r) in
    (
      write_cell-IsValid items r (reduced e n) inv there valid (reduced-IsStack e n stack)
          (like ∙ ap (slot_bag_size items) (sym holds)),
      λ path. omega (
        arith,
        ap (count_in path) holds,
        reduced-count path e n stack h,
        count_of-write_cell path r (reduced e n) inv there,
      ),
    )

sync_source-IsValid :
    (items : Registry) (inv after : PlayerInventory) (r : SlotRefInt)
    → IsValid items inv
    → InRange r inv
    → IsValid items after
    → sync_source items r after ≡ after
sync_source-IsValid items inv after (base s) valid there v =
    ensure_bag_init-IsValid items s after (omega (arith, valid.base_len)) v
sync_source-IsValid items inv after (bag b s) valid there v = refl
sync_source-IsValid items inv after cursor valid there v = refl

-- What a removal from a reference that was read takes.
abbrev Takes : Registry → PlayerInventory → SlotRefInt → InventoryEntry → ℕ → Type 0
Takes items inv r e n =
    Removes items inv (ok (e.item_path, n), sync_source items r (write_cell r (reduced e n) inv))

module _ (items : Registry) (inv : PlayerInventory) (valid : IsValid items inv) where
  IsStack-at : (r : SlotRefInt) (e : InventoryEntry) → peek_source r inv ≡ ok e → IsStack (some e)
  IsStack-at r e found = subst IsStack (peek_source-ok items inv r e valid found).1 (valid.stacks r)

  like-Takes :
      (r : SlotRefInt) (e : InventoryEntry) (n : ℕ)
      → peek_source r inv ≡ ok e
      → slot_bag_size items (reduced e n) ≡ bag_num_slots items e.item_path
      → 0 < n
      → n ≤ e.count
      → Takes items inv r e n
  like-Takes r e n found like pos h =
      let there = peek_source-ok items inv r e valid found in
      let done = reduce_slot items inv r e n valid there.0 there.1 like h in
      rw (sync_source-IsValid items inv _ r valid there.0 done.0) (done.0, pos, done.1)

  plain-Takes :
      (r : SlotRefInt) (e : InventoryEntry) (n : ℕ)
      → peek_source r inv ≡ ok e
      → slot_bag_size items (cell r inv) ≡ none
      → 0 < n
      → n ≤ e.count
      → Takes items inv r e n
  plain-Takes r e n found plain =
      let there = peek_source-ok items inv r e valid found in
      let no_bag = subst (λ t. slot_bag_size items t ≡ none) there.1 plain in
      like-Takes r e n found (reduced-plain items e n no_bag ∙ sym no_bag)

  -- A base slot may hold a bag, if the bag holds nothing.
  base-Takes :
      (s : ℕ) (e : InventoryEntry) (n : ℕ)
      → peek_source (base s) inv ≡ ok e
      → bag_key_is_nonempty (as_u8 s) inv ≡ false
      → 0 < n
      → n ≤ e.count
      → Takes items inv (base s) e n
  base-Takes s e n found spare pos h =
      let there = peek_source-ok items inv (base s) e valid found in
      let stack = IsStack-at (base s) e found in
      let low : s < base_slot_count = omega (arith, valid.base_len, there.0) in
      let key : as_u8 s ≡ s = omega (arith, low) in
      elim (ℕ_discrete n e.count) [
        | no less ↦
            like-Takes (base s) e n found (reduced-size items e n stack (omega (arith, less, h)))
              pos h
        | yes all ↦
            let empties : reduced e n ≡ none = ap (reduced e) all ∙ reduced-all e stack in
            let done =
              vacated_base items inv s valid low
                (subst (λ k. bag_key_is_nonempty k inv ≡ false) key spare) in
            rw empties (done.0, pos, λ path. ground (arith, done.1 path, there.1, all))
      ]

  ref-Takes :
      (r : SlotRefInt) (e : InventoryEntry) (n : ℕ)
      → (r ≡ cursor → slot_bag_size items (cell cursor inv) ≡ none)
      → nonempty_bag items r inv ≡ false
      → peek_source r inv ≡ ok e
      → 0 < n
      → n ≤ e.count
      → Takes items inv r e n
  ref-Takes (base s) e n hand spare found = base-Takes s e n found spare
  ref-Takes (bag b s) e n hand spare found = plain-Takes (bag b s) e n found (valid.inner b s)
  ref-Takes cursor e n hand spare found = plain-Takes cursor e n found (hand refl)

  module _ (loc : String) (slot : ℕ) where
    -- From a well-formed inventory, at a wire location that does not name a hand with a bag in
    -- it, destroy_at either is refused and changes nothing, or takes a positive number of one
    -- item, as it reports, keeps the count of every other item and leaves a well-formed
    -- inventory.
    pub destroy_at-Removes :
        (parse_slot_ref loc slot ≡ ok cursor → slot_bag_size items (cell cursor inv) ≡ none)
        → (count : ℕ) → Removes items inv (destroy_at items loc slot count inv)
    unfolding destroy_at
    destroy_at-Removes hand count = elim (Result-cases (parse_slot_ref loc slot)) [
      | inr (e, refused) ↦ rw (refused, ◌>>=◌) refl
      | inl (r, read) ↦
          rw (read, ◌>>=◌)
            (elim (Bool-cases (is_held_bag_slot r)) [
              | inl held ↦ rw held refl
              | inr free ↦ rw free (elim (Bool-cases (nonempty_bag items r inv)) [
                | inl full ↦ rw full refl
                | inr spare ↦ rw spare (elim (Result-cases (peek_source r inv)) [
                  | inr (e, refused) ↦ rw (refused, ◌>>=◌) refl
                  | inl (e, found) ↦
                      rw (found, ◌>>=◌)
                        (let stack = IsStack-at r e found in
                          ref-Takes r e (amount_to_remove count e)
                            (λ held. hand (read ∙ ap ok held)) spare found (ground (arith, stack))
                            (ground (arith, stack)))
                ])
              ])
            ])
    ]

    -- From a well-formed inventory, at a wire location whose slot holds no bag, decrement_at
    -- either is refused and changes nothing, or takes one of the item that it reports, keeps the
    -- count of every other item and leaves a well-formed inventory.
    pub decrement_at-Removes :
        ((r : SlotRefInt)
          → parse_slot_ref loc slot ≡ ok r
          → slot_bag_size items (cell r inv) ≡ none)
        → Removes items inv (one_taken (decrement_at items loc slot inv))
    unfolding decrement_at
    decrement_at-Removes plain = elim (Result-cases (parse_slot_ref loc slot)) [
      | inr (e, refused) ↦ rw (refused, ◌>>=◌) refl
      | inl (r, read) ↦
          rw (read, ◌>>=◌)
            (elim (Bool-cases (is_held_bag_slot r)) [
              | inl held ↦ rw held refl
              | inr free ↦ rw free (elim (Result-cases (peek_source r inv)) [
                | inr (e, refused) ↦ rw (refused, ◌>>=◌) refl
                | inl (e, found) ↦
                    rw (found, ◌>>=◌)
                      (let stack = IsStack-at r e found in
                        plain-Takes r e 1 found (plain r read) (omega arith)
                          (omega (arith, stack.0)))
              ])
            ])
    ]
