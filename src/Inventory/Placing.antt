-- ===== src/Inventory/Placing.antt =====
-- Every grant of a new item: the passes over the base slots and the bags put together.
use project_dawn_server.Inventory.FillLaws.{
  claim-Keeps, claim-MovesIn, top_up-Keeps, top_up-MovesIn,
}
use project_dawn_server.Inventory.Claim.{claimed_base}
use project_dawn_server.Inventory.Equip.{sync_source}
use project_dawn_server.Inventory.GrantLaws.{Fills-trans, fill_refs-Fills, Fills, Syncs}
use project_dawn_server.Inventory.Cells.{count_of-write_cell, InRange}
use project_dawn_server.Inventory.Entry.{is_bag_item, Slots, InventoryEntry, Slot}
use project_dawn_server.Inventory.Valid.{IsStack, InRange-write_cell, write_cell-IsValid, IsValid}
use project_dawn_server.Inventory.Fill.{claim, top_up, SlotStep}
use project_dawn_server.Inventory.State.{cell, slot_bag_size, PlayerInventory}
use project_dawn_server.Inventory.Grant.{
  bag_refs, fill_refs, place_new, Grant, no_sync, base_refs, inner_refs,
}
use project_dawn_server.Items.{
  max_stack-u32, max_stack-pos, max_stack, bag_num_slots, IsRegistry, Registry,
}
use project_dawn_server.Base.{
  sym, min, false, [], ◌++◌, subst, length, range, All-append, inr, inl, some, Option-cases, suc,
  u32_mod, true, range_from, none, ◌≤◌, map, String, ◌<◌, ℕ, ◌+◌, ◌≡◌, arith, refl, All,
}
use project_dawn_server.Inventory.Location.{cursor_bag_key, base_slot_count, SlotRefInt, base, bag}

All-map_range :
    (P : SlotRefInt → Type 0) (f : ℕ → SlotRefInt) (i n : ℕ)
    → ((j : ℕ) → j < i + n → P (f j))
    → All P (map f (range_from i n))
All-map_range P f i ℕ.zero h = tt
All-map_range P f i (ℕ.suc n) h =
    (h i (omega arith), All-map_range P f (suc i) n (λ j low. h j (omega (arith, low))))

inner_refs-none :
    (inv : PlayerInventory) (k n : ℕ)
    → inv.bags k ≡ none
    → inner_refs k (suc n) inv ≡ inner_refs (suc k) n inv
unfolding inner_refs
inner_refs-none inv k n gone = rw (gone, inner_refs) refl

inner_refs-some :
    (inv : PlayerInventory) (k n : ℕ) (arr : Slots)
    → inv.bags k ≡ some arr
    → inner_refs k (suc n) inv ≡ map (bag k) (range (length arr)) ++ inner_refs (suc k) n inv
unfolding inner_refs
inner_refs-some inv k n arr there = rw (there, inner_refs) refl

inner_refs-All :
    (P : SlotRefInt → Type 0) (inv : PlayerInventory) (k n : ℕ)
    → k + n ≤ 256
    → ((r : SlotRefInt) → InRange r inv → P r)
    → All P (inner_refs k n inv)
unfolding inner_refs
inner_refs-All P inv k ℕ.zero low h = tt
inner_refs-All P inv k (ℕ.suc n) low h =
    let rest = inner_refs-All P inv (suc k) n (omega (arith, low)) h in
    elim (Option-cases (inv.bags k)) [
      | inl gone ↦ subst (All P) (sym (inner_refs-none inv k n gone)) rest
      | inr (arr, there) ↦ subst (All P) (sym (inner_refs-some inv k n arr there)) (
          All-append P (map (bag k) (range (length arr))) (inner_refs (suc k) n inv)
            (All-map_range P (bag k) 0 (length arr)
              (λ j short. h (bag k j) (arr, there, omega (arith, short), omega (arith, low))))
            rest)
    ]

base_refs-All :
    (P : SlotRefInt → Type 0) → ((i : ℕ) → i < base_slot_count → P (base i)) → All P base_refs
base_refs-All P h = All-map_range P base 0 base_slot_count (λ j low. h j (omega (arith, low)))

base_refs-InRange :
    (items : Registry) (inv : PlayerInventory)
    → IsValid items inv
    → All (λ r. InRange r inv) base_refs
base_refs-InRange items inv valid =
    base_refs-All (λ r. InRange r inv) (λ i low. omega (arith, low, valid.base_len))

module _ (items : Registry) (step : SlotStep) where
  -- A step that keeps the size of the bag in a slot needs nothing after its write.
  no_sync-Syncs :
      ((n : ℕ) (s : Slot)
        → (step n s).2 ≡ true
        → slot_bag_size items (step n s).0 ≡ slot_bag_size items s)
      → (r : SlotRefInt) → Syncs items step no_sync r
  no_sync-Syncs like r inv n valid there stack hit =
      let s = (step n (cell r inv)).0 in
      (
        write_cell-IsValid items r s inv there valid stack (like n (cell r inv) hit),
        λ item. count_of-write_cell item r s inv there,
        λ t. InRange-write_cell r t s inv,
      )

module _ (items : Registry) (path : String) (cap : ℕ) where
  top_up_like :
      (n : ℕ) (s : Slot)
      → (top_up cap path n s).2 ≡ true
      → slot_bag_size items (top_up cap path n s).0 ≡ slot_bag_size items s
  top_up_like n none h = refl
  top_up_like n (some e) h = ground arith

  claim_like :
      bag_num_slots items path ≡ none
      → (n : ℕ) (s : Slot) → (claim cap path n s).2 ≡ true
      → slot_bag_size items (claim cap path n s).0 ≡ slot_bag_size items s
  claim_like plain n none h = plain
  claim_like plain n (some e) h = cc

  claim_base-Syncs :
      (i : ℕ) → i < base_slot_count → Syncs items (claim cap path) (sync_source items) (base i)
  claim_base-Syncs i low inv n valid there stack hit = elim (Option-cases (cell (base i) inv)) [
    | inr (e, taken) ↦ absurd (ground (arith, hit, taken))
    | inl free ↦
        let e : InventoryEntry = record { item_path = path; count = min n cap } in
        let proper : IsStack (some e) = subst (λ s. IsStack (claim cap path n s).0) free stack in
        let done = claimed_base items inv i e valid low free proper in
        rw free (done.0, λ item. omega (arith, done.1 item), done.2)
  ]

is_bag_item-some :
    (items : Registry) (path : String) (n : ℕ)
    → bag_num_slots items path ≡ some n
    → is_bag_item items path ≡ true
unfolding is_bag_item
is_bag_item-some items path n h = ground (arith, h)

is_bag_item-none :
    (items : Registry) (path : String)
    → bag_num_slots items path ≡ none
    → is_bag_item items path ≡ false
unfolding is_bag_item
is_bag_item-none items path h = ground (arith, h)

module _ (items : Registry) (reg : IsRegistry items) (path : String) (count : ℕ)
    (inv : PlayerInventory) (valid : IsValid items inv) (low : count < u32_mod) where
  abbrev cap : ℕ
  cap = max_stack items path

  abbrev pub start : Grant
  start = record { inv = inv; touched = []; remaining = count }

  -- The top-up of the base slots and of the bags.
  topped : Fills items path start (
      let g1 = fill_refs (top_up cap path) no_sync base_refs start in
      fill_refs (top_up cap path) no_sync (bag_refs g1.inv) g1)
  topped =
      let pos = max_stack-pos items reg path in
      let fits = max_stack-u32 items reg path in
      let moves = top_up-MovesIn cap path pos fits in
      let keeps = top_up-Keeps cap path pos fits in
      let syncs = no_sync-Syncs items (top_up cap path) (top_up_like items path cap) in
      let g1 = fill_refs (top_up cap path) no_sync base_refs start in
      let first =
        fill_refs-Fills items path (top_up cap path) moves keeps no_sync base_refs start
          (base_refs-All (Syncs items (top_up cap path) no_sync) (λ i _. syncs (base i))) valid
          (base_refs-InRange items inv valid) low in
      Fills-trans items path start g1 _ first (
        fill_refs-Fills items path (top_up cap path) moves keeps no_sync (bag_refs g1.inv) g1
          (inner_refs-All (Syncs items (top_up cap path) no_sync) g1.inv 0 cursor_bag_key
            (omega arith) (λ r _. syncs r))
          first.valid
          (inner_refs-All (λ r. InRange r g1.inv) g1.inv 0 cursor_bag_key (omega arith) (λ r h. h))
          (omega (arith, first.less, low)))

  pub place_new-Fills : Fills items path start (place_new items path count inv)
  unfolding place_new
  place_new-Fills =
      let pos = max_stack-pos items reg path in
      let fits = max_stack-u32 items reg path in
      let moves = claim-MovesIn cap path pos fits in
      let keeps = claim-Keeps cap path pos fits in
      let g1 = fill_refs (top_up cap path) no_sync base_refs start in
      let g2 = fill_refs (top_up cap path) no_sync (bag_refs g1.inv) g1 in
      let g3 = fill_refs (claim cap path) (sync_source items) base_refs g2 in
      let claimed = Fills-trans items path start g2 g3 topped (
        fill_refs-Fills items path (claim cap path) moves keeps (sync_source items) base_refs g2
          (base_refs-All (Syncs items (claim cap path) (sync_source items))
            (claim_base-Syncs items path cap))
          topped.valid (base_refs-InRange items g2.inv topped.valid)
          (omega (arith, topped.less, low))) in
      elim (Option-cases (bag_num_slots items path)) [
        | inr (n, size) ↦ rw (is_bag_item-some items path n size) claimed
        | inl plain ↦ rw (is_bag_item-none items path plain) (
            Fills-trans items path start g3 _ claimed (
              fill_refs-Fills items path (claim cap path) moves keeps no_sync (bag_refs g3.inv) g3
                (inner_refs-All (Syncs items (claim cap path) no_sync) g3.inv 0 cursor_bag_key
                  (omega arith)
                  (λ r _. no_sync-Syncs items (claim cap path) (claim_like items path cap plain) r))
                claimed.valid
                (inner_refs-All (λ r. InRange r g3.inv) g3.inv 0 cursor_bag_key (omega arith)
                  (λ r h. h))
                (omega (arith, claimed.less, low))))
      ]
