-- ===== src/Inventory/BagMoves.antt =====
-- The moves into, out of and between bags: refused and nothing changes, or a rearrangement.
use project_dawn_server.Inventory.BagFacts.{
  plain_slot, bag_plain, not_bag, bag_entry, bag_there, bag_entry_plain,
}
use project_dawn_server.Inventory.Entry.{InventoryEntry, slot_at, is_bag_item, Slots}
use project_dawn_server.Base.{
  Result-cases, eq_iff, ok, none, some, ◌≡◌, length, as_u8, ℕ, refl, inl, inr, arith, Bool-cases,
  Option-cases, leb, ◌||◌, ◌==◌,
}
use project_dawn_server.Items.{bag_num_slots, Registry, IsRegistry}
use project_dawn_server.Inventory.Location.{bag, cursor, base, base_slot_count}
use project_dawn_server.Inventory.State.{◌>>=◌, slot_bag_size, PlayerInventory, cell}
use project_dawn_server.Inventory.Moves.{
  move_bag_to_cursor, move_bag_to_bag, holds_bag, swap_with_held, move_bag_to_base,
  move_base_to_bag, move_cursor_to_bag, move_bag,
}
use project_dawn_server.Inventory.Valid.{IsValid, Rearranges}
use project_dawn_server.Inventory.Place.{base_there, place-Kept, ensure_bag_init-Kept}

-- From a well-formed inventory and a registry whose stack sizes are positive and fit a u32, a
-- move between two slots of one bag either is refused and leaves the inventory as it was, or
-- leaves a well-formed inventory that holds as many of each item.
pub move_bag-Rearranges :
    (items : Registry) (inv : PlayerInventory) (base_idx src dst : ℕ)
    → IsRegistry items
    → IsValid items inv
    → Rearranges items inv (move_bag items base_idx src dst inv)
unfolding move_bag
move_bag-Rearranges items inv base_idx src dst reg valid =
    elim (Option-cases (inv.bags (as_u8 base_idx))) [
      | inl gone ↦ rw gone refl
      | inr (arr, held) ↦
          rw held (elim (Bool-cases (leb (length arr) src || leb (length arr) dst)) [
            | inl out ↦ rw out refl
            | inr low ↦ rw low (elim (Bool-cases (src == dst)) [
              | inl same ↦ rw same (valid, λ path. refl)
              | inr apart ↦ rw apart (elim (Option-cases (slot_at arr src)) [
                | inl gone ↦ rw gone refl
                | inr (entry, holds) ↦ rw holds (
                    place-Kept items inv (bag (as_u8 base_idx) src) (bag (as_u8 base_idx) dst) entry
                      reg valid (bag_there items inv _ valid held src (ground (arith, low)))
                      (bag_there items inv _ valid held dst (ground (arith, low)))
                      (λ e. ground (arith, apart, e)) (bag_entry items inv _ valid held src holds)
                      (bag_entry_plain items inv _ valid held src entry holds)
                      (bag_plain items inv _ valid held dst))
              ])
            ])
          ])
    ]

-- From a well-formed inventory and a registry whose stack sizes are positive and fit a u32,
-- putting the held stack into a bag either is refused and leaves the inventory as it was, or
-- leaves a well-formed inventory that holds as many of each item.
pub move_cursor_to_bag-Rearranges :
    (items : Registry) (inv : PlayerInventory) (base_idx dst : ℕ)
    → IsRegistry items
    → IsValid items inv
    → Rearranges items inv (move_cursor_to_bag items base_idx dst inv)
unfolding move_cursor_to_bag
move_cursor_to_bag-Rearranges items inv base_idx dst reg valid =
    elim (Option-cases (cell cursor inv)) [
      | inl gone ↦ rw gone refl
      | inr (held, holds) ↦ rw holds (elim (Bool-cases (is_bag_item items held.item_path)) [
        | inl is_bag ↦ rw is_bag refl
        | inr plain ↦ rw plain (elim (Option-cases (inv.bags base_idx)) [
          | inl gone ↦ rw gone refl
          | inr (arr, there) ↦ rw there (elim (Bool-cases (leb (length arr) dst)) [
            | inl out ↦ rw out refl
            | inr low ↦ rw low (
                place-Kept items inv cursor (bag base_idx dst) held reg valid tt
                  (bag_there items inv _ valid there dst (ground (arith, low))) (λ e. cc) holds
                  (not_bag items held.item_path plain) (bag_plain items inv _ valid there dst))
          ])
        ])
      ])
    ]

-- From a well-formed inventory and a registry whose stack sizes are positive and fit a u32, a
-- move from a base slot into a bag either is refused and leaves the inventory as it was, or
-- leaves a well-formed inventory that holds as many of each item.
pub move_base_to_bag-Rearranges :
    (items : Registry) (inv : PlayerInventory) (src base_idx dst : ℕ)
    → IsRegistry items
    → IsValid items inv
    → Rearranges items inv (move_base_to_bag items src base_idx dst inv)
unfolding move_base_to_bag
move_base_to_bag-Rearranges items inv src base_idx dst reg valid =
    elim (Bool-cases (leb base_slot_count src)) [
      | inl out ↦ rw out refl
      | inr below ↦ rw below (elim (Option-cases (cell (base src) inv)) [
        | inl gone ↦ rw gone refl
        | inr (entry, holds) ↦ rw holds (elim (Bool-cases (is_bag_item items entry.item_path)) [
          | inl is_bag ↦ rw is_bag refl
          | inr plain ↦ rw plain (elim (Option-cases (inv.bags base_idx)) [
            | inl gone ↦ rw gone refl
            | inr (arr, there) ↦ rw there (elim (Bool-cases (leb (length arr) dst)) [
              | inl out ↦ rw out refl
              | inr low ↦ rw low (
                  ensure_bag_init-Kept items src inv _ (ground (arith, below)) (
                    place-Kept items inv (base src) (bag base_idx dst) entry reg valid
                      (base_there items inv src valid (ground (arith, below)))
                      (bag_there items inv _ valid there dst (ground (arith, low))) (λ e. cc) holds
                      (not_bag items entry.item_path plain)
                      (bag_plain items inv _ valid there dst)))
            ])
          ])
        ])
      ])
    ]

-- From a well-formed inventory and a registry whose stack sizes are positive and fit a u32, a
-- move from a bag to a base slot either is refused and leaves the inventory as it was, or leaves
-- a well-formed inventory that holds as many of each item.
pub move_bag_to_base-Rearranges :
    (items : Registry) (inv : PlayerInventory) (base_idx src dst : ℕ)
    → IsRegistry items
    → IsValid items inv
    → Rearranges items inv (move_bag_to_base items base_idx src dst inv)
unfolding move_bag_to_base
move_bag_to_base-Rearranges items inv base_idx src dst reg valid =
    elim (Bool-cases (leb base_slot_count dst)) [
      | inl out ↦ rw out refl
      | inr below ↦ rw below (elim (Option-cases (inv.bags base_idx)) [
        | inl gone ↦ rw gone refl
        | inr (arr, there) ↦ rw there (elim (Bool-cases (leb (length arr) src)) [
          | inl out ↦ rw out refl
          | inr low ↦ rw low (elim (Bool-cases (holds_bag items (cell (base dst) inv))) [
            | inl is_bag ↦ rw is_bag refl
            | inr plain ↦ rw plain (elim (Option-cases (slot_at arr src)) [
              | inl gone ↦ rw gone refl
              | inr (entry, holds) ↦ rw holds (
                  ensure_bag_init-Kept items dst inv _ (ground (arith, below)) (
                    place-Kept items inv (bag base_idx src) (base dst) entry reg valid
                      (bag_there items inv _ valid there src (ground (arith, low)))
                      (base_there items inv dst valid (ground (arith, below))) (λ e. cc)
                      (bag_entry items inv _ valid there src holds)
                      (bag_entry_plain items inv _ valid there src entry holds)
                      (plain_slot items _ plain)))
            ])
          ])
        ])
      ])
    ]

-- The check lets a move go on only if the slots it would swap both hold no bag, or one item.

check_swap_plain :
    (items : Registry) (inv : PlayerInventory) (base_idx src : ℕ) (arr : Slots)
    (entry held : InventoryEntry)
    → bag_num_slots items entry.item_path ≡ none
    → inv.bags base_idx ≡ some arr
    → slot_at arr src ≡ some entry
    → inv.cursor ≡ some held
    → swap_with_held items base_idx src inv ≡ ok tt
    → bag_num_slots items held.item_path ≡ none
unfolding swap_with_held is_bag_item
check_swap_plain items inv base_idx src arr entry held plain there holds hand passed =
    ground (arith, eq_iff held.item_path entry.item_path)

hand_plain :
    (items : Registry) (inv : PlayerInventory) (base_idx src : ℕ) (arr : Slots)
    (entry : InventoryEntry)
    → bag_num_slots items entry.item_path ≡ none
    → inv.bags base_idx ≡ some arr
    → slot_at arr src ≡ some entry
    → swap_with_held items base_idx src inv ≡ ok tt
    → slot_bag_size items (cell cursor inv) ≡ none
unfolding cell
hand_plain items inv base_idx src arr entry plain there holds passed =
    elim (Option-cases inv.cursor) [
      | inl none_held ↦ rw none_held refl
      | inr (held, hand) ↦
          rw hand
            (check_swap_plain items inv base_idx src arr entry held plain there holds hand passed)
    ]

-- From a well-formed inventory and a registry whose stack sizes are positive and fit a u32,
-- lifting a stack from a bag into the hand either is refused and leaves the inventory as it was,
-- or leaves a well-formed inventory that holds as many of each item.
pub move_bag_to_cursor-Rearranges :
    (items : Registry) (inv : PlayerInventory) (base_idx src : ℕ)
    → IsRegistry items
    → IsValid items inv
    → Rearranges items inv (move_bag_to_cursor items base_idx src inv)
unfolding move_bag_to_cursor
move_bag_to_cursor-Rearranges items inv base_idx src reg valid =
    elim (Result-cases (swap_with_held items base_idx src inv)) [
      | inr (e, failed) ↦ rw (failed, ◌>>=◌) refl
      | inl (_, passed) ↦
          rw (passed, ◌>>=◌)
            (elim (Option-cases (inv.bags base_idx)) [
              | inl gone ↦ rw gone refl
              | inr (arr, there) ↦ rw there (elim (Bool-cases (leb (length arr) src)) [
                | inl out ↦ rw out refl
                | inr low ↦ rw low (elim (Option-cases (slot_at arr src)) [
                  | inl gone ↦ rw gone refl
                  | inr (entry, holds) ↦ rw holds (
                      let plain = bag_entry_plain items inv _ valid there src entry holds in
                      place-Kept items inv (bag base_idx src) cursor entry reg valid
                        (bag_there items inv _ valid there src (ground (arith, low))) tt (λ e. cc)
                        (bag_entry items inv _ valid there src holds) plain
                        (hand_plain items inv base_idx src arr entry plain there holds passed))
                ])
              ])
            ])
    ]

-- From a well-formed inventory and a registry whose stack sizes are positive and fit a u32, a
-- move between slots of two bags, or of one, either is refused and leaves the inventory as it
-- was, or leaves a well-formed inventory that holds as many of each item.
pub move_bag_to_bag-Rearranges :
    (items : Registry) (inv : PlayerInventory) (src_base src_slot dst_base dst_slot : ℕ)
    → IsRegistry items
    → IsValid items inv
    → Rearranges items inv (move_bag_to_bag items src_base src_slot dst_base dst_slot inv)
unfolding move_bag_to_bag
move_bag_to_bag-Rearranges items inv src_base src_slot dst_base dst_slot reg valid =
    elim (Bool-cases (src_base == dst_base)) [
      | inl same ↦ rw same (move_bag-Rearranges items inv src_base src_slot dst_slot reg valid)
      | inr apart ↦ rw apart (elim (Option-cases (inv.bags src_base)) [
        | inl gone ↦ rw gone refl
        | inr (arr, there) ↦ rw there (elim (Bool-cases (leb (length arr) src_slot)) [
          | inl out ↦ rw out refl
          | inr low ↦ rw low (elim (Option-cases (slot_at arr src_slot)) [
            | inl gone ↦ rw gone refl
            | inr (entry, holds) ↦ rw holds (elim (Option-cases (inv.bags dst_base)) [
              | inl gone ↦ rw gone refl
              | inr (dst_arr, dst_there) ↦
                  rw dst_there (elim (Bool-cases (leb (length dst_arr) dst_slot)) [
                    | inl out ↦ rw out refl
                    | inr dst_low ↦ rw dst_low (
                        place-Kept items inv (bag src_base src_slot) (bag dst_base dst_slot) entry
                          reg valid
                          (bag_there items inv _ valid there src_slot (ground (arith, low)))
                          (bag_there items inv _ valid dst_there dst_slot (ground (arith, dst_low)))
                          (λ e. ground (arith, apart, e))
                          (bag_entry items inv _ valid there src_slot holds)
                          (bag_entry_plain items inv _ valid there src_slot entry holds)
                          (bag_plain items inv _ valid dst_there dst_slot))
                  ])
            ])
          ])
        ])
      ])
    ]
