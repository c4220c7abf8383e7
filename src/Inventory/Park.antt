-- ===== src/Inventory/Park.antt =====
-- crates/projectdawn-server/src/world/inventory.rs: parking the held stack in the first empty slot.
use project_dawn_server.Inventory.Moves.{move_cursor_to_base, move_cursor_to_bag}
use project_dawn_server.Inventory.Entry.{
  source_empty, bags_full, is_bag_item, InventoryEntry, Slots,
}
use project_dawn_server.Items.{Registry}
use project_dawn_server.Base.{◌∷◌, err, [], suc, some, none, String, Option, ℕ, if◌then◌else◌}
use project_dawn_server.Inventory.State.{pure, Touched, Action, PlayerInventory, ◌>>=◌, cell}
use project_dawn_server.Inventory.Location.{cursor_bag_key, bag_location, cursor}

abbrev pub first_free_from : ℕ → Slots → Option ℕ
first_free_from i [] = none
first_free_from i (none ∷ ss) = some i
first_free_from i (some e ∷ ss) = first_free_from (suc i) ss

-- The first empty inner slot under the keys `k`, `k + 1`, … of which there are `n`.
unfoldable pub first_free_inner : ℕ → ℕ → PlayerInventory → Option (ℕ × ℕ)
first_free_inner k ℕ.zero inv = none
first_free_inner k (ℕ.suc n) inv =
    let rest = first_free_inner (suc k) n inv in
    elim (inv.bags k) [
      | none ↦ rest
      | some arr ↦ elim (first_free_from 0 arr) [ none ↦ rest | some s ↦ some (k, s) ]
    ]

module _ (items : Registry) where
  -- Where the stack lands, and the slots that changed.
  unfoldable pub park_in_base : ℕ → Action ((String × ℕ) × Touched)
  park_in_base i = move_cursor_to_base items i >>= λ touched. pure (("base", i), touched)

  unfoldable pub park_in_bag : ℕ → ℕ → Action ((String × ℕ) × Touched)
  park_in_bag b s = move_cursor_to_bag items b s >>= λ touched. pure ((bag_location b, s), touched)

  abbrev pub park_inner : InventoryEntry → Action ((String × ℕ) × Touched)
  park_inner held inv =
      if is_bag_item items held.item_path
      then (err bags_full, inv)
      else elim (first_free_inner 0 cursor_bag_key inv) [
        | none ↦ (err bags_full, inv)
        | some (b, s) ↦ park_in_bag b s inv
      ]

  unfoldable pub park_cursor_stack : Action ((String × ℕ) × Touched)
  park_cursor_stack inv = elim (cell cursor inv) [
    | none ↦ (err source_empty, inv)
    | some held ↦ elim (first_free_from 0 inv.base) [
      | some i ↦ park_in_base i inv
      | none ↦ park_inner held inv
    ]
  ]
