-- ===== src/Inventory/HostMoves.antt =====
-- The moves between base slots and the cursor: refused and nothing changes, or a rearrangement.
use project_dawn_server.Base.{ℕ, refl, inl, inr, arith, Bool-cases, Option-cases, leb, ◌||◌, ◌==◌}
use project_dawn_server.Items.{Registry, IsRegistry}
use project_dawn_server.Inventory.Location.{cursor, base, base_slot_count}
use project_dawn_server.Inventory.State.{PlayerInventory, cell}
use project_dawn_server.Inventory.Moves.{move_cursor_to_base, move_base_to_cursor, move_base}
use project_dawn_server.Inventory.Valid.{IsValid, Rearranges}
use project_dawn_server.Inventory.Place.{
  rehost_from_cursor-Kept, rehost_to_cursor-Kept, ensure_bag_init-Kept, rehost_base-Kept,
}

-- From a well-formed inventory and a registry whose stack sizes are positive and fit a u32, a
-- move between two base slots, bags with their contents included, either is refused and leaves
-- the inventory as it was, or leaves a well-formed inventory that holds as many of each item.
pub move_base-Rearranges :
    (items : Registry) (inv : PlayerInventory) (src dst : ℕ)
    → IsRegistry items
    → IsValid items inv
    → Rearranges items inv (move_base items src dst inv)
unfolding move_base
move_base-Rearranges items inv src dst reg valid =
    elim (Bool-cases (leb base_slot_count src || leb base_slot_count dst)) [
      | inl out ↦ rw out refl
      | inr low ↦ rw low (elim (Bool-cases (src == dst)) [
        | inl same ↦ rw same (valid, λ path. refl)
        | inr apart ↦ rw apart (elim (Option-cases (cell (base src) inv)) [
          | inl gone ↦ rw gone refl
          | inr (entry, holds) ↦ rw holds (
              ensure_bag_init-Kept items dst inv _ (ground (arith, low)) (
                ensure_bag_init-Kept items src inv _ (ground (arith, low)) (
                  rehost_base-Kept items inv src dst entry reg valid (ground (arith, low))
                    (ground (arith, low)) (λ e. ground (arith, apart, e)) holds)))
        ])
      ])
    ]

-- From a well-formed inventory and a registry whose stack sizes are positive and fit a u32,
-- lifting a base slot into the hand either is refused and leaves the inventory as it was, or
-- leaves a well-formed inventory that holds as many of each item.
pub move_base_to_cursor-Rearranges :
    (items : Registry) (inv : PlayerInventory) (src : ℕ)
    → IsRegistry items
    → IsValid items inv
    → Rearranges items inv (move_base_to_cursor items src inv)
unfolding move_base_to_cursor
move_base_to_cursor-Rearranges items inv src reg valid =
    elim (Bool-cases (leb base_slot_count src)) [
      | inl out ↦ rw out refl
      | inr low ↦ rw low (elim (Option-cases (cell (base src) inv)) [
        | inl gone ↦ rw gone refl
        | inr (entry, holds) ↦ rw holds (
            ensure_bag_init-Kept items src inv _ (ground (arith, low))
              (rehost_to_cursor-Kept items inv src entry reg valid (ground (arith, low)) holds))
      ])
    ]

-- From a well-formed inventory and a registry whose stack sizes are positive and fit a u32,
-- putting the held stack into a base slot either is refused and leaves the inventory as it was,
-- or leaves a well-formed inventory that holds as many of each item.
pub move_cursor_to_base-Rearranges :
    (items : Registry) (inv : PlayerInventory) (dst : ℕ)
    → IsRegistry items
    → IsValid items inv
    → Rearranges items inv (move_cursor_to_base items dst inv)
unfolding move_cursor_to_base
move_cursor_to_base-Rearranges items inv dst reg valid =
    elim (Bool-cases (leb base_slot_count dst)) [
      | inl out ↦ rw out refl
      | inr low ↦ rw low (elim (Option-cases (cell cursor inv)) [
        | inl gone ↦ rw gone refl
        | inr (held, holds) ↦ rw holds (
            ensure_bag_init-Kept items dst inv _ (ground (arith, low))
              (rehost_from_cursor-Kept items inv dst held reg valid (ground (arith, low)) holds))
      ])
    ]
