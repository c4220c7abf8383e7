-- ===== src/Inventory/ParkLaws.antt =====
-- Parking the held stack only rearranges what the player owns.
use project_dawn_server.Inventory.BagMoves.{move_cursor_to_bag-Rearranges}
use project_dawn_server.Inventory.Entry.{is_bag_item}
use project_dawn_server.Inventory.HostMoves.{move_cursor_to_base-Rearranges}
use project_dawn_server.Inventory.Moves.{move_cursor_to_bag, move_cursor_to_base}
use project_dawn_server.Inventory.Valid.{IsValid, Rearranges}
use project_dawn_server.Inventory.Park.{
  first_free_inner, first_free_from, park_in_bag, park_in_base, park_cursor_stack,
}
use project_dawn_server.Items.{IsRegistry, Registry}
use project_dawn_server.Base.{Result-cases, arith, refl, Bool-cases, inr, inl, Option-cases}
use project_dawn_server.Inventory.State.{pure, Action, PlayerInventory, ◌>>=◌, cell}
use project_dawn_server.Inventory.Location.{cursor_bag_key, cursor}

reported-Rearranges :
    {A B : Type 0} (items : Registry) (inv : PlayerInventory) (m : Action A) (f : A → B)
    → Rearranges items inv (m inv)
    → Rearranges items inv ((m >>= λ a. pure (f a)) inv)
reported-Rearranges items inv m f h = elim (Result-cases (m inv).0) [
  | inl (a, done) ↦ rw (done, ◌>>=◌) (ground (arith, h, done))
  | inr (e, refused) ↦ rw (refused, ◌>>=◌) (ground (arith, h, refused))
]

-- From a well-formed inventory and a registry whose stack sizes are positive and fit a u32,
-- parking the held stack in the first empty slot either is refused and leaves the inventory as it
-- was, or leaves a well-formed inventory that holds as many of each item.
pub park_cursor_stack-Rearranges :
    (items : Registry) (inv : PlayerInventory)
    → IsRegistry items
    → IsValid items inv
    → Rearranges items inv (park_cursor_stack items inv)
unfolding park_cursor_stack park_in_base park_in_bag
park_cursor_stack-Rearranges items inv reg valid = elim (Option-cases (cell cursor inv)) [
  | inl free ↦ rw (free, park_cursor_stack) refl
  | inr (held, there) ↦
      rw (there, park_cursor_stack)
        (elim (Option-cases (first_free_from 0 inv.base)) [
          | inr (i, found) ↦ rw found (
              reported-Rearranges items inv (move_cursor_to_base items i) _
                (move_cursor_to_base-Rearranges items inv i reg valid))
          | inl full ↦ rw full (elim (Bool-cases (is_bag_item items held.item_path)) [
            | inl is_bag ↦ rw is_bag refl
            | inr plain ↦ rw plain (elim (Option-cases (first_free_inner 0 cursor_bag_key inv)) [
              | inl none_free ↦ rw none_free refl
              | inr ((b, s), found) ↦ rw found (
                  reported-Rearranges items inv (move_cursor_to_bag items b s) _
                    (move_cursor_to_bag-Rearranges items inv b s reg valid))
            ])
          ])
        ])
]
