-- ===== src/Inventory/MoveAcross.antt =====
-- `move_across`, whatever the wire names: it is refused and changes nothing, or it rearranges.
use project_dawn_server.Inventory.BagMoves.{
  move_cursor_to_bag-Rearranges, move_bag_to_cursor-Rearranges, move_bag_to_base-Rearranges,
  move_base_to_bag-Rearranges, move_bag_to_bag-Rearranges, move_bag-Rearranges,
}
use project_dawn_server.Inventory.HostMoves.{
  move_cursor_to_base-Rearranges, move_base_to_cursor-Rearranges, move_base-Rearranges,
}
use project_dawn_server.Inventory.Valid.{Rearranges, IsValid}
use project_dawn_server.Inventory.Location.{is_held_bag_slot, parse_slot_ref, SlotRefInt}
use project_dawn_server.Inventory.State.{PlayerInventory}
use project_dawn_server.Items.{IsRegistry, Registry}
use project_dawn_server.Inventory.Moves.{move_across, dispatch}
use project_dawn_server.Inventory.State.{◌>>=◌}
use project_dawn_server.Inventory.Location.{base, bag, cursor}
use project_dawn_server.Base.{Result-cases, ℕ, refl, inl, inr, String, Bool-cases, ◌==◌}

pub dispatch-Rearranges :
    (items : Registry) (inv : PlayerInventory) (src dst : SlotRefInt)
    → IsRegistry items
    → IsValid items inv
    → Rearranges items inv (dispatch items src dst inv)
unfolding dispatch
dispatch-Rearranges items inv (base s) (base d) reg valid =
    move_base-Rearranges items inv s d reg valid
dispatch-Rearranges items inv (bag b1 s) (bag b2 d) reg valid = elim (Bool-cases (b1 == b2)) [
  | inl same ↦ rw same (move_bag-Rearranges items inv b1 s d reg valid)
  | inr apart ↦ rw apart (move_bag_to_bag-Rearranges items inv b1 s b2 d reg valid)
]
dispatch-Rearranges items inv (base s) (bag b d) reg valid =
    move_base_to_bag-Rearranges items inv s b d reg valid
dispatch-Rearranges items inv (bag b s) (base d) reg valid =
    move_bag_to_base-Rearranges items inv b s d reg valid
dispatch-Rearranges items inv cursor cursor reg valid = (valid, λ path. refl)
dispatch-Rearranges items inv (base s) cursor reg valid =
    move_base_to_cursor-Rearranges items inv s reg valid
dispatch-Rearranges items inv cursor (base d) reg valid =
    move_cursor_to_base-Rearranges items inv d reg valid
dispatch-Rearranges items inv (bag b s) cursor reg valid =
    move_bag_to_cursor-Rearranges items inv b s reg valid
dispatch-Rearranges items inv cursor (bag b d) reg valid =
    move_cursor_to_bag-Rearranges items inv b d reg valid

-- From a well-formed inventory and a registry whose stack sizes are positive and fit a u32, a
-- move_across between any two wire locations either is refused and leaves the inventory as it
-- was, or leaves a well-formed inventory that holds as many of each item.
pub move_across-Rearranges :
    (items : Registry) (inv : PlayerInventory) (src_loc : String) (src_slot : ℕ) (dst_loc : String)
    (dst_slot : ℕ)
    → IsRegistry items
    → IsValid items inv
    → Rearranges items inv (move_across items src_loc src_slot dst_loc dst_slot inv)
unfolding move_across
move_across-Rearranges items inv src_loc src_slot dst_loc dst_slot reg valid =
    elim (Result-cases (parse_slot_ref src_loc src_slot)) [
      | inr (e, refused) ↦ rw (refused, ◌>>=◌) refl
      | inl (src, read) ↦
          rw (read, ◌>>=◌)
            (elim (Result-cases (parse_slot_ref dst_loc dst_slot)) [
              | inr (e, refused) ↦ rw (refused, ◌>>=◌) refl
              | inl (dst, read_dst) ↦
                  rw (read_dst, ◌>>=◌)
                    (elim (Bool-cases (is_held_bag_slot src)) [
                      | inl held ↦ rw held refl
                      | inr free ↦ rw free (elim (Bool-cases (is_held_bag_slot dst)) [
                        | inl held ↦ rw held refl
                        | inr clear ↦ rw clear (dispatch-Rearranges items inv src dst reg valid)
                      ])
                    ])
            ])
    ]
