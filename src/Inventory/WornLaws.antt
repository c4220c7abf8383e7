-- ===== src/Inventory/WornLaws.antt =====
-- What a worn piece that comes back from a corpse adds.
use project_dawn_server.Inventory.EquipLaws.{count_of-put_worn, put_worn-IsValid}
use project_dawn_server.Inventory.Entry.{count_in, Slot}
use project_dawn_server.Inventory.Location.{equip_slot_count}
use project_dawn_server.Inventory.Cells.{count_of}
use project_dawn_server.Inventory.Valid.{IsValid}
use project_dawn_server.Inventory.State.{PlayerInventory}
use project_dawn_server.Inventory.Equip.{put_worn, restore_worn}
use project_dawn_server.Items.{bag_num_slots-equippable, is_equippable_in_slot, Registry}
use project_dawn_server.Base.{
  refl, ap, arith, inr, inl, true, not, false, str_eq, is_some, ◌==◌, ◌+◌, some, leb, none,
  Bool-cases, ◌≡◌, u32_mod, Bool, ◌<◌, String, ℕ, if◌then◌else◌, ◌||◌,
}

-- A refusal changes nothing; otherwise the stack is added to a slot that was empty.
abbrev pub Restores : Registry → String → ℕ → ℕ → PlayerInventory → Bool × PlayerInventory → Type 0
Restores items path count slot inv (false, after) = after ≡ inv
Restores items path count slot inv (true, after) =
    IsValid items after
    × (inv.equipment slot ≡ none)
    × (after.equipment slot ≡ some (record { item_path = path; count = count }))
    × ((p : String) → count_of p after ≡ count_of p inv + (if str_eq path p then count else 0))

-- From a well-formed inventory and for a u32 count, restore_worn either is refused and changes
-- nothing, or fills the worn slot, which was empty, with the piece, adds nothing else and leaves
-- a well-formed inventory.
pub restore_worn-Restores :
    (items : Registry) (path : String) (count slot : ℕ) (inv : PlayerInventory)
    → count < u32_mod
    → IsValid items inv
    → Restores items path count slot inv (restore_worn items path count slot inv)
unfolding restore_worn put_worn
restore_worn-Restores items path count slot inv fits valid =
    elim (Bool-cases (
      leb equip_slot_count slot
      || count == 0
      || is_some (inv.equipment slot)
      || not (is_equippable_in_slot items path slot))) [
        | inl no_room ↦ rw no_room refl
        | inr room ↦
            let low : slot < equip_slot_count = ground (arith, room) in
            let bare : inv.equipment slot ≡ none = ground (arith, room) in
            let takes : is_equippable_in_slot items path slot ≡ true = ground (arith, room) in
            let piece : Slot = some (record { item_path = path; count = count }) in
            rw room (
              put_worn-IsValid items slot piece inv valid low (ground (arith, room), fits)
                  (bag_num_slots-equippable items path slot takes),
              bare,
              ground arith,
              λ p. omega (
                arith,
                count_of-put_worn items slot piece inv p (omega (arith, low)),
                ap (count_in p) bare,
              ),
            )
      ]
