-- ===== src/Inventory/Fill.antt =====
-- crates/projectdawn-server/src/world/inventory.rs: the two passes that put a number of one item into
-- a row of slots (in the bank's `deposit` and in `add_item_locating`).
use project_dawn_server.Inventory.Entry.{saturating_add, Slots, Slot}
use project_dawn_server.Base.{
  ltb, none, ◌&&◌, true, str_eq, [], ◌-◌, suc, min, ◌∷◌, some, false, List, Bool, ◌==◌,
  if◌then◌else◌, String, ℕ,
}

-- What a pass leaves: the slots, the indices that it changed, and the number still to be placed.
pub record Pass : Type 0 where
  pub slots : Slots
  pub touched : List ℕ
  pub remaining : ℕ

-- What one slot becomes, the number still to be placed, and whether the slot changed.
abbrev pub SlotStep : Type 0
SlotStep = ℕ → Slot → Slot × ℕ × Bool

module _ (cap : ℕ) (path : String) where
  -- Top up a stack of the item that is below the cap.
  abbrev pub top_up : SlotStep
  top_up remaining none = (none, remaining, false)
  top_up remaining (some e) =
      let put = min remaining (cap - e.count) in
      if str_eq e.item_path path && ltb e.count cap
      then (some (record e { count = saturating_add e.count put }), remaining - put, true)
      else (some e, remaining, false)

  -- Claim an empty slot.
  abbrev pub claim : SlotStep
  claim remaining (some e) = (some e, remaining, false)
  claim remaining none =
      let put = min remaining cap in
      (some (record { item_path = path; count = put }), remaining - put, true)

-- The loop breaks once nothing is left to place.
abbrev pub unless_done : SlotStep → SlotStep
unless_done step remaining s = if remaining == 0 then (s, remaining, false) else step remaining s

unfoldable pub pass_from : SlotStep → ℕ → ℕ → Slots → Pass
pass_from step i remaining [] = record { slots = []; touched = []; remaining = remaining }
pass_from step i remaining (s ∷ ss) =
    let (s', left, hit) = unless_done step remaining s in
    let rest = pass_from step (suc i) left ss in
    record {
      slots = s' ∷ rest.slots;
      touched = if hit then i ∷ rest.touched else rest.touched;
      remaining = rest.remaining;
    }

abbrev pub pass : SlotStep → ℕ → Slots → Pass
pass step = pass_from step 0
