-- ===== src/Trading/TakeOut.antt =====
-- Taking the offered stacks out of an inventory, each whole.
use project_dawn_server.Inventory.RemovalLaws.{reduced-all}
use project_dawn_server.Inventory.EquipLaws.{peek_source-ok}
use project_dawn_server.Inventory.Equip.{peek_source, sync_source}
use project_dawn_server.Inventory.Valid.{IsStack, SlotRefInt-discrete, IsValid}
use project_dawn_server.Inventory.Entry.{InventoryEntry}
use project_dawn_server.Inventory.Cells.{cell-write_ne, cell-write_self, InRange}
use project_dawn_server.Inventory.Removal.{nonempty_bag, reduced, destroy_at}
use project_dawn_server.Items.{Registry}
use project_dawn_server.Base.{
  refl, arith, as_u8, ℕ_discrete, subst, ap, Bool-cases, some, ◌⊎◌, ◌∙◌, ok, none, Result-cases,
  ◌≡◌, inl, err, inr, String, ℕ,
}
use project_dawn_server.Inventory.Location.{
  is_held_bag_slot, parse_slot_ref, SlotRefInt, base, bag, cursor,
}
use project_dawn_server.Inventory.State.{
  write_cell, slot_bag_size, peek_at, cell, Move, ensure_bag_init, PlayerInventory, ◌>>=◌,
}

-- Every slot afterwards holds what it held, or nothing.
abbrev pub Empties : PlayerInventory → PlayerInventory → Type 0
Empties inv after = (r : SlotRefInt) → (cell r after ≡ cell r inv) ⊎ (cell r after ≡ none)

sync_source-Empties :
    (items : Registry) (r : SlotRefInt) (inv : PlayerInventory)
    → slot_bag_size items (cell r inv) ≡ none
    → Empties inv (sync_source items r inv)
unfolding ensure_bag_init cell
sync_source-Empties items (base i) inv h (base j) = inl refl
sync_source-Empties items (base i) inv h cursor = inl refl
sync_source-Empties items (base i) inv h (bag k j) = elim (ℕ_discrete (as_u8 i) k) [
  | yes same ↦ inr (ground (arith, same, h))
  | no ne ↦ inl (ground (arith, ne))
]
sync_source-Empties items (bag b i) inv h r = inl refl
sync_source-Empties items cursor inv h r = inl refl

write_none-Empties :
    (r : SlotRefInt) (inv : PlayerInventory) → InRange r inv → Empties inv (write_cell r none inv)
write_none-Empties r inv there s = elim (SlotRefInt-discrete r s) [
  | yes same ↦
      inr
        (subst (λ t. cell t (write_cell r none inv) ≡ none) same (cell-write_self r none inv there))
  | no ne ↦ inl (cell-write_ne r s none inv ne)
]

Empties-trans : (a b c : PlayerInventory) → Empties a b → Empties b c → Empties a c
Empties-trans a b c f g r = elim (g r) [
  | inr gone ↦ inr gone
  | inl same ↦ elim (f r) [ inl was ↦ inl (same ∙ was) | inr gone ↦ inr (same ∙ gone) ]
]

-- A stack destroyed whole is the one that was seen there, and the other slots keep theirs.
abbrev pub Whole : String → ℕ → PlayerInventory → Move (String × ℕ) → Type 0
Whole loc slot inv (err _, after) = Unit {0}
Whole loc slot inv (ok taken, after) = (peek_at loc slot inv ≡ some taken) × Empties inv after

taken_whole :
    (items : Registry) (inv : PlayerInventory) (r : SlotRefInt) (e : InventoryEntry)
    → InRange r inv
    → reduced e e.count ≡ none
    → Empties inv (sync_source items r (write_cell r (reduced e e.count) inv))
taken_whole items inv r e there all = rw all (
    Empties-trans inv (write_cell r none inv) _ (write_none-Empties r inv there) (
      sync_source-Empties items r (write_cell r none inv)
        (ap (slot_bag_size items) (cell-write_self r none inv there))))

pub destroy_at-Whole :
    (items : Registry) (inv : PlayerInventory) (loc : String) (slot : ℕ)
    → IsValid items inv
    → Whole loc slot inv (destroy_at items loc slot 0 inv)
unfolding destroy_at peek_at
destroy_at-Whole items inv loc slot valid = elim (Result-cases (parse_slot_ref loc slot)) [
  | inr (e, refused) ↦ rw (refused, ◌>>=◌) tt
  | inl (r, read) ↦
      rw (read, ◌>>=◌)
        (elim (Bool-cases (is_held_bag_slot r)) [
          | inl held ↦ rw held tt
          | inr free ↦ rw free (elim (Bool-cases (nonempty_bag items r inv)) [
            | inl full ↦ rw full tt
            | inr spare ↦ rw spare (elim (Result-cases (peek_source r inv)) [
              | inr (e, refused) ↦ rw (refused, ◌>>=◌) tt
              | inl (e, found) ↦
                  rw (found, ◌>>=◌)
                    (let there = peek_source-ok items inv r e valid found in
                      let stack = subst IsStack there.1 (valid.stacks r) in
                      (
                        rw (read, there.1, peek_at) refl,
                        taken_whole items inv r e there.0 (reduced-all e stack),
                      ))
            ])
          ])
        ])
]
