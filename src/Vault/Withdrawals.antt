-- ===== src/Vault/Withdrawals.antt =====
-- Stacks that leave the vault: a withdrawal that is put back, and the purge of NO RENT items.
use project_dawn_server.Inventory.Valid.{slot_at_above, IsStack}
use project_dawn_server.Inventory.Entry.{count_in, slot_at, InventoryEntry, Slot, Slots}
use project_dawn_server.Items.{is_no_rent, Registry}
use project_dawn_server.Vault.{peek, purge_slot, restore, take_all, ItemVault}
use project_dawn_server.Base.{
  get_or-set_ne, get_or-set_self, sym, ◌≢◌, Option-cases, inl, inr, ◌&&◌, leb, ltb, true, length,
  ◌∙◌, subst, All-get_or, length-set, ◌+◌, sum_by, inr, refl, arith, String, true, inl, [], none,
  ap, ◌∷◌, some, ◌≡◌, All, set, List, ℕ, Bool-cases,
}

set-get_or : (ss : Slots) (i : ℕ) → set ss i (slot_at ss i) ≡ ss
set-get_or [] i = refl
set-get_or (s ∷ ss) ℕ.zero = refl
set-get_or (s ∷ ss) (ℕ.suc i) = ap (λ t. s ∷ t) (set-get_or ss i)

set-set : (ss : Slots) (i : ℕ) (a b : Slot) → set (set ss i a) i b ≡ set ss i b
set-set [] i a b = refl
set-set (s ∷ ss) ℕ.zero a b = refl
set-set (s ∷ ss) (ℕ.suc i) a b = ap (λ t. s ∷ t) (set-set ss i a b)

abbrev with_slots : Slots → ItemVault
with_slots ss = record { slots = ss }

-- What was taken and is put back into its slot leaves the vault as it was.
abbrev pub PutsBack : ℕ → ItemVault → Slot × ItemVault → Type 0
PutsBack slot v (none, after) = after ≡ v
PutsBack slot v (some e, after) = restore slot e.item_path e.count after ≡ v

-- What is taken is what stood in the slot, which then is empty; the other slots are as they were, and
-- what was taken can be put back.
pub record Takes (slot : ℕ) (v : ItemVault) (out : Slot × ItemVault) : Type 0 where
  pub seen : out.0 ≡ peek slot v
  pub gone : peek slot out.1 ≡ none
  pub others : (i : ℕ) → i ≢ slot → peek i out.1 ≡ peek i v
  pub back : PutsBack slot v out

take_all-PutsBack :
    (slot : ℕ) (v : ItemVault) → All IsStack v.slots → PutsBack slot v (take_all slot v)
unfolding take_all restore
take_all-PutsBack slot v h = elim (Bool-cases (leb (length v.slots) slot)) [
  | inl out ↦ rw out refl
  | inr low ↦ rw low (elim (Option-cases (slot_at v.slots slot)) [
    | inl free ↦
        rw free
          (ap with_slots (subst (λ t. set v.slots slot t ≡ v.slots) free (set-get_or v.slots slot)))
    | inr (e, there) ↦
        let proper = subst IsStack there (All-get_or IsStack v.slots slot none h tt) in
        let fits : (ltb slot (length (set v.slots slot none)) && ltb 0 e.count) ≡ true =
          ground (arith, low, proper, length-set v.slots slot none) in
        rw (there, fits)
          (ap with_slots (
            set-set v.slots slot none (some e)
            ∙ subst (λ t. set v.slots slot t ≡ v.slots) there (set-get_or v.slots slot)))
  ])
]

-- In a vault of proper stacks, take_all returns what stood in the slot, leaves the slot empty and
-- the others as they were; where it returns nothing it changes nothing, and what it returns
-- otherwise, restored to its slot, gives back the vault.
pub take_all-restore :
    (slot : ℕ) (v : ItemVault) → All IsStack v.slots → Takes slot v (take_all slot v)
unfolding take_all peek
take_all-restore slot v h = elim (Bool-cases (leb (length v.slots) slot)) [
  | inl out ↦
      let above : slot_at v.slots slot ≡ none = slot_at_above v.slots slot (ground (arith, out)) in
      record {
        seen = rw out (sym above);
        gone = rw out above;
        others = λ i ne. rw out refl;
        back = take_all-PutsBack slot v h;
      }
  | inr low ↦ record {
    seen = rw low refl;
    gone = rw low (get_or-set_self v.slots slot none none (ground (arith, low)));
    others = λ i ne. rw low (get_or-set_ne v.slots slot i none none (λ e. ne (sym e)));
    back = take_all-PutsBack slot v h;
  }
]

-- No stack that is left is NO RENT, every stack that went is, and none is lost.
abbrev pub Purges : Registry → ItemVault → List InventoryEntry × ItemVault → Type 0
Purges items v (gone, after) =
    All (λ s. purge_slot items s ≡ s) after.slots
    × All (λ e. is_no_rent items e.item_path ≡ true) gone
    × ((path : String)
        → sum_by (count_in path) after.slots + sum_by (λ e. count_in path (some e)) gone
          ≡ sum_by (count_in path) v.slots)
