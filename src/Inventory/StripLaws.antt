-- ===== src/Inventory/StripLaws.antt =====
-- The strip at death and the purge of NO RENT items keep the books.
use project_dawn_server.Inventory.Strip.{
  worn_stacks, emptied, corpse_stacks, clear_all, any_stack, map_contents, all_stacks,
}
use project_dawn_server.Inventory.State.{PlayerInventory}
use project_dawn_server.Inventory.Cells.{count_of, count_contents}
use project_dawn_server.Inventory.Strip.{
  in_contents, in_worn, in_slots, in_bags, in_slot, carried, CorpseStack,
}
use project_dawn_server.Inventory.Entry.{Slots, count_in, Slot, InventoryEntry}
use project_dawn_server.Base.{
  inr, inl, Option-cases, ◌∙◌, sum_below-zero, sum_below-suc, ap, sum_below-none, Map, none,
  sum_below, refl, [], Option, sum_by-append, arith, ◌∷◌, some, ◌+◌, ◌≡◌, sum_by, map, Bool, ◌++◌,
  List, String, ℕ,
}

-- How many of an item some stacks are.
abbrev pub total : String → List InventoryEntry → ℕ
total item es = sum_by (λ (e : InventoryEntry). count_in item (some e)) es

abbrev pub corpse_total : String → List CorpseStack → ℕ
corpse_total item ss = sum_by (λ (s : CorpseStack). count_in item (some s.entry)) ss

pub total-append :
    (item : String) (xs ys : List InventoryEntry)
    → total item (xs ++ ys) ≡ total item xs + total item ys
total-append item xs ys = sum_by-append (λ (e : InventoryEntry). count_in item (some e)) xs ys

pub total-four :
    (item : String) (a b c d : List InventoryEntry)
    → total item (a ++ b ++ c ++ d) ≡ total item a + total item b + total item c + total item d
total-four item a b c d = omega (
  arith,
  total-append item (a ++ b ++ c) d,
  total-append item (a ++ b) c,
  total-append item a b,
  total-append item a (b ++ c ++ d),
  total-append item b (c ++ d),
  total-append item c d,
)

corpse_total-append :
    (item : String) (xs ys : List CorpseStack)
    → corpse_total item (xs ++ ys) ≡ corpse_total item xs + corpse_total item ys
corpse_total-append item xs ys =
    sum_by-append (λ (s : CorpseStack). count_in item (some s.entry)) xs ys

corpse_total-four :
    (item : String) (a b c d : List CorpseStack)
    → corpse_total item (a ++ b ++ c ++ d)
      ≡ corpse_total item a + corpse_total item b + corpse_total item c + corpse_total item d
corpse_total-four item a b c d = omega (
  arith,
  corpse_total-append item (a ++ b ++ c) d,
  corpse_total-append item (a ++ b) c,
  corpse_total-append item a b,
  corpse_total-append item a (b ++ c ++ d),
  corpse_total-append item b (c ++ d),
  corpse_total-append item c d,
)

corpse_total-carried :
    (item : String) (es : List InventoryEntry) → corpse_total item (map carried es) ≡ total item es
corpse_total-carried item [] = refl
corpse_total-carried item (e ∷ es) = omega (arith, corpse_total-carried item es)

-- What a test leaves in a slot, and what it takes.
module _ (item : String) (p : InventoryEntry → Bool) (keep : Slot → Slot)
    (splits : (s : Slot)
      → count_in item (keep s) + total item (in_slot p s) ≡ count_in item s) where
  pub in_slots-splits :
      (ss : Slots)
      → sum_by (count_in item) (map keep ss) + total item (in_slots p ss)
        ≡ sum_by (count_in item) ss
  unfolding in_slots
  in_slots-splits [] = refl
  in_slots-splits (s ∷ ss) =
      omega (arith, splits s, in_slots-splits ss, total-append item (in_slot p s) (in_slots p ss))

  pub in_worn-splits :
      (n : ℕ) (m w : Map InventoryEntry)
      → ((k : ℕ) → w k ≡ keep (m k))
      → sum_below (count_in item) n w + total item (in_worn p n m) ≡ sum_below (count_in item) n m
  unfolding in_worn
  in_worn-splits ℕ.zero m w h =
      omega (arith, sum_below-none (count_in item) m, sum_below-none (count_in item) w)
  in_worn-splits (ℕ.suc n) m w h = omega (
    arith,
    splits (m n),
    ap (count_in item) (h n),
    in_worn-splits n m w h,
    sum_below-suc (count_in item) n m,
    sum_below-suc (count_in item) n w,
    total-append item (in_worn p n m) (in_slot p (m n)),
  )

  contents-splits :
      (c : Option Slots)
      → count_contents item (map_contents keep c) + total item (in_contents p c)
        ≡ count_contents item c
  contents-splits none = refl
  contents-splits (some arr) = in_slots-splits arr

  pub in_bags-splits :
      (n : ℕ) (m w : Map Slots)
      → ((k : ℕ) → w k ≡ map_contents keep (m k))
      → sum_below (count_contents item) n w + total item (in_bags p n m)
        ≡ sum_below (count_contents item) n m
  unfolding in_bags
  in_bags-splits ℕ.zero m w h =
      omega (arith, sum_below-none (count_contents item) m, sum_below-none (count_contents item) w)
  in_bags-splits (ℕ.suc n) m w h = omega (
    arith,
    contents-splits (m n),
    ap (count_contents item) (h n),
    in_bags-splits n m w h,
    sum_below-suc (count_contents item) n m,
    sum_below-suc (count_contents item) n w,
    total-append item (in_bags p n m) (in_contents p (m n)),
  )

-- A map of the slots after which none holds the item leaves none of it.
module _ (item : String) (keep : Slot → Slot) (gone : (s : Slot) → count_in item (keep s) ≡ 0) where
  pub slots-gone : (ss : Slots) → sum_by (count_in item) (map keep ss) ≡ 0
  slots-gone [] = refl
  slots-gone (s ∷ ss) = omega (arith, gone s, slots-gone ss)

  contents-gone : (c : Option Slots) → count_contents item (map_contents keep c) ≡ 0
  contents-gone none = refl
  contents-gone (some arr) = slots-gone arr

  pub mapped-gone :
      (inv after : PlayerInventory)
      → after.base ≡ map keep inv.base
      → ((k : ℕ) → after.equipment k ≡ keep (inv.equipment k))
      → ((k : ℕ) → after.bags k ≡ map_contents keep (inv.bags k))
      → after.cursor ≡ keep inv.cursor
      → count_of item after ≡ 0
  unfolding count_of
  mapped-gone inv after b e g c = omega (
    arith,
    ap (sum_by (count_in item)) b,
    slots-gone inv.base,
    sum_below-zero (count_in item) 256 after.equipment
        (λ k l. ap (count_in item) (e k) ∙ gone (inv.equipment k)),
    sum_below-zero (count_contents item) 256 after.bags
        (λ k l. ap (count_contents item) (g k) ∙ contents-gone (inv.bags k)),
    ap (count_in item) c,
    gone inv.cursor,
  )

emptied-splits :
    (item : String) (s : Slot)
    → count_in item (emptied s) + total item (in_slot any_stack s) ≡ count_in item s
emptied-splits item none = refl
emptied-splits item (some e) = omega arith

abbrev no_bags : Option Slots → Option Slots
no_bags c = map_contents emptied c

pub clear_all-count : (item : String) (inv : PlayerInventory) → count_of item (clear_all inv) ≡ 0
unfolding clear_all count_of
clear_all-count item inv = omega (
  arith,
  slots-gone item emptied (λ s. refl) inv.base,
  sum_below-zero (count_in item) 256 (clear_all inv).equipment (λ k l. refl),
  sum_below-zero (count_contents item) 256 (clear_all inv).bags (λ k l. refl),
)

-- The stacks of the list are those of the slots.
total-all_stacks :
    (item : String) (inv : PlayerInventory) → total item (all_stacks inv) ≡ count_of item inv
unfolding all_stacks count_of
total-all_stacks item inv =
    let split = emptied-splits item in
    let worn = in_worn any_stack 256 inv.equipment in
    let bags = in_bags any_stack 256 inv.bags in
    let hand = in_slot any_stack inv.cursor in
    let base = in_slots any_stack inv.base in
    let parts : total item (all_stacks inv)
        ≡ total item base + total item worn + total item bags + total item hand =
      total-four item base worn bags hand in
    let no_worn : Map InventoryEntry = λ k. emptied (inv.equipment k) in
    let no_contents : Map Slots = λ k. map_contents emptied (inv.bags k) in
    omega (
      arith,
      in_slots-splits item any_stack emptied split inv.base,
      in_worn-splits item any_stack emptied split 256 inv.equipment no_worn (λ k. refl),
      in_bags-splits item any_stack emptied split 256 inv.bags no_contents (λ k. refl),
      split inv.cursor,
      slots-gone item emptied (λ s. refl) inv.base,
      sum_below-zero (count_in item) 256 no_worn (λ k l. refl),
      sum_below-zero (count_contents item) 256 no_contents
          (λ k l. contents-gone item emptied (λ s. refl) (inv.bags k)),
      parts,
    )

worn_stacks-total :
    (item : String) (n : ℕ) (m : Map InventoryEntry)
    → corpse_total item (worn_stacks n m) ≡ total item (in_worn any_stack n m)
unfolding worn_stacks in_worn
worn_stacks-total item ℕ.zero m = refl
worn_stacks-total item (ℕ.suc n) m = elim (Option-cases (m n)) [
  | inl bare ↦ rw bare (
      omega (
        arith,
        corpse_total-append item (worn_stacks n m) [],
        total-append item (in_worn any_stack n m) [],
        worn_stacks-total item n m,
      ))
  | inr (e, there) ↦ rw there (
      omega (
        arith,
        corpse_total-append item (worn_stacks n m) (record { entry = e; worn = some n } ∷ []),
        total-append item (in_worn any_stack n m) (e ∷ []),
        worn_stacks-total item n m,
      ))
]

corpse_stacks-count :
    (item : String) (inv : PlayerInventory)
    → corpse_total item (corpse_stacks inv) ≡ count_of item inv
unfolding corpse_stacks all_stacks
corpse_stacks-count item inv =
    let worn = worn_stacks 256 inv.equipment in
    let base = in_slots any_stack inv.base in
    let bags = in_bags any_stack 256 inv.bags in
    let hand = in_slot any_stack inv.cursor in
    let all : total item (all_stacks inv)
        ≡ total item base
          + total item (in_worn any_stack 256 inv.equipment)
          + total item bags
          + total item hand =
      total-four item base (in_worn any_stack 256 inv.equipment) bags hand in
    let parts : corpse_total item (corpse_stacks inv)
        ≡ corpse_total item worn
          + corpse_total item (map carried base)
          + corpse_total item (map carried bags)
          + corpse_total item (map carried hand) =
      corpse_total-four item worn (map carried base) (map carried bags) (map carried hand) in
    omega (
      arith,
      parts,
      all,
      total-all_stacks item inv,
      worn_stacks-total item 256 inv.equipment,
      corpse_total-carried item base,
      corpse_total-carried item bags,
      corpse_total-carried item hand,
    )

-- Of every item the stacks that go onto the corpse, and the stacks that all_stacks lists, are as
-- many as the inventory holds, and clear_all leaves none of it.
pub corpse_stacks-all_stacks :
    (item : String) (inv : PlayerInventory)
    → (corpse_total item (corpse_stacks inv) ≡ count_of item inv)
      × (total item (all_stacks inv) ≡ count_of item inv)
      × (count_of item (clear_all inv) ≡ 0)
corpse_stacks-all_stacks item inv =
    (corpse_stacks-count item inv, total-all_stacks item inv, clear_all-count item inv)
