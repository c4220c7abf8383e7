-- ===== src/Trading/Terms.antt =====
-- What one side gives is what its window showed, and taking it out takes as many of each item.
use project_dawn_server.Inventory.Granted.{stacks_of}
use project_dawn_server.Inventory.Removal.{destroy_at}
use project_dawn_server.Inventory.Cells.{count_of}
use project_dawn_server.Inventory.RemovalLaws.{destroy_at-Removes, Removes}
use project_dawn_server.Inventory.Valid.{IsValid}
use project_dawn_server.Trading.TakeOut.{destroy_at-Whole, Whole, Empties}
use project_dawn_server.Trade.{Offer}
use project_dawn_server.Trading.{stacks, take_out}
use project_dawn_server.Inventory.Location.{cursor, parse_slot_ref}
use project_dawn_server.Items.{Registry}
use project_dawn_server.Inventory.State.{Move, peek_at, PlayerInventory}
use project_dawn_server.Base.{
  [], All-map, subst, refl, Option-cases, ok, none, inl, err, ◌+◌, ◌∷◌, ◌⊎◌, ◌≢◌, inr, some, false,
  arith, Result-cases, ◌≡◌, str_eq, Option, All, String, List, ℕ,
}

-- No offer is of the stack in the hand: the handler of offers parks a held stack first.
abbrev pub OffHand : List Offer → Type 0
OffHand gives = All (λ (g : Offer). str_eq g.location "cursor" ≡ false) gives

-- At each place stands what is given, or nothing any more.
abbrev pub Stands : PlayerInventory → Offer → Type 0
Stands inv g =
    (peek_at g.location g.slot inv ≡ some (g.item_path, g.count))
    ⊎ (peek_at g.location g.slot inv ≡ none)

not_cursor :
    (loc : String) (slot : ℕ) → str_eq loc "cursor" ≡ false → parse_slot_ref loc slot ≢ ok cursor
unfolding parse_slot_ref
not_cursor loc slot h e = ground (arith, h, e)

peek_at-Empties :
    (inv after : PlayerInventory) (g : Offer) → Empties inv after → Stands inv g → Stands after g
unfolding peek_at
peek_at-Empties inv after g f stands = elim (Result-cases (parse_slot_ref g.location g.slot)) [
  | inr (e, refused) ↦ inr (rw (refused, peek_at) refl)
  | inl (r, read) ↦ elim (f r) [
    | inl same ↦ ground (arith, same, read, stands)
    | inr gone ↦ inr (rw (read, gone, peek_at) refl)
  ]
]

-- What is left once the stacks are out.
abbrev pub Leaves : Registry → List Offer → PlayerInventory → Option PlayerInventory → Type 0
Leaves items gives inv none = Unit {0}
Leaves items gives inv (some left) =
    IsValid items left
    × ((item : String) → count_of item left + stacks_of item (stacks gives) ≡ count_of item inv)

take_step :
    (items : Registry) (g : Offer) (gives : List Offer) (inv : PlayerInventory)
    (m : Move (String × ℕ))
    → Stands inv g
    → Whole g.location g.slot inv m
    → Removes items inv m
    → (IsValid items m.1 → Empties inv m.1 → Leaves items gives m.1 (take_out items gives m.1))
    → Leaves items (g ∷ gives) inv (elim m.0 [ err e ↦ none | ok taken ↦ take_out items gives m.1 ])
take_step items g gives inv (err e, after) stands whole removes rest = tt
take_step items g gives inv (ok (path, n), after) stands whole removes rest =
    let next = rest removes.0 whole.1 in
    elim (Option-cases (take_out items gives after)) [
      | inl stuck ↦ rw stuck tt
      | inr (left, out) ↦
          let last = subst (Leaves items gives after) out next in
          rw out (last.0, λ item. ground (arith, last.1 item, removes.2 item, whole.0, stands))
    ]

pub take_out-Leaves :
    (items : Registry) (gives : List Offer) (inv : PlayerInventory)
    → IsValid items inv
    → OffHand gives
    → All (Stands inv) gives
    → Leaves items gives inv (take_out items gives inv)
unfolding take_out
take_out-Leaves items [] inv valid off stands = (valid, λ item. omega arith)
take_out-Leaves items (g ∷ gives) inv valid off stands =
    let m = destroy_at items g.location g.slot 0 inv in
    take_step items g gives inv m stands.0 (destroy_at-Whole items inv g.location g.slot valid)
      (destroy_at-Removes items inv valid g.location g.slot
        (λ e. absurd (not_cursor g.location g.slot off.0 e)) 0)
      (λ v f.
        take_out-Leaves items gives m.1 v off.1
          (All-map (Stands inv) (Stands m.1) (λ o. peek_at-Empties inv m.1 o f) gives stands.1))
