-- ===== src/Trading/Swaps.antt =====
-- One side of a trade: what leaves its owner and what comes, in items and in coins.
use project_dawn_server.Inventory.Location.{parse_slot_ref}
use project_dawn_server.Inventory.Cells.{count_of}
use project_dawn_server.Trading.Terms.{Leaves, Stands, take_out-Leaves, OffHand}
use project_dawn_server.Inventory.Granted.{AddsAll, grant_all, grant_all-AddsAll, stacks_of}
use project_dawn_server.Inventory.Valid.{IsStack, IsValid}
use project_dawn_server.Trade.{Offer}
use project_dawn_server.Trading.{take_out, stacks, resolve, swap_in, offer_changed, changed_from}
use project_dawn_server.Items.{IsRegistry, Registry}
use project_dawn_server.Inventory.State.{cell, Touched, peek_at, PlayerInventory}
use project_dawn_server.Base.{
  subst, refl, eq_iff, inr, arith, none, inl, Result-cases, Bool-cases, All-map, ◌+◌, u32_mod, suc,
  [], Option-cases, true, some, false, All, ◌<◌, ◌∷◌, ◌≡◌, is_empty, Option, String, List, ℕ,
}

-- The offers in a window (`offered_slots`).
unfoldable pub shown : List (Option Offer) → List Offer
shown [] = []
shown (none ∷ offers) = shown offers
shown (some o ∷ offers) = o ∷ shown offers

-- How many of an item some offers name.
abbrev pub offered : String → List Offer → ℕ
offered item gives = stacks_of item (stacks gives)

abbrev pub Holds : PlayerInventory → Offer → Type 0
Holds inv g = peek_at g.location g.slot inv ≡ some (g.item_path, g.count)

offer_changed-Holds :
    (inv : PlayerInventory) (o : Offer) → offer_changed inv o ≡ false → Holds inv o
unfolding offer_changed
offer_changed-Holds inv o h = elim (Option-cases (peek_at o.location o.slot inv)) [
  | inl gone ↦ ground (arith, gone, h)
  | inr ((p, c), there) ↦ ground (arith, there, h, eq_iff p o.item_path)
]

-- Where no offer has changed, what is given is what the window shows.
pub unchanged :
    (i : ℕ) (inv : PlayerInventory) (offers : List (Option Offer))
    → is_empty (changed_from i inv offers) ≡ true
    → (resolve inv offers ≡ some (shown offers)) × All (Holds inv) (shown offers)
unfolding changed_from resolve shown
unchanged i inv [] h = (refl, tt)
unchanged i inv (none ∷ offers) h = unchanged (suc i) inv offers h
unchanged i inv (some o ∷ offers) h = elim (Bool-cases (offer_changed inv o)) [
  | inl differs ↦ absurd (ground (arith, differs, h))
  | inr same ↦
      let rest = unchanged (suc i) inv offers (ground (arith, same, h)) in
      let here = offer_changed-Holds inv o same in (rw (here, rest.0, resolve) refl, (here, rest.1))
]

Holds-u32 :
    (items : Registry) (inv : PlayerInventory) (g : Offer)
    → IsValid items inv
    → Holds inv g
    → g.count < u32_mod
unfolding peek_at
Holds-u32 items inv g valid h = elim (Result-cases (parse_slot_ref g.location g.slot)) [
  | inr (e, refused) ↦ absurd (ground (arith, refused, h))
  | inl (r, read) ↦ elim (Option-cases (cell r inv)) [
    | inl bare ↦ absurd (ground (arith, read, bare, h))
    | inr (e, there) ↦
        let stack = subst IsStack there (valid.stacks r) in ground (arith, read, there, h, stack)
  ]
]

stacks-u32 :
    (items : Registry) (inv : PlayerInventory) (gives : List Offer)
    → IsValid items inv
    → All (Holds inv) gives
    → All (λ (s : String × ℕ). s.1 < u32_mod) (stacks gives)
stacks-u32 items inv [] valid h = tt
stacks-u32 items inv (g ∷ gives) valid h =
    (Holds-u32 items inv g valid h.0, stacks-u32 items inv gives valid h.1)

-- The inventory after a swap that goes through.
abbrev pub Swaps :
    Registry
    → List Offer
    → List Offer
    → PlayerInventory
    → Option (Touched × PlayerInventory)
    → Type 0
Swaps items gives receives inv none = Unit {0}
Swaps items gives receives inv (some (touched, after)) =
    IsValid items after
    × ((item : String)
        → count_of item after + offered item gives ≡ count_of item inv + offered item receives)

-- The offers of the other inventory are there to be received.
pub swap_in-Swaps :
    (items : Registry) (gives receives : List Offer) (inv other : PlayerInventory)
    → IsRegistry items
    → IsValid items inv
    → IsValid items other
    → OffHand gives
    → All (Holds inv) gives
    → All (Holds other) receives
    → Swaps items gives receives inv (swap_in items gives receives inv)
unfolding swap_in
swap_in-Swaps items gives receives inv other reg valid fine off mine theirs =
    let out =
      take_out-Leaves items gives inv valid off
        (All-map (Holds inv) (Stands inv) (λ g h. inl h) gives mine) in
    elim (Option-cases (take_out items gives inv)) [
      | inl stuck ↦ rw (stuck, swap_in) tt
      | inr (left, took) ↦
          let rest = subst (Leaves items gives inv) took out in
          let add =
            grant_all-AddsAll items (stacks receives) left reg
              (stacks-u32 items other receives fine theirs) rest.0 in
          rw (took, swap_in)
            (elim (Option-cases (grant_all items (stacks receives) left)) [
              | inl stuck ↦ rw stuck tt
              | inr ((placed, after), put) ↦
                  let done = subst (AddsAll items (stacks receives) left) put add in
                  rw put (done.0, λ item. omega (arith, done.1 item, rest.1 item))
            ])
    ]
