-- ===== src/Inventory/Granted.antt =====
-- What a grant of a new item adds, and what a row of grants that fits adds.
use project_dawn_server.Inventory.Placing.{place_new-Fills}
use project_dawn_server.Inventory.Cells.{count_of}
use project_dawn_server.Inventory.FillLaws.{tally}
use project_dawn_server.Inventory.Valid.{IsValid}
use project_dawn_server.Inventory.State.{Touched, Move, PlayerInventory}
use project_dawn_server.Inventory.Grant.{can_accept, add_item_locating}
use project_dawn_server.Items.{IsRegistry, Registry}
use project_dawn_server.Base.{
  ap, ◌∙◌, false, Bool, true, subst, str_eq, Option-cases, inr, inl, ◌++◌, ◌≤◌, Bool-cases, ◌==◌,
  u32_mod, ok, none, [], ◌∷◌, some, err, ◌<◌, All, sum_by, is_some, Option, List, String, ℕ,
  if◌then◌else◌, ◌+◌, ◌≡◌, arith, refl,
}

-- A grant that is refused changes nothing. Otherwise what is not left over is added, and nothing else.
abbrev pub Grants : Registry → String → ℕ → PlayerInventory → Move (Touched × ℕ) → Type 0
Grants items path count inv (err e, after) = after ≡ inv
Grants items path count inv (ok (touched, left), after) =
    IsValid items after
    × (left ≤ count)
    × ((item : String)
        → count_of item after + tally item path left ≡ count_of item inv + tally item path count)

-- From a well-formed inventory and a registry whose stack sizes are positive and fit a u32, a
-- grant of a u32 count either is refused and changes nothing, or leaves a well-formed inventory,
-- returns no more than it was given, and of every item holds and returns as many as was there and
-- given.
pub add_item_locating-Grants :
    (items : Registry) (path : String) (count : ℕ) (inv : PlayerInventory)
    → IsRegistry items
    → IsValid items inv
    → count < u32_mod
    → Grants items path count inv (add_item_locating items path count inv)
unfolding add_item_locating
add_item_locating-Grants items path count inv reg valid low = elim (Bool-cases (count == 0)) [
  | inl zero_of ↦ rw zero_of refl
  | inr more ↦ rw more (elim (Bool-cases (str_eq path "")) [
    | inl nameless ↦ rw nameless refl
    | inr named ↦
        let f = place_new-Fills items reg path count inv valid low in
        rw named (f.valid, f.less, f.counts)
  ])
]

-- The stacks put in one after another, as the commit of a trade puts in what a side receives; one
-- that does not fit whole stops the row.
unfoldable pub grant_all :
    Registry → List (String × ℕ) → PlayerInventory → Option (Touched × PlayerInventory)
grant_all items [] inv = some ([], inv)
grant_all items ((path, count) ∷ grants) inv =
    let (r, after) = add_item_locating items path count inv in
    elim r [
      | err e ↦ none
      | ok (touched, left) ↦
          if left == 0
          then elim (grant_all items grants after) [
            | none ↦ none
            | some (more, last) ↦ some (touched ++ more, last)
          ]
          else none
    ]

abbrev pub stacks_of : String → List (String × ℕ) → ℕ
stacks_of item grants = sum_by (λ g. tally item g.0 g.1) grants

abbrev pub AddsAll :
    Registry → List (String × ℕ) → PlayerInventory → Option (Touched × PlayerInventory) → Type 0
AddsAll items grants inv none = Unit {0}
AddsAll items grants inv (some (touched, after)) =
    IsValid items after
    × ((item : String) → count_of item after ≡ count_of item inv + stacks_of item grants)

AddsAll-step :
    (items : Registry) (path : String) (count : ℕ) (grants : List (String × ℕ))
    (inv : PlayerInventory) (m : Move (Touched × ℕ))
    → Grants items path count inv m
    → ((after : PlayerInventory)
        → IsValid items after
        → AddsAll items grants after (grant_all items grants after))
    → AddsAll items ((path, count) ∷ grants) inv (elim m.0 [
      | err e ↦ none
      | ok (touched, left) ↦
          if left == 0
          then elim (grant_all items grants m.1) [
            | none ↦ none
            | some (more, last) ↦ some (touched ++ more, last)
          ]
          else none
    ])
AddsAll-step items path count grants inv (err e, after) g rest = tt
AddsAll-step items path count grants inv (ok (touched, left), after) g rest =
    elim (Bool-cases (left == 0)) [
      | inr over ↦ rw over tt
      | inl whole ↦ rw whole (elim (Option-cases (grant_all items grants after)) [
        | inl stuck ↦ rw stuck tt
        | inr ((more, last), done) ↦
            let r = subst (AddsAll items grants after) done (rest after g.0) in
            rw done (r.0, λ item. ground (arith, whole, g.2 item, r.1 item))
      ])
    ]

-- From a well-formed inventory and a registry whose stack sizes are positive and fit a u32, a row
-- of grants of u32 counts of which each is placed whole, one after another, leaves a well-formed
-- inventory that holds of every item what was there and what the grants name.
pub grant_all-AddsAll :
    (items : Registry) (grants : List (String × ℕ)) (inv : PlayerInventory)
    → IsRegistry items
    → All (λ (g : String × ℕ). g.1 < u32_mod) grants
    → IsValid items inv
    → AddsAll items grants inv (grant_all items grants inv)
unfolding grant_all
grant_all-AddsAll items [] inv reg small valid = (valid, λ item. omega arith)
grant_all-AddsAll items ((path, count) ∷ grants) inv reg small valid =
    AddsAll-step items path count grants inv (add_item_locating items path count inv)
      (add_item_locating-Grants items path count inv reg valid small.0)
      (λ after v. grant_all-AddsAll items grants after reg small.1 v)

can_accept-grant_all :
    (items : Registry) (grants : List (String × ℕ)) (inv : PlayerInventory)
    → can_accept items grants inv ≡ is_some (grant_all items grants inv)
unfolding can_accept grant_all
can_accept-grant_all items [] inv = refl
can_accept-grant_all items ((path, count) ∷ grants) inv =
    ground (arith, can_accept-grant_all items grants (add_item_locating items path count inv).1)

-- After a yes the grants are made whole, and leave a well-formed inventory with what was there and
-- what the grants name; after a no they are not.
abbrev pub Admits : Registry → List (String × ℕ) → PlayerInventory → Bool → Type 0
Admits items grants inv true =
    (touched : Touched) × (after : PlayerInventory) × (grant_all items grants inv
      ≡ some (touched, after))
    × IsValid items after
    × ((item : String) → count_of item after ≡ count_of item inv + stacks_of item grants)
Admits items grants inv false = grant_all items grants inv ≡ none

-- From a well-formed inventory, a registry whose stack sizes are positive and fit a u32, and
-- grants of u32 counts, where can_accept says yes the grants made in turn are each placed whole,
-- and leave a well-formed inventory that holds of every item what was there and what the grants
-- name; where it says no they are not all placed whole.
pub can_accept-Admits :
    (items : Registry) (grants : List (String × ℕ)) (inv : PlayerInventory)
    → IsRegistry items
    → All (λ (g : String × ℕ). g.1 < u32_mod) grants
    → IsValid items inv
    → Admits items grants inv (can_accept items grants inv)
can_accept-Admits items grants inv reg small valid =
    let adds = grant_all-AddsAll items grants inv reg small valid in
    let said = can_accept-grant_all items grants inv in
    elim (Option-cases (grant_all items grants inv)) [
      | inl stuck ↦
          let no_room : can_accept items grants inv ≡ false = said ∙ ap is_some stuck in
          rw no_room stuck
      | inr ((touched, after), done) ↦
          let room : can_accept items grants inv ≡ true = said ∙ ap is_some done in
          let a = subst (AddsAll items grants inv) done adds in
          rw room (touched, after, done, a.0, a.1)
    ]
