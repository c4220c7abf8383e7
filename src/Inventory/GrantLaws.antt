-- ===== src/Inventory/GrantLaws.antt =====
-- The placer loses nothing, and leaves the inventory well formed.
use project_dawn_server.Inventory.Entry.{count_in}
use project_dawn_server.Inventory.Cells.{count_of, InRange}
use project_dawn_server.Inventory.State.{write_cell, cell, PlayerInventory}
use project_dawn_server.Inventory.Valid.{IsStack, IsValid}
use project_dawn_server.Inventory.FillLaws.{tally, Keeps, MovesIn}
use project_dawn_server.Inventory.Grant.{fill_refs, fill_ref, Grant}
use project_dawn_server.Inventory.Fill.{SlotStep}
use project_dawn_server.Items.{Registry}
use project_dawn_server.Base.{
  inr, inl, [], All-map, ◌==◌, ◌∷◌, true, Bool-cases, u32_mod, List, ◌<◌, ◌≤◌, ◌∙◌, String, ℕ, ◌+◌,
  ◌≡◌, arith, refl, All,
}
use project_dawn_server.Inventory.Location.{SlotRefInt}

-- From one stage of the placer to a later one: nothing is lost, no more is left to place, and every
-- slot that was there is there.
pub record Fills (items : Registry) (path : String) (g after : Grant) : Type 0 where
  pub valid : IsValid items after.inv
  pub less : after.remaining ≤ g.remaining
  pub counts :
      (item : String)
      → count_of item after.inv + tally item path after.remaining
        ≡ count_of item g.inv + tally item path g.remaining
  pub there : (s : SlotRefInt) → InRange s g.inv → InRange s after.inv

pub Fills-refl :
    (items : Registry) (path : String) (g : Grant) → IsValid items g.inv → Fills items path g g
Fills-refl items path g valid = record {
  valid = valid;
  less = omega arith;
  counts = λ item. refl;
  there = λ s h. h;
}

pub Fills-trans :
    (items : Registry) (path : String) (a b c : Grant)
    → Fills items path a b
    → Fills items path b c
    → Fills items path a c
Fills-trans items path a b c f h = record {
  valid = h.valid;
  less = omega (arith, f.less, h.less);
  counts = λ item. h.counts item ∙ f.counts item;
  there = λ s r. h.there s (f.there s r);
}

-- What the write of a step's outcome, with what runs after it, must keep.
abbrev pub Syncs :
    Registry → SlotStep → (SlotRefInt → PlayerInventory → PlayerInventory) → SlotRefInt → Type 0
Syncs items step sync r =
    (inv : PlayerInventory) (n : ℕ)
    → IsValid items inv
    → InRange r inv
    → IsStack (step n (cell r inv)).0
    → (step n (cell r inv)).2 ≡ true
    → let after = sync r (write_cell r (step n (cell r inv)).0 inv) in
      IsValid items after
      × ((item : String)
          → count_of item after + count_in item (cell r inv)
            ≡ count_of item inv + count_in item (step n (cell r inv)).0)
      × ((s : SlotRefInt) → InRange s inv → InRange s after)

module _ (items : Registry) (path : String) (step : SlotStep) (moves : MovesIn path step)
    (keeps : Keeps step) (sync : SlotRefInt → PlayerInventory → PlayerInventory) where
  fill_ref-Fills :
      (r : SlotRefInt) (g : Grant)
      → Syncs items step sync r
      → IsValid items g.inv
      → InRange r g.inv
      → g.remaining < u32_mod
      → Fills items path g (fill_ref step sync r g)
  unfolding fill_ref
  fill_ref-Fills r g syncs valid there low = elim (Bool-cases (g.remaining == 0)) [
    | inl done ↦ rw (done, fill_ref) (Fills-refl items path g valid)
    | inr more ↦
        rw (more, fill_ref)
          (elim (Bool-cases (step g.remaining (cell r g.inv)).2) [
            | inr miss ↦ rw miss (Fills-refl items path g valid)
            | inl hit ↦
                let kept =
                  keeps g.remaining (cell r g.inv) (valid.stacks r) (ground (arith, more)) low in
                let done = syncs g.inv g.remaining valid there kept.0 hit in
                rw hit (record {
                  valid = done.0;
                  less = kept.1;
                  counts = λ item. omega (
                    arith,
                    done.1 item,
                    moves item g.remaining (cell r g.inv) (valid.stacks r) low,
                  );
                  there = done.2;
                })
          ])
  ]

  pub fill_refs-Fills :
      (rs : List SlotRefInt) (g : Grant)
      → All (Syncs items step sync) rs
      → IsValid items g.inv
      → All (λ r. InRange r g.inv) rs
      → g.remaining < u32_mod
      → Fills items path g (fill_refs step sync rs g)
  unfolding fill_refs
  fill_refs-Fills [] g syncs valid there low = Fills-refl items path g valid
  fill_refs-Fills (r ∷ rs) g syncs valid there low =
      let first = fill_ref-Fills r g syncs.0 valid there.0 low in
      let next = fill_ref step sync r g in
      Fills-trans items path g next (fill_refs step sync rs next) first (
        fill_refs-Fills rs next syncs.1 first.valid
          (All-map (λ r. InRange r g.inv) (λ r. InRange r next.inv) first.there rs there.1)
          (omega (arith, first.less, low)))
