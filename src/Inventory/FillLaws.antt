-- ===== src/Inventory/FillLaws.antt =====
-- What the two passes keep: nothing is lost, what is placed is exactly what there is room for, and
-- stacks stay proper.
use project_dawn_server.Inventory.Valid.{IsStack}
use project_dawn_server.Inventory.Entry.{count_in, Slots, Slot}
use project_dawn_server.Inventory.Fill.{top_up, claim, unless_done, pass_from, SlotStep}
use project_dawn_server.Base.{
  [], suc, refl, ◌∷◌, none, inr, eq_refl, eq_iff, some, inl, arith, ◌+◌, ◌≤◌, sum_by, ◌==◌, ◌-◌,
  ◌≡◌, u32_mod, str_eq, Bool-cases, All, if◌then◌else◌, ◌<◌, String, ℕ,
}

-- How many of an item a number of another item is: the number itself, or none.
abbrev pub tally : String → String → ℕ → ℕ
tally path taken n = if str_eq taken path then n else 0

-- A step that moves items of one kind from the number still to be placed into the slot.
abbrev pub MovesIn : String → SlotStep → Type 0
MovesIn path step =
    (item : String) (r : ℕ) (s : Slot)
    → IsStack s
    → r < u32_mod
    → count_in item (step r s).0 + tally item path (step r s).1
      ≡ count_in item s + tally item path r

abbrev pub Keeps : SlotStep → Type 0
Keeps step =
    (r : ℕ) (s : Slot) → IsStack s → 0 < r → r < u32_mod → IsStack (step r s).0 × ((step r s).1 ≤ r)

module _ (step : SlotStep) (path : String) (moves : MovesIn path step) (keeps : Keeps step) where
  pub unless_done-keeps :
      (r : ℕ) (s : Slot)
      → IsStack s
      → r < u32_mod
      → IsStack (unless_done step r s).0 × ((unless_done step r s).1 ≤ r)
  unless_done-keeps r s p low = elim (Bool-cases (r == 0)) [
    | inl done ↦ rw done (p, omega arith)
    | inr more ↦ rw more (keeps r s p (ground (arith, more)) low)
  ]

  pub unless_done-moves : MovesIn path (unless_done step)
  unless_done-moves item r s p low = elim (Bool-cases (r == 0)) [
    | inl done ↦ rw done refl
    | inr more ↦ rw more (moves item r s p low)
  ]

  -- A pass keeps every stack proper, leaves no more than it was given, and loses nothing.
  pub pass_from-Keeps :
      (i r : ℕ) (ss : Slots)
      → All IsStack ss
      → r < u32_mod
      → All IsStack (pass_from step i r ss).slots × ((pass_from step i r ss).remaining ≤ r)
  unfolding pass_from
  pass_from-Keeps i r [] h low = (tt, omega arith)
  pass_from-Keeps i r (s ∷ ss) h low =
      let now = unless_done-keeps r s h.0 low in
      let later = pass_from-Keeps (suc i) (unless_done step r s).1 ss h.1 (omega (arith, now.1)) in
      ((now.0, later.0), omega (arith, now.1, later.1))

  pub pass_from-MovesIn :
      (item : String) (i r : ℕ) (ss : Slots)
      → All IsStack ss
      → r < u32_mod
      → sum_by (count_in item) (pass_from step i r ss).slots
          + tally item path (pass_from step i r ss).remaining
        ≡ sum_by (count_in item) ss + tally item path r
  unfolding pass_from
  pass_from-MovesIn item i r [] h low = refl
  pass_from-MovesIn item i r (s ∷ ss) h low =
      let now = unless_done-keeps r s h.0 low in
      omega (
        arith,
        unless_done-moves item r s h.0 low,
        pass_from-MovesIn item (suc i) (unless_done step r s).1 ss h.1 (omega (arith, now.1)),
      )

-- A pass whose step takes `room s` at a slot takes the sum of them.
pub pass_from-room :
    (step : SlotStep) (room : Slot → ℕ)
    → ((r : ℕ) (s : Slot) → (step r s).1 ≡ r - room s)
    → (i r : ℕ) (ss : Slots) → (pass_from step i r ss).remaining ≡ r - sum_by room ss
unfolding pass_from
pass_from-room step room takes i r [] = omega arith
pass_from-room step room takes i r (s ∷ ss) = elim (Bool-cases (r == 0)) [
  | inl done ↦ ground (arith, done, pass_from-room step room takes (suc i) r ss)
  | inr more ↦
      ground (arith, more, takes r s, pass_from-room step room takes (suc i) (step r s).1 ss)
]

module _ (cap : ℕ) (path : String) (pos : 0 < cap) (fits : cap < u32_mod) where
  pub top_up-MovesIn : MovesIn path (top_up cap path)
  top_up-MovesIn item r none p low = refl
  top_up-MovesIn item r (some e) p low = ground (arith, eq_iff e.item_path path, fits)

  pub top_up-Keeps : Keeps (top_up cap path)
  top_up-Keeps r none p more low = (tt, omega arith)
  top_up-Keeps r (some e) p more low = ground (arith, fits)

  pub claim-MovesIn : MovesIn path (claim cap path)
  claim-MovesIn item r none p low = ground (arith, eq_refl path)
  claim-MovesIn item r (some e) p low = refl

  pub claim-Keeps : Keeps (claim cap path)
  claim-Keeps r none p more low = ground (arith, pos, fits)
  claim-Keeps r (some e) p more low = (p, omega arith)
