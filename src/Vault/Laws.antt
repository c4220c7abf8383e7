-- ===== src/Vault/Laws.antt =====
-- The vault's deposits, withdrawals and purge.
use project_dawn_server.Inventory.FillLaws.{
  pass_from-MovesIn, pass_from-Keeps, claim-Keeps, claim-MovesIn, top_up-Keeps, top_up-MovesIn,
  tally, pass_from-room,
}
use project_dawn_server.Inventory.Valid.{IsStack}
use project_dawn_server.Inventory.Fill.{pass, unless_done, top_up, claim, pass_from}
use project_dawn_server.Inventory.Entry.{saturating_add, count_in, Slots, Slot}
use project_dawn_server.Vault.{capacity_from, capacity_for, ItemVault, deposit}
use project_dawn_server.Items.{max_stack-u32, max_stack-pos, max_stack, IsRegistry, Registry}
use project_dawn_server.Base.{
  u32_max, min, refl, [], suc, ◌+◌, ◌∷◌, ◌≤◌, arith, ◌-◌, ◌≡◌, u32_mod, str_eq, none, sum_by, some,
  List, All, ◌<◌, String, ℕ, if◌then◌else◌,
}

abbrev pub held_in : String → ItemVault → ℕ
held_in path v = sum_by (count_in path) v.slots

-- What a deposit leaves keeps every stack proper, and what it places and returns is what was given.
abbrev pub Deposits : String → ℕ → ItemVault → (List ℕ × ℕ) × ItemVault → Type 0
Deposits item_path count v ((_, leftover), after) =
    All IsStack after.slots
    × (leftover ≤ count)
    × ((path : String)
        → held_in path after + tally path item_path leftover
          ≡ held_in path v + tally path item_path count)

module _ (items : Registry) (reg : IsRegistry items) where
  -- For a registry whose stack sizes are positive and fit a u32, a deposit of a u32 count into a
  -- vault of proper stacks leaves proper stacks, returns no more than it was given, and of every
  -- item holds and returns as many as was there and given.
  pub deposit-Deposits :
      (item_path : String) (count : ℕ) (v : ItemVault)
      → All IsStack v.slots
      → count < u32_mod
      → Deposits item_path count v (deposit items item_path count v)
  unfolding deposit
  deposit-Deposits item_path count v h low =
      let cap = max_stack items item_path in
      let pos = max_stack-pos items reg item_path in
      let fits = max_stack-u32 items reg item_path in
      let tm = top_up-MovesIn cap item_path pos fits in
      let tk = top_up-Keeps cap item_path pos fits in
      let cm = claim-MovesIn cap item_path pos fits in
      let ck = claim-Keeps cap item_path pos fits in
      let top = pass_from-Keeps (top_up cap item_path) item_path tm tk 0 count v.slots h low in
      let topped = pass (top_up cap item_path) count v.slots in
      let below : topped.remaining < u32_mod = omega (arith, top.1, low) in
      let end =
        pass_from-Keeps (claim cap item_path) item_path cm ck 0 topped.remaining topped.slots top.0
          below in
      (
        end.0,
        omega (arith, top.1, end.1),
        λ path. omega (
          arith,
          pass_from-MovesIn (top_up cap item_path) item_path tm tk path 0 count v.slots h low,
          pass_from-MovesIn (claim cap item_path) item_path cm ck path 0 topped.remaining
              topped.slots top.0 below,
        ),
      )

module _ (cap : ℕ) (path : String) where
  -- The room that each of the two passes finds in a slot.
  abbrev top_room : Slot → ℕ
  top_room none = 0
  top_room (some e) = if str_eq e.item_path path then cap - e.count else 0

  abbrev free_room : Slot → ℕ
  free_room none = cap
  free_room (some e) = 0

  top_up-room : (r : ℕ) (s : Slot) → (top_up cap path r s).1 ≡ r - top_room s
  top_up-room r none = omega arith
  top_up-room r (some e) = ground arith

  claim-room : (r : ℕ) (s : Slot) → (claim cap path r s).1 ≡ r - free_room s
  claim-room r none = ground arith
  claim-room r (some e) = omega arith

  top_up-free : (r : ℕ) (s : Slot) → free_room (unless_done (top_up cap path) r s).0 ≡ free_room s
  top_up-free r none = ground arith
  top_up-free r (some e) = ground arith

  pass_from-free :
      (i r : ℕ) (ss : Slots)
      → sum_by free_room (pass_from (top_up cap path) i r ss).slots ≡ sum_by free_room ss
  unfolding pass_from
  pass_from-free i r [] = refl
  pass_from-free i r (s ∷ ss) =
      omega
        (arith, top_up-free r s, pass_from-free (suc i) (unless_done (top_up cap path) r s).1 ss)

  capacity_from-sum :
      (total : ℕ) (ss : Slots)
      → total < u32_mod
      → capacity_from cap path total ss
        ≡ min (total + sum_by top_room ss + sum_by free_room ss) u32_max
  capacity_from-sum total [] low = ground arith
  capacity_from-sum total (none ∷ ss) low =
      ground (arith, capacity_from-sum (saturating_add total cap) ss)
  capacity_from-sum total (some e ∷ ss) low =
      ground (arith, capacity_from-sum (saturating_add total (top_room (some e))) ss)

-- The number that a deposit of a u32 count of an item returns as not fitting is the count less
-- what capacity_for reports for that item beforehand, and zero where it would be negative.
pub deposit-capacity_for :
    (items : Registry) (item_path : String) (count : ℕ) (v : ItemVault)
    → count < u32_mod
    → (deposit items item_path count v).0.1 ≡ count - capacity_for items item_path v
unfolding deposit capacity_for
deposit-capacity_for items item_path count v low =
    let cap = max_stack items item_path in
    let topped = pass (top_up cap item_path) count v.slots in
    ground (
      arith,
      pass_from-room (top_up cap item_path) (top_room cap item_path) (top_up-room cap item_path) 0
          count v.slots,
      pass_from-room (claim cap item_path) (free_room cap item_path) (claim-room cap item_path) 0
          topped.remaining topped.slots,
      pass_from-free cap item_path 0 count v.slots,
      capacity_from-sum cap item_path 0 v.slots,
    )
