-- ===== src/Trading/Parking.antt =====
-- A fair world, and the parking of a held stack before it is offered.
use project_dawn_server.Inventory.Entry.{is_bag_item}
use project_dawn_server.Trading.Intents.{put_manager}
use project_dawn_server.Inventory.Moves.{move_cursor_to_base, move_cursor_to_bag}
use project_dawn_server.Trade.{TradeManager}
use project_dawn_server.Trading.Fair.{AllValid, Orderly}
use project_dawn_server.Inventory.Valid.{IsValid}
use project_dawn_server.Trading.{WorldState}
use project_dawn_server.Connection.{PerConnection}
use project_dawn_server.Inventory.Park.{
  first_free_inner, first_free_from, park_in_base, park_in_bag, park_cursor_stack,
}
use project_dawn_server.Items.{Registry}
use Prim.Native.Char.{code}
use Prim.Native.String.{◌++◌ as str_append}
use Prim.Native.String.append
use project_dawn_server.Inventory.State.{cell, Touched, PlayerInventory, Move, ◌>>=◌}
use project_dawn_server.Inventory.Location.{cursor_bag_key, show_u8, bag_location, cursor}
use project_dawn_server.Base.{
  subst, refl, eq_iff, ℕ_discrete, inr, true, none, insert, inl, ap, Bool-cases, false, err, arith,
  Result-cases, ◌≡◌, str_eq, ok, Option-cases, Bool, ◌+◌, some, ◌<◌, String, Option, ℕ,
  if◌then◌else◌,
}

-- The table is in order and every inventory is well formed.
pub record IsFair (items : Registry) (n : ℕ) (w : WorldState) : Type 0 where
  pub table : Orderly n w.trade_manager
  pub valid : AllValid items w

pub managed :
    (items : Registry) (n : ℕ) (w : WorldState) (m : TradeManager)
    → AllValid items w
    → Orderly n m
    → IsFair items n (put_manager w m)
managed items n w m valid table = record { table = table; valid = valid }

pub if-IsFair :
    {items : Registry} {n : ℕ} {v w : WorldState} (b : Bool)
    → IsFair items n v
    → IsFair items n w
    → IsFair items n (if b then v else w)
if-IsFair true f g = f
if-IsFair false f g = g

pub later : (items : Registry) (n : ℕ) (w : WorldState) → IsFair items n w → IsFair items (n + 1) w
later items n w fair = record {
  table = record {
    consistent = fair.table.consistent;
    safe = fair.table.safe;
    numbered = omega (arith, fair.table.numbered);
  };
  valid = fair.valid;
}

pub parked :
    (items : Registry) (cid : ℕ) (c d : PerConnection) (w : WorldState)
    → IsValid items d.inventory
    → AllValid items w
    → AllValid items (record w { connections = insert cid d w.connections })
parked items cid c d w ok_inv valid k e there = elim (ℕ_discrete k cid) [
  | yes same ↦
      let it : d.inventory ≡ e.inventory = ground (arith, same, there) in
      subst (IsValid items) it ok_inv
  | no ne ↦ valid k e (ground (arith, ne, there))
]

-- The place that an offer refers to is not the hand.
abbrev pub Aside : Option (String × ℕ) → Type 0
Aside none = Unit {0}
Aside (some (loc, slot)) = str_eq loc "cursor" ≡ false

-- The number of a text's first character.
first : String → ℕ
first String.[] = 0
first (String.◌∷◌ c s) = code c

first-append : (p t : String) → 0 < first p → first (str_append p t) ≡ first p
unfolding first
first-append String.[] t h = absurd (omega (arith, h))
first-append (String.◌∷◌ c s) t h = ap first (append.cons c s t)

bag_location-aside : (k : ℕ) → str_eq (bag_location k) "cursor" ≡ false
unfolding bag_location first show_u8
bag_location-aside k = elim (Bool-cases (str_eq (bag_location k) "cursor")) [
  | inr differs ↦ differs
  | inl same ↦
      let it : bag_location k ≡ "cursor" = ground (arith, same, eq_iff (bag_location k) "cursor") in
      let start : first (bag_location k) ≡ 98 = first-append "bag_" (show_u8 k) (omega arith) in
      absurd (omega (arith, start, ap first it))
]

abbrev pub ParksAside : Move ((String × ℕ) × Touched) → Type 0
ParksAside (ok (place, touched), after) = Aside (some place)
ParksAside (err e, after) = Unit {0}

module _ (items : Registry) (inv : PlayerInventory) where
  base_aside : (i : ℕ) → ParksAside (park_in_base items i inv)
  unfolding park_in_base
  base_aside i = elim (Result-cases (move_cursor_to_base items i inv).0) [
    | inl (touched, done) ↦ rw (done, ◌>>=◌) refl
    | inr (e, refused_it) ↦ rw (refused_it, ◌>>=◌) tt
  ]

  bag_aside : (b s : ℕ) → ParksAside (park_in_bag items b s inv)
  unfolding park_in_bag
  bag_aside b s = elim (Result-cases (move_cursor_to_bag items b s inv).0) [
    | inl (touched, done) ↦ rw (done, ◌>>=◌) (bag_location-aside b)
    | inr (e, refused_it) ↦ rw (refused_it, ◌>>=◌) tt
  ]

pub park_cursor_stack-aside :
    (items : Registry) (inv : PlayerInventory) → ParksAside (park_cursor_stack items inv)
unfolding park_cursor_stack
park_cursor_stack-aside items inv = elim (Option-cases (cell cursor inv)) [
  | inl free ↦ rw (free, park_cursor_stack) tt
  | inr (held, there) ↦
      rw (there, park_cursor_stack)
        (elim (Option-cases (first_free_from 0 inv.base)) [
          | inr (i, spot) ↦ rw spot (base_aside items inv i)
          | inl full ↦ rw full (elim (Bool-cases (is_bag_item items held.item_path)) [
            | inl bag_held ↦ rw bag_held tt
            | inr plain ↦ rw plain (elim (Option-cases (first_free_inner 0 cursor_bag_key inv)) [
              | inl none_free ↦ rw none_free tt
              | inr ((b, s), spot) ↦ rw spot (bag_aside items inv b s)
            ])
          ])
        ])
]
