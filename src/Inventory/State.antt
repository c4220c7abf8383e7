-- ===== src/Inventory/State.antt =====
-- crates/projectdawn-server/src/world/inventory.rs: the record of what a player owns, and the
-- helpers that its operations share.
use project_dawn_server.Base.{
  ℕ, suc, Bool, false, not, ◌&&◌, Option, none, some, List, [], ◌∷◌, ◌++◌, map, String, str_eq,
  ◌==◌, if◌then◌else◌, Map, empty, update, is_some, replicate, any, as_u8, Outcome, ok, err, set,
}
use project_dawn_server.Items.{Registry, bag_num_slots}
use project_dawn_server.Inventory.Entry.{
  InventoryEntry, Slot, Slots, slot_at, merge_capped, is_bag_item, MoveError,
}
use project_dawn_server.Inventory.Location.{
  parse_slot_ref, base_slot_count, bag_location, SlotRefInt,
}

pub record PlayerInventory : Type 0 where
  pub base : Slots
  pub equipment : Map InventoryEntry
  pub bags : Map Slots
  pub cursor : Slot

-- Slots of the inventory that an operation changed.
abbrev pub Touched : Type 0
Touched = List (String × ℕ)

-- What an operation on the inventory leaves.
abbrev pub Move : Type 0 → Type 0
Move A = Outcome PlayerInventory MoveError A

-- A step of an operation: it reads and writes the inventory, and may refuse.
abbrev pub Action : Type 0 → Type 0
Action A = PlayerInventory → Move A

module _ {A : Type 0} where
  abbrev pub pure : A → Action A
  pure a inv = (ok a, inv)

  abbrev pub raise : MoveError → Action A
  raise e inv = (err e, inv)

  abbrev pub require : Option A → MoveError → Action A
  require o e inv = (elim o [ none ↦ err e | some a ↦ ok a ], inv)

  abbrev pub gets : (PlayerInventory → A) → Action A
  gets f inv = (ok (f inv), inv)

abbrev pub refuse_if : Bool → MoveError → Action (Unit {0})
refuse_if b e inv = (if b then err e else ok tt, inv)

abbrev pub modify : (PlayerInventory → PlayerInventory) → Action (Unit {0})
modify f inv = (ok tt, f inv)

infixl 5 ◌>>=◌ ◌>>◌
abbrev pub ◌>>=◌ : {A B : Type 0} → Action A → (A → Action B) → Action B
◌>>=◌ m f inv = let (r, inv') = m inv in elim r [ ok a ↦ f a inv' | err e ↦ raise e inv' ]

abbrev pub ◌>>◌ : {A B : Type 0} → Action A → Action B → Action B
m >> k = m >>= λ _. k

abbrev pub parsed : String → ℕ → Action SlotRefInt
parsed loc slot inv = (parse_slot_ref loc slot, inv)

pub new : PlayerInventory
new = record {
  base = replicate base_slot_count none;
  equipment = empty;
  bags = empty;
  cursor = none;
}

-- The contents under a key once the slot above it is known: the empty bag is allocated, the contents
-- of a bag are kept, and contents with no bag are dropped.
abbrev pub sync_contents : Option ℕ → Option Slots → Option Slots
sync_contents none contents = none
sync_contents (some n) none = some (replicate n none)
sync_contents (some n) (some v) = some v

module _ (items : Registry) where
  -- The number of inner slots of the bag that a slot holds.
  abbrev pub slot_bag_size : Slot → Option ℕ
  slot_bag_size none = none
  slot_bag_size (some e) = bag_num_slots items e.item_path

  unfoldable pub ensure_bag_init : ℕ → PlayerInventory → PlayerInventory
  ensure_bag_init base_idx inv =
      let key = as_u8 base_idx in
      record inv {
        bags =
            update key (sync_contents (slot_bag_size (slot_at inv.base base_idx)) (inv.bags key))
              inv.bags;
      }

unfoldable pub bag_key_is_nonempty : ℕ → PlayerInventory → Bool
bag_key_is_nonempty key inv = elim (inv.bags key) [ none ↦ false | some arr ↦ any is_some arr ]

occupied_from : ℕ → Slots → List ℕ
occupied_from i [] = []
occupied_from i (none ∷ xs) = occupied_from (suc i) xs
occupied_from i (some e ∷ xs) = i ∷ occupied_from (suc i) xs

pub occupied_inner_slots : ℕ → PlayerInventory → List ℕ
unfolding occupied_from
occupied_inner_slots key inv = elim (inv.bags key) [ none ↦ [] | some arr ↦ occupied_from 0 arr ]

-- `set.contains(&i)` or push, for each of the slots occupied now.
union : List ℕ → List ℕ → List ℕ
union seen [] = seen
union seen (i ∷ is) = union (if any (λ j. j == i) seen then seen else seen ++ i ∷ []) is

pub push_inner_union : ℕ → List ℕ → PlayerInventory → Touched → Touched
unfolding union
push_inner_union key pre inv touched =
    touched ++ map (λ i. (bag_location key, i)) (union pre (occupied_inner_slots key inv))

-- The slot that a reference names, and a write to it.
unfoldable pub cell : SlotRefInt → PlayerInventory → Slot
cell (SlotRefInt.base i) inv = slot_at inv.base i
cell (SlotRefInt.bag k i) inv = elim (inv.bags k) [ none ↦ none | some arr ↦ slot_at arr i ]
cell SlotRefInt.cursor inv = inv.cursor

unfoldable pub write_cell : SlotRefInt → Slot → PlayerInventory → PlayerInventory
write_cell (SlotRefInt.base i) v inv = record inv { base = set inv.base i v }
write_cell (SlotRefInt.bag k i) v inv = elim (inv.bags k) [
  | none ↦ inv
  | some arr ↦ record inv { bags = update k (some (set arr i v)) inv.bags }
]
write_cell SlotRefInt.cursor v inv = record inv { cursor = v }

-- The contents kept under a key, replaced.
unfoldable pub put_contents : ℕ → Option Slots → PlayerInventory → PlayerInventory
put_contents k contents inv = record inv { bags = update k contents inv.bags }

-- The match that every move makes on its destination: take over an empty slot, merge into a stack of
-- the same item, or swap. Returns what the destination and the source hold afterwards.
unfoldable pub place_onto : Registry → Slot → InventoryEntry → Slot × Slot
place_onto items none incoming = (some incoming, none)
place_onto items (some existing) incoming =
    if str_eq existing.item_path incoming.item_path
    then (let (merged, leftover) = merge_capped items existing incoming in (some merged, leftover))
    else (some incoming, some existing)

-- The same match where the stacks may be bags, which never merge and whose contents ride along.
pub record Exchange : Type 0 where
  pub dst : Slot
  pub src : Slot
  pub dst_contents : Option Slots
  pub src_contents : Option Slots

unfoldable pub exchange : Registry → Slot → InventoryEntry → Option Slots → Option Slots → Exchange
exchange items none incoming incoming_contents existing_contents = record {
  dst = some incoming;
  src = none;
  dst_contents = incoming_contents;
  src_contents = none;
}
exchange items (some existing) incoming incoming_contents existing_contents =
    if str_eq existing.item_path incoming.item_path && not (is_bag_item items incoming.item_path)
    then (let (merged, leftover) = merge_capped items existing incoming in
        record { dst = some merged; src = leftover; dst_contents = none; src_contents = none })
    else record {
      dst = some incoming;
      src = some existing;
      dst_contents = incoming_contents;
      src_contents = existing_contents;
    }

unfoldable pub peek_at : String → ℕ → PlayerInventory → Option (String × ℕ)
peek_at loc slot inv = elim (parse_slot_ref loc slot) [
  | err e ↦ none
  | ok r ↦ elim (cell r inv) [ none ↦ none | some e ↦ some (e.item_path, e.count) ]
]
