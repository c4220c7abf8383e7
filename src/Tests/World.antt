-- ===== src/Tests/World.antt =====
-- A registry of four items, and a player who owns some of them.
use project_dawn_server.Inventory.Cells.{size_of, host}
use project_dawn_server.Inventory.Valid.{write_cell-IsValid, IsStack, IsValid}
use project_dawn_server.Inventory.State.{write_cell, slot_bag_size, cell, PlayerInventory}
use project_dawn_server.Base.{
  true, All-get_or, ok, ℕ, [], ◌∷◌, some, none, String, str_eq, if◌then◌else◌, refl, ◌≡◌, false,
  insert, empty, arith,
}
use project_dawn_server.Items.{lookup, bag_num_slots, Item, Registry, IsRegistry, ItemType}
use project_dawn_server.Inventory.Entry.{Slot, Slots, slot_at}
use project_dawn_server.Inventory.Location.{parse_slot_ref, SlotRefInt, base, bag, cursor}

abbrev item : String → ItemType → ℕ → ℕ → Item
item path kind stack slots = record {
  path = path;
  item_type = kind;
  stack_size = stack;
  bag_num_slots = slots;
  no_rent = false;
  no_drop = false;
}

abbrev pub stock : Registry
stock p =
    if str_eq p "pouch"
    then some (item p ItemType.bag 1 4)
    else if str_eq p "bread"
    then some (item p ItemType.consumable 20 0)
    else if str_eq p "sword"
    then some (item p ItemType.weapon 1 0)
    else if str_eq p "charm"
    then some (record (item p ItemType.misc 1 0) { no_rent = true })
    else none

pub stock-IsRegistry : IsRegistry stock
stock-IsRegistry = record {
  stack_size_pos = λ p i h. ground arith;
  stack_size_u32 = λ p i h. ground arith;
}

abbrev pub stack : String → ℕ → Slot
stack path n = some (record { item_path = path; count = n })

abbrev loose : Slots
loose = stack "bread" 5 ∷ stack "sword" 1 ∷ none ∷ none ∷ none ∷ none ∷ none ∷ []

abbrev in_pouch : Slots
in_pouch = stack "bread" 2 ∷ none ∷ none ∷ none ∷ []

-- A pouch with bread in it, more bread, and a sword; another sword is worn.
abbrev pub pack : PlayerInventory
pack = record {
  base = stack "pouch" 1 ∷ loose;
  equipment = insert 0 (record { item_path = "sword"; count = 1 }) empty;
  bags = insert 0 in_pouch empty;
  cursor = none;
}

loose-plain : (i : ℕ) → slot_bag_size stock (slot_at loose i) ≡ none
unfolding bag_num_slots lookup
loose-plain i = All-get_or (λ s. slot_bag_size stock s ≡ none) loose i none (ground arith) refl

pack-hosted : (k : ℕ) → slot_bag_size stock (cell (host k) pack) ≡ size_of (pack.bags k)
unfolding cell bag_num_slots lookup
pack-hosted ℕ.zero = refl
pack-hosted (ℕ.suc k) = ground (arith, loose-plain k)

pack-inner : (k i : ℕ) → slot_bag_size stock (cell (bag k i) pack) ≡ none
unfolding cell bag_num_slots lookup
pack-inner ℕ.zero i =
    All-get_or (λ s. slot_bag_size stock s ≡ none) in_pouch i none (ground arith) refl
pack-inner (ℕ.suc k) i = ground arith

pack-stacks : (r : SlotRefInt) → IsStack (cell r pack)
unfolding cell
pack-stacks (base ℕ.zero) = (omega arith, omega arith)
pack-stacks (base (ℕ.suc i)) = All-get_or IsStack loose i none (ground arith) tt
pack-stacks (bag ℕ.zero i) = All-get_or IsStack in_pouch i none (ground arith) tt
pack-stacks (bag (ℕ.suc k) i) = ground arith
pack-stacks cursor = tt

pub pack-IsValid : IsValid stock pack
unfolding cell bag_num_slots lookup
pack-IsValid = record {
  base_len = refl;
  hosted = pack-hosted;
  inner = pack-inner;
  stacks = pack-stacks;
  worn_stacks = λ k. ground arith;
  worn_plain = λ k. ground arith;
  worn_range = λ k h. ground arith;
}

-- The same player with bread in hand.
abbrev pub held : PlayerInventory
held = record pack { cursor = stack "bread" 3 }

pub held-IsValid : IsValid stock held
unfolding write_cell cell bag_num_slots lookup
held-IsValid =
    write_cell-IsValid stock cursor (stack "bread" 3) pack tt pack-IsValid
      (omega arith, omega arith) refl

pub bread_is_plain :
    (r : SlotRefInt) → parse_slot_ref "base" 1 ≡ ok r → slot_bag_size stock (cell r pack) ≡ none
unfolding parse_slot_ref cell bag_num_slots lookup
bread_is_plain r read = ground arith
