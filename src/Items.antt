-- ===== src/Items.antt =====
-- crates/projectdawn-server/src/world/items.rs: the item registry and what the inventory asks of it.
-- The registry's contents come from data/items.toml and enter as a parameter; of an item's fields
-- the ones that the modelled code reads are here.
use project_dawn_server.Base.{
  ℕ, ◌<◌, ◌≡◌, Bool, true, false, ◌&&◌, ◌||◌, Option, none, some, String, str_eq, ltb, ◌==◌,
  if◌then◌else◌, u32_max, u32_mod, arith,
}

pub data ItemType : Type 0 where
  weapon offhand head chest legs feet hands ring neck consumable misc augment bag : ItemType

pub record Item : Type 0 where
  pub path : String
  pub item_type : ItemType
  pub stack_size : ℕ
  pub bag_num_slots : ℕ
  pub no_rent : Bool
  pub no_drop : Bool

-- `items()`, the map from a path to its item.
abbrev pub Registry : Type 0
Registry = String → Option Item

-- What the data file keeps: every field fits its `u32`, and a stack holds at least one item.
pub record IsRegistry (items : Registry) : Type 0 where
  pub stack_size_pos : (p : String) (i : Item) → items p ≡ some i → 0 < i.stack_size
  pub stack_size_u32 : (p : String) (i : Item) → items p ≡ some i → i.stack_size < u32_mod

module _ (items : Registry) where
  unfoldable pub lookup : String → Option Item
  lookup path = if str_eq path "" then none else items path

  unfoldable pub is_no_drop : String → Bool
  unfolding lookup
  is_no_drop path = elim (lookup path) [ none ↦ false | some i ↦ i.no_drop ]

  unfoldable pub is_no_rent : String → Bool
  unfolding lookup
  is_no_rent path = elim (lookup path) [ none ↦ false | some i ↦ i.no_rent ]

  unfoldable pub max_stack : String → ℕ
  unfolding lookup
  max_stack path = elim (lookup path) [ none ↦ u32_max | some i ↦ i.stack_size ]

-- The table of `is_equippable_in_slot`.
unfoldable pub type_fits_slot : ItemType → ℕ → Bool
type_fits_slot ItemType.weapon slot = slot == 0 || slot == 1
type_fits_slot ItemType.offhand slot = slot == 1
type_fits_slot ItemType.head slot = slot == 2
type_fits_slot ItemType.chest slot = slot == 3
type_fits_slot ItemType.legs slot = slot == 4
type_fits_slot ItemType.feet slot = slot == 5
type_fits_slot ItemType.hands slot = slot == 6
type_fits_slot ItemType.ring slot = slot == 7
type_fits_slot ItemType.neck slot = slot == 8
type_fits_slot ItemType.consumable slot = false
type_fits_slot ItemType.misc slot = false
type_fits_slot ItemType.augment slot = false
type_fits_slot ItemType.bag slot = false

abbrev is_bag_type : ItemType → Bool
is_bag_type ItemType.bag = true
is_bag_type _ = false

module _ (items : Registry) where
  unfoldable pub is_equippable_in_slot : String → ℕ → Bool
  unfolding lookup type_fits_slot
  is_equippable_in_slot path slot = elim (lookup items path) [
    | none ↦ false
    | some i ↦ type_fits_slot i.item_type slot
  ]

  unfoldable pub bag_num_slots : String → Option ℕ
  unfolding lookup
  bag_num_slots path = elim (lookup items path) [
    | none ↦ none
    | some i ↦
        if is_bag_type i.item_type && ltb 0 i.bag_num_slots then some i.bag_num_slots else none
  ]

  -- What can be worn is no bag.
  pub bag_num_slots-equippable :
      (path : String) (slot : ℕ)
      → is_equippable_in_slot path slot ≡ true
      → bag_num_slots path ≡ none
  unfolding is_equippable_in_slot bag_num_slots
  bag_num_slots-equippable path slot h = ground arith

  pub max_stack-u32 : IsRegistry items → (path : String) → max_stack items path < u32_mod
  unfolding max_stack
  max_stack-u32 r path = grind (arith, r.stack_size_u32)

  pub max_stack-pos : IsRegistry items → (path : String) → 0 < max_stack items path
  unfolding max_stack
  max_stack-pos r path = grind (arith, r.stack_size_pos)
