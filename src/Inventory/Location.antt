-- ===== src/Inventory/Location.antt =====
-- crates/projectdawn-server/src/world/inventory.rs: the names of inventory locations as the wire
-- and the database spell them, and the typed reference that an operation works on.
use Prim.Native.Char.{code}
use Prim.Native.String.{◌++◌ as str_append}
use project_dawn_server.Base.{
  ℕ, ◌+◌, ◌-◌, ◌*◌, ◌/◌, ◌%◌, ◌<◌, ◌≡◌, refl, Bool, true, false, ◌&&◌, ◌||◌, not, Option, none,
  some, List, [], ◌∷◌, String, str_eq, ltb, leb, ◌==◌, if◌then◌else◌, u32_mod, get_or, Result, ok,
  err, arith,
}
use project_dawn_server.Inventory.Entry.{MoveError, base_slot_out_of_range, unsupported_location}

-- The 8 base slots, the 9 slots of the paperdoll, and the key of a bag that is held.
abbrev pub base_slot_count : ℕ
base_slot_count = 8

abbrev pub equip_slot_count : ℕ
equip_slot_count = 9

abbrev pub cursor_bag_key : ℕ
cursor_bag_key = 255

-- The code points of a text.
abbrev codes : String → List ℕ
codes String.[] = []
codes (String.◌∷◌ c s) = code c ∷ codes s

-- `str::strip_prefix`
strip_prefix : List ℕ → List ℕ → Option (List ℕ)
strip_prefix [] s = some s
strip_prefix (p ∷ ps) [] = none
strip_prefix (p ∷ ps) (c ∷ s) = if p == c then strip_prefix ps s else none

-- `str::parse::<u32>`: an optional `+`, then one digit or more, within the range of a `u32`.
parse_digits : ℕ → List ℕ → Option ℕ
parse_digits acc [] = some acc
parse_digits acc (c ∷ s) =
    let value = acc * 10 + (c - b'0') in
    let rest = parse_digits value s in
    if leb b'0' c && leb c b'9' && ltb value u32_mod then rest else none

unsigned_digits : List ℕ → Option ℕ
unfolding parse_digits
unsigned_digits [] = none
unsigned_digits (c ∷ s) = parse_digits 0 (c ∷ s)

pub parse_u32 : List ℕ → Option ℕ
unfolding unsigned_digits
parse_u32 [] = none
parse_u32 (c ∷ s) = if c == b'+' then unsigned_digits s else unsigned_digits (c ∷ s)

-- The number behind `bag_`, as the trade locks read it.
unfoldable pub bag_key : String → Option ℕ
unfolding strip_prefix parse_u32
bag_key loc = elim (strip_prefix (codes "bag_") (codes loc)) [ none ↦ none | some s ↦ parse_u32 s ]

unfoldable pub parse_bag_location : String → Option ℕ
unfolding bag_key
parse_bag_location loc = elim (bag_key loc) [
  | none ↦ none
  | some idx ↦ if leb base_slot_count idx && not (idx == cursor_bag_key) then none else some idx
]

pub data SlotRefInt : Type 0 where
  base : ℕ → SlotRefInt
  bag : ℕ → ℕ → SlotRefInt
  cursor : SlotRefInt

unfoldable pub parse_slot_ref : String → ℕ → Result MoveError SlotRefInt
unfolding parse_bag_location
parse_slot_ref loc slot =
    if str_eq loc "base"
    then if leb base_slot_count slot then err base_slot_out_of_range else ok (SlotRefInt.base slot)
    else if str_eq loc "cursor"
    then ok SlotRefInt.cursor
    else elim (parse_bag_location loc) [
      | none ↦ err unsupported_location
      | some key ↦ ok (SlotRefInt.bag key slot)
    ]

-- `reject_held_bag_slot`, as the test that it makes.
unfoldable pub is_held_bag_slot : SlotRefInt → Bool
is_held_bag_slot (SlotRefInt.base s) = false
is_held_bag_slot (SlotRefInt.bag b s) = b == cursor_bag_key
is_held_bag_slot SlotRefInt.cursor = false

unfoldable pub digit : ℕ → String
digit n = get_or ("0" ∷ "1" ∷ "2" ∷ "3" ∷ "4" ∷ "5" ∷ "6" ∷ "7" ∷ "8" ∷ "9" ∷ []) n ""

unfoldable pub show_u8 : ℕ → String
unfolding digit
show_u8 n =
    if ltb n 10
    then digit n
    else if ltb n 100
    then str_append (digit (n / 10)) (digit (n % 10))
    else str_append (digit (n / 100)) (str_append (digit (n / 10 % 10)) (digit (n % 10)))

-- `format!("bag_{key}")`
unfoldable pub bag_location : ℕ → String
unfolding show_u8
bag_location key = str_append "bag_" (show_u8 key)

abbrev pub is_bag_key : ℕ → Bool
is_bag_key k = ltb k base_slot_count || k == cursor_bag_key

-- What `bag_location` prints for a number below 256 is read back if it is a base slot or the held
-- bag's key, and refused otherwise.
reads_back : ℕ → Bool
reads_back k = elim (parse_bag_location (bag_location k)) [
  | none ↦ not (is_bag_key k)
  | some j ↦ j == k && is_bag_key k
]

all_below : ℕ → (ℕ → Bool) → Bool
all_below ℕ.zero p = true
all_below (ℕ.suc n) p = p n && all_below n p

all_below-lt : (n : ℕ) (p : ℕ → Bool) (x : ℕ) → all_below n p ≡ true → x < n → p x ≡ true
unfolding all_below
all_below-lt ℕ.zero p x h lt = absurd (omega arith)
all_below-lt (ℕ.suc n) p x h lt = ground (arith, all_below-lt n p x)

reads_back_table : all_below 256 reads_back ≡ true
unfolding all_below reads_back bag_location parse_bag_location
reads_back_table = refl

-- The name that is printed for a bag key below 256 parses back to that key where the key is a
-- base slot or the held bag, and is refused otherwise.
pub parse_bag_location-bag_location :
    (k : ℕ)
    → k < 256
    → parse_bag_location (bag_location k) ≡ (if is_bag_key k then some k else none)
unfolding reads_back
parse_bag_location-bag_location k h =
    ground (arith, all_below-lt 256 reads_back k reads_back_table h)
