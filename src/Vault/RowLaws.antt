-- ===== src/Vault/RowLaws.antt =====
-- The vault's rows, written out and read back.
use project_dawn_server.Vault.{ItemVault, new_vault}
use project_dawn_server.Vault.Rows.{row_of, put_row, to_rows, rows_from, put_rows, from_rows}
use project_dawn_server.Inventory.Entry.{Slots, Slot, InventoryEntry}
use project_dawn_server.Base.{
  set, sym, refl, ◌∙◌, [], ◌∷◌, arith, suc, set, none, ◌≤◌, replicate, false, ap, ◌≡◌, length, ◌+◌,
  str_eq, All, ◌<◌, some, ℕ,
}

-- A stack that its row can hold: it has a path, and its count is a positive `i32`.
abbrev pub HasRow : Slot → Type 0
HasRow none = Unit {0}
HasRow (some e) = (str_eq e.item_path "" ≡ false) × (0 < e.count) × (e.count < 2147483648)

put_row-row_of :
    (n i : ℕ) (e : InventoryEntry) (xs : Slots)
    → HasRow (some e)
    → i < n
    → i < 2147483648
    → put_row n (row_of i e) xs ≡ set xs i (some e)
put_row-row_of n i e xs h below low = ground (arith, h)

-- Rows from a later index leave the slots before it alone.
put_rows-rows_from :
    (n i : ℕ) (x : Slot) (xs ss : Slots)
    → All HasRow ss
    → i + length ss ≤ n
    → suc n < 2147483648
    → put_rows (suc n) (rows_from (suc i) ss) (x ∷ xs) ≡ x ∷ put_rows n (rows_from i ss) xs
unfolding put_rows rows_from
put_rows-rows_from n i x xs [] h fits low = refl
put_rows-rows_from n i x xs (none ∷ ss) h fits low =
    put_rows-rows_from n (suc i) x xs ss h.1 (omega (arith, fits)) low
put_rows-rows_from n i x xs (some e ∷ ss) h fits low =
    ap (put_rows (suc n) (rows_from (suc (suc i)) ss)) (
      put_row-row_of (suc n) (suc i) e (x ∷ xs) h.0 (omega (arith, fits))
        (omega (arith, fits, low)))
    ∙ put_rows-rows_from n (suc i) x (set xs i (some e)) ss h.1 (omega (arith, fits)) low
    ∙ ap (λ t. x ∷ put_rows n (rows_from (suc i) ss) t)
        (sym (put_row-row_of n i e xs h.0 (omega (arith, fits)) (omega (arith, fits, low))))

rows_round_trip :
    (ss : Slots)
    → All HasRow ss
    → length ss < 2147483648
    → put_rows (length ss) (rows_from 0 ss) (replicate (length ss) none) ≡ ss
unfolding put_rows rows_from
rows_round_trip [] h low = refl
rows_round_trip (none ∷ ss) h low =
    put_rows-rows_from (length ss) 0 none (replicate (length ss) none) ss h.1 (omega arith) low
    ∙ ap (λ t. none ∷ t) (rows_round_trip ss h.1 (omega (arith, low)))
rows_round_trip (some e ∷ ss) h low =
    let rest = replicate (length ss) none in
    ap (put_rows (suc (length ss)) (rows_from 1 ss))
      (put_row-row_of (suc (length ss)) 0 e (none ∷ rest) h.0 (omega arith) (omega arith))
    ∙ put_rows-rows_from (length ss) 0 (some e) rest ss h.1 (omega arith) low
    ∙ ap (λ t. some e ∷ t) (rows_round_trip ss h.1 (omega (arith, low)))

-- A vault whose stacks have a path and a positive count below 2^31, and whose number of slots is
-- below 2^31, is read back from the rows that it writes.
pub from_rows-to_rows :
    (v : ItemVault)
    → All HasRow v.slots
    → length v.slots < 2147483648
    → from_rows (length v.slots) (to_rows v) ≡ v
unfolding from_rows to_rows new_vault
from_rows-to_rows v h low = ap (λ t. record { slots = t }) (rows_round_trip v.slots h low)
