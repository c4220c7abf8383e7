-- ===== src/Vault/Rows.antt =====
-- crates/projectdawn-server/src/world/inventory.rs: the vault's rows in the database.
use project_dawn_server.Vault.{new_vault, ItemVault}
use project_dawn_server.Inventory.Entry.{Slots, InventoryEntry}
use project_dawn_server.Base.{
  set, ltb, str_eq, ◌==◌, ◌||◌, is_negative, if◌then◌else◌, none, some, suc, [], ◌∷◌, as_usize,
  as_i32, String, ℤ, List, ℕ,
}

-- `BankItemRow`, whose two numbers are `i32`.
pub record BankItemRow : Type 0 where
  pub slot : ℤ
  pub item_path : String
  pub count : ℤ

-- One row written into the slots; a row with no item and a row out of range are dropped.
abbrev pub put_row : ℕ → BankItemRow → Slots → Slots
put_row n row slots =
    let s = as_usize row.slot in
    let count = as_usize row.count in
    if is_negative row.count || count == 0 || str_eq row.item_path ""
    then slots
    else if ltb s n
    then set slots s (some (record { item_path = row.item_path; count = count }))
    else slots

unfoldable pub put_rows : ℕ → List BankItemRow → Slots → Slots
put_rows n [] slots = slots
put_rows n (row ∷ rows) slots = put_rows n rows (put_row n row slots)

unfoldable pub from_rows : ℕ → List BankItemRow → ItemVault
from_rows n rows = record { slots = put_rows n rows (new_vault n).slots }

abbrev pub row_of : ℕ → InventoryEntry → BankItemRow
row_of i e = record { slot = as_i32 i; item_path = e.item_path; count = as_i32 e.count }

-- The filled slots from index `i` on, as rows.
unfoldable pub rows_from : ℕ → Slots → List BankItemRow
rows_from i [] = []
rows_from i (none ∷ ss) = rows_from (suc i) ss
rows_from i (some e ∷ ss) = row_of i e ∷ rows_from (suc i) ss

unfoldable pub to_rows : ItemVault → List BankItemRow
to_rows v = rows_from 0 v.slots
