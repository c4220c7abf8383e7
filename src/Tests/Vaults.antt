-- ===== src/Tests/Vaults.antt =====
-- The theorems on the vault at a bank with bread, a sword and a charm that is NO RENT.
use project_dawn_server.Inventory.Fill.{pass_from}
use project_dawn_server.Vault.RowLaws.{from_rows-to_rows}
use project_dawn_server.Tests.World.{stock-IsRegistry, stock, stack}
use project_dawn_server.Items.{lookup, max_stack, is_no_rent}
use project_dawn_server.Inventory.Valid.{IsStack}
use project_dawn_server.Vault.Rows.{to_rows, from_rows}
use project_dawn_server.Vault.Withdrawals.{take_all-restore, Takes}
use project_dawn_server.Vault.{capacity_for, take_all, purge_no_rent, deposit, ItemVault}
use project_dawn_server.Vault.Laws.{deposit-capacity_for, deposit-Deposits, Deposits}
use project_dawn_server.Base.{refl, none, [], ◌-◌, ◌≡◌, ◌∷◌, arith, All}

abbrev bank : ItemVault
bank = record { slots = stack "bread" 18 ∷ none ∷ stack "sword" 1 ∷ stack "charm" 1 ∷ [] }

bank_proper : All IsStack bank.slots
bank_proper = ground arith

deposit-Deposits_example : Deposits "bread" 30 bank (deposit stock "bread" 30 bank)
deposit-Deposits_example =
    deposit-Deposits stock stock-IsRegistry "bread" 30 bank bank_proper (omega arith)

deposit-capacity_for_example :
    (deposit stock "bread" 30 bank).0.1 ≡ 30 - capacity_for stock "bread" bank
deposit-capacity_for_example = deposit-capacity_for stock "bread" 30 bank (omega arith)

take_all-restore_example : Takes 2 bank (take_all 2 bank)
take_all-restore_example = take_all-restore 2 bank bank_proper

from_rows-to_rows_example : from_rows 4 (to_rows bank) ≡ bank
from_rows-to_rows_example = from_rows-to_rows bank (ground arith) (omega arith)

-- Two of the thirty top up the stack, twenty fill the empty slot, and eight come back.
leftover : (deposit stock "bread" 30 bank).0 ≡ (0 ∷ 1 ∷ [], 8)
unfolding deposit max_stack lookup pass_from
leftover = refl

purged_charm : (purge_no_rent stock bank).0 ≡ record { item_path = "charm"; count = 1 } ∷ []
unfolding purge_no_rent is_no_rent lookup
purged_charm = refl
