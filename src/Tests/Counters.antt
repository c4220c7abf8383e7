-- ===== src/Tests/Counters.antt =====
-- The theorems on the banker at a wallet of ten gold, a pack and empty vaults.
use project_dawn_server.Trade.{new}
use project_dawn_server.Banking.Store.{store_item}
use project_dawn_server.Banking.Stored.{Stores, IsSound, store_item-Stores}
use project_dawn_server.Banking.Withdraw.{withdraw_item}
use project_dawn_server.Banking.Withdrawn.{withdraw_item-Stores}
use project_dawn_server.Tests.World.{stack, stock, pack-IsValid, stock-IsRegistry, pack}
use project_dawn_server.Vault.{ItemVault}
use project_dawn_server.Coins.{
  Purse, CoinAmount, zero_coins, spend, pay_value_of, total_copper, pay_tiers, pay_tier, scatter,
  add_each,
}
use project_dawn_server.Connection.{PerConnection, ledger}
use project_dawn_server.Banking.{
  served, bank_deposit, coin_bank, at_counter, deposit_coins, is_zero,
}
use project_dawn_server.Banking.Counter.{coin_bank-Banks, Banks, grants, is_served}
use project_dawn_server.Base.{◌∷◌, none, refl, true, false, [], arith, ◌≡◌, is_ok, ◌&&◌}

abbrev ten_gold : Purse
ten_gold = record { platinum = 0; gold = 10; silver = 0; copper = 0 }

abbrev five_silver : CoinAmount
five_silver = record { get = record { platinum = 0; gold = 0; silver = 5; copper = 0 } }

abbrev empty_vault : ItemVault
empty_vault = record { slots = none ∷ none ∷ [] }

abbrev saver : PerConnection
saver = record {
  char_id = 1;
  in_world = true;
  death_processed = false;
  inventory = pack;
  coins = ten_gold;
  bank_coins = zero_coins;
  bank_items = empty_vault;
  account_bank_items = empty_vault;
  inventory_dirty = false;
  coins_dirty = false;
  bank_dirty = false;
  bank_items_dirty = false;
  account_bank_items_dirty = false;
  item_events = [];
}

-- Five silver out of ten gold go to the bank, and the wallet keeps nine gold and ninety-five silver.
banked :
    let after = (coin_bank served (bank_deposit five_silver) saver).1 in
    (after.coins ≡ record { platinum = 0; gold = 9; silver = 95; copper = 0 })
    × (after.bank_coins ≡ five_silver.get)
unfolding coin_bank at_counter deposit_coins is_zero ledger add_each pay_value_of spend total_copper
    pay_tiers pay_tier scatter
banked = (refl, refl)

coin_bank-Banks_example :
    (is_ok (coin_bank served (bank_deposit five_silver) saver).0
      ≡ is_served served && grants (bank_deposit five_silver) saver)
    × Banks (bank_deposit five_silver) saver (coin_bank served (bank_deposit five_silver) saver)
coin_bank-Banks_example = coin_bank-Banks served (bank_deposit five_silver) saver (omega arith) tt

saver-IsSound : IsSound stock saver
saver-IsSound = record {
  inventory = pack-IsValid;
  bank_items = (tt, (tt, tt));
  account_bank_items = (tt, (tt, tt));
}

store_item-Stores_example : Stores stock saver (store_item stock new 1 served "base" 1 true saver)
store_item-Stores_example =
    store_item-Stores stock new 1 served "base" 1 true saver stock-IsRegistry saver-IsSound

-- A vault with bread enough to fill what is there and more.
abbrev banker_vault : ItemVault
banker_vault = record { slots = none ∷ stack "bread" 20 ∷ [] }

abbrev hoarder : PerConnection
hoarder = record saver { bank_items = banker_vault }

hoarder-IsSound : IsSound stock hoarder
hoarder-IsSound = record {
  inventory = pack-IsValid;
  bank_items = ground arith;
  account_bank_items = (tt, (tt, tt));
}

withdraw_item-Stores_example : Stores stock hoarder (withdraw_item stock served false 1 hoarder)
withdraw_item-Stores_example =
    withdraw_item-Stores stock served false 1 hoarder stock-IsRegistry hoarder-IsSound
