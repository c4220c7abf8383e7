-- ===== src/Ledger.antt =====
-- crates/projectdawn-server/src/world/ledger.rs and the row in db/mod.rs: what is written down of each
-- movement of items or coin. The stamp of the clock is left out.
use project_dawn_server.Inventory.Location.{digit}
use Prim.Native.String.{◌++◌ as str_append}
use project_dawn_server.Base.{◌%◌, ltb, ◌/◌, if◌then◌else◌, pos, some, none, Option, ℤ, String, ℕ}

pub data ItemAction : Type 0 where
  loot_item pickup_item loot_coins corpse_loot corpse_coins drop_item destroy_item eat_item use_item
        trade_out trade_in trade_coins buy_item sell_item bank_in bank_out bank_coin_in
        bank_coin_out bank_exchange quest_reward summon_item gm_give gm_coins death_item death_coins
        no_rent starter_item :
      ItemAction

unfoldable pub as_str : ItemAction → String
as_str loot_item = "loot"
as_str pickup_item = "pickup"
as_str loot_coins = "loot_coins"
as_str corpse_loot = "corpse_loot"
as_str corpse_coins = "corpse_coins"
as_str drop_item = "drop"
as_str destroy_item = "destroy"
as_str eat_item = "eat"
as_str use_item = "use"
as_str trade_out = "trade_out"
as_str trade_in = "trade_in"
as_str trade_coins = "trade_coins"
as_str buy_item = "buy"
as_str sell_item = "sell"
as_str bank_in = "bank_in"
as_str bank_out = "bank_out"
as_str bank_coin_in = "bank_coin_in"
as_str bank_coin_out = "bank_coin_out"
as_str bank_exchange = "bank_exchange"
as_str quest_reward = "quest_reward"
as_str summon_item = "summon"
as_str gm_give = "gm_give"
as_str gm_coins = "gm_coins"
as_str death_item = "death"
as_str death_coins = "death_coins"
as_str no_rent = "no_rent"
as_str starter_item = "starter"

pub record ItemEventRow : Type 0 where
  pub char_id : ℕ
  pub action : String
  pub item_path : Option String
  pub count : ℕ
  pub delta : ℤ
  pub copper : ℤ
  pub detail : Option String

unfoldable pub item_event : ItemAction → String → ℕ → ℤ → Option String → ItemEventRow
item_event action item_path count delta detail = record {
  char_id = 0;
  action = as_str action;
  item_path = some item_path;
  count = count;
  delta = delta;
  copper = pos 0;
  detail = detail;
}

unfoldable pub coin_event : ItemAction → ℤ → Option String → ItemEventRow
coin_event action copper detail = record {
  char_id = 0;
  action = as_str action;
  item_path = none;
  count = 0;
  delta = pos 0;
  copper = copper;
  detail = detail;
}

-- A number in decimal, of as many digits at most as the fuel.
unfoldable pub show_digits : ℕ → ℕ → String
show_digits ℕ.zero n = ""
show_digits (ℕ.suc fuel) n =
    let front = show_digits fuel (n / 10) in
    if ltb n 10 then digit n else str_append front (digit (n % 10))
