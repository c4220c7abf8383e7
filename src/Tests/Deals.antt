-- ===== src/Tests/Deals.antt =====
-- The theorems on the commit of a trade at two players: one offers a sword, the other two gold.
use project_dawn_server.Trading.Steps.{apply_trade_intents-IsFair}
use project_dawn_server.Trading.Parking.{IsFair}
use project_dawn_server.Trading.Intents.{apply_trade_intents, TradeI, request, offer, pay, confirm}
use project_dawn_server.Trade.Reach.{
  Call, after_calls, after_call, call_open, call_offer_item, call_offer_coins, call_accept,
  calls-IsConsistent,
}
use project_dawn_server.Trade.{new}
use project_dawn_server.Vault.{new_vault}
use project_dawn_server.Inventory.Location.{parse_slot_ref}
use project_dawn_server.Inventory.Valid.{IsValid}
use project_dawn_server.Trading.Balance.{apply_side-Balances, BalancesIf}
use project_dawn_server.Tests.World.{pack-IsValid, stock-IsRegistry, pack, stock}
use project_dawn_server.Trading.Intent.{OffHands}
use project_dawn_server.Trading.Swaps.{shown}
use project_dawn_server.Trading.Commit.{FitsI64}
use project_dawn_server.Trade.Spellings.{is_locked-spelling, bag_offer, bag_offered}
use project_dawn_server.Coins.{i64_max, zero_coins, has_at_least, Purse}
use project_dawn_server.Connection.{PerConnection}
use project_dawn_server.Trade.{
  clear_accepts, set_side, side_of, edit_session, accept, offer_coins, offer_item, is_locked,
  open_trade, new, TradeSession, TradeManager, Offer,
}
use project_dawn_server.Trade.Sessions.{new-IsConsistent, IsConsistent}
use project_dawn_server.Trading.Accepted.{SafeOffers}
use project_dawn_server.Trading.Accepting.{
  accept_intent-AcceptsTrade, AcceptsTrade, CoinsFit, TradesFit,
}
use project_dawn_server.Base.{
  suc, sym, none, [], subst, replicate, refl, ◌∷◌, false, empty, arith, ◌≡◌, true, some, insert,
  Bool, List, ℕ,
}
use project_dawn_server.Trading.{settle_coins, apply_side, accept_intent, WorldState}
use project_dawn_server.Inventory.State.{cell, peek_at}

abbrev ten_gold : Purse
ten_gold = record { platinum = 0; gold = 10; silver = 0; copper = 0 }

abbrev two_gold : Purse
two_gold = record { platinum = 0; gold = 2; silver = 0; copper = 0 }

abbrev player : ℕ → PerConnection
player id = record {
  char_id = id;
  in_world = true;
  death_processed = false;
  inventory = pack;
  coins = ten_gold;
  bank_coins = ten_gold;
  bank_items = new_vault 4;
  account_bank_items = new_vault 4;
  inventory_dirty = false;
  coins_dirty = false;
  bank_dirty = false;
  bank_items_dirty = false;
  account_bank_items_dirty = false;
  item_events = [];
}

abbrev sword_offer : Offer
sword_offer = record { location = "base"; slot = 2; item_path = "sword"; count = 1 }

abbrev calls : List Call
calls =
    call_open 1 2
    ∷ call_offer_item 1 0 sword_offer
    ∷ call_offer_coins 2 (record { get = two_gold })
    ∷ call_accept 1
    ∷ []

abbrev table : TradeManager
table = after_calls calls new

abbrev deal : TradeSession
deal = record {
  a = record {
    cid = 1;
    offers = some sword_offer ∷ replicate 7 none;
    coins = zero_coins;
    accepted = true;
  };
  b = record { cid = 2; offers = replicate 8 none; coins = two_gold; accepted = false };
}

abbrev world : WorldState
world = record {
  connections = insert 1 (player 1) (insert 2 (player 2) empty);
  trade_manager = table;
}

abbrev near : PerConnection → PerConnection → Bool
near a b = true

abbrev lands : PerConnection → Bool
lands c = true

table-deal : table.sessions 0 ≡ some deal
unfolding after_calls after_call open_trade offer_item offer_coins accept new edit_session side_of
    set_side clear_accepts
table-deal = refl

table-empty : (id : ℕ) → table.sessions (suc id) ≡ none
unfolding after_calls after_call open_trade offer_item offer_coins accept new edit_session side_of
    set_side clear_accepts
table-empty id = ground arith

deal-OffHands : OffHands deal
unfolding shown
deal-OffHands = ((refl, tt), tt)

world-SafeOffers : SafeOffers table
world-SafeOffers ℕ.zero s h =
    let same : s ≡ deal = ground (arith, h, table-deal) in subst OffHands (sym same) deal-OffHands
world-SafeOffers (ℕ.suc id) s h = absurd (ground (arith, h, table-empty id))

world-IsValid :
    (k : ℕ) (c : PerConnection) → world.connections k ≡ some c → IsValid stock c.inventory
world-IsValid k c h =
    let same : c.inventory ≡ pack = ground (arith, h) in
    subst (IsValid stock) (sym same) pack-IsValid

coins_fit :
    (c : PerConnection)
    → c.coins ≡ ten_gold
    → (paid gain : Purse) → FitsI64 paid gain ten_gold
    → FitsI64 paid gain c.coins
coins_fit c same paid gain fits = subst (FitsI64 paid gain) (sym same) fits

deal-CoinsFit : CoinsFit deal world
deal-CoinsFit = (
  λ c h. coins_fit c (ground (arith, h)) zero_coins two_gold (ground arith),
  λ c h. coins_fit c (ground (arith, h)) two_gold zero_coins (ground arith),
)

world-TradesFit : TradesFit table world
world-TradesFit ℕ.zero s h =
    let same : s ≡ deal = ground (arith, h, table-deal) in
    subst (λ t. CoinsFit t world) (sym same) deal-CoinsFit
world-TradesFit (ℕ.suc id) s h = absurd (ground (arith, h, table-empty id))

table-IsConsistent : IsConsistent table
table-IsConsistent = calls-IsConsistent calls (omega arith)

accept_intent-AcceptsTrade_example :
    AcceptsTrade stock 2 world (accept_intent stock near lands near 2 world)
accept_intent-AcceptsTrade_example =
    accept_intent-AcceptsTrade stock near lands near 2 world stock-IsRegistry table-IsConsistent
      world-SafeOffers world-IsValid world-TradesFit

apply_side-Balances_example :
    BalancesIf (player 1) (apply_side stock 2 (sword_offer ∷ []) [] zero_coins two_gold (player 1))
unfolding has_at_least peek_at parse_slot_ref cell
apply_side-Balances_example =
    apply_side-Balances stock 2 (sword_offer ∷ []) [] zero_coins two_gold (player 1) (player 2)
      stock-IsRegistry pack-IsValid pack-IsValid (refl, tt) (refl, tt) tt refl (ground arith)
      (omega arith) (omega arith)

is_locked-spelling_example :
    let m = bag_offered 1 2 (bag_offer 3 "bread" 2) in
    (parse_slot_ref "bag_00" 3 ≡ parse_slot_ref "bag_0" 3)
    × (is_locked 1 "bag_0" 3 m ≡ true)
    × (is_locked 1 "bag_00" 3 m ≡ false)
is_locked-spelling_example = is_locked-spelling 1 2 3 "bread" 2 (omega arith)

-- Before any session is open.
abbrev start : WorldState
start = record world { trade_manager = new }

abbrev intents : List TradeI
intents =
    request 1 2
    ∷ offer 1 0 "base" 2
    ∷ pay 2 (record { get = two_gold })
    ∷ confirm 1
    ∷ confirm 2
    ∷ []

start-IsFair : IsFair stock 0 start
unfolding new
start-IsFair = record {
  table = record {
    consistent = new-IsConsistent;
    safe = λ id s h. absurd (ground (arith, h));
    numbered = omega arith;
  };
  valid = world-IsValid;
}

apply_trade_intents-IsFair_example :
    IsFair stock 5 (apply_trade_intents stock near near lands near intents start)
apply_trade_intents-IsFair_example =
    apply_trade_intents-IsFair stock stock-IsRegistry near near lands near intents 0 start
      (omega arith) start-IsFair

-- A tier at the largest i64 and one more coin wrap to the bits of the smallest.
wrapped :
    (settle_coins zero_coins
      (record zero_coins { copper = 1 })
      (record zero_coins { copper = i64_max })).copper
    ≡ 9223372036854775808
unfolding settle_coins
wrapped = refl
