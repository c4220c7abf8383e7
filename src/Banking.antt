-- ===== src/Banking.antt =====
-- crates/projectdawn-server/src/world/tick/banking.rs: the banker's coin counter. What the banker
-- search of a connection answers is an argument, and the messages to the client are the result.
pub mod Counter
pub mod Store
pub mod Stored
pub mod Withdraw
pub mod Withdrawn
use Prim.Native.String.{◌++◌ as str_append}
use project_dawn_server.Ledger.{coin_event, show_digits, bank_coin_in, bank_coin_out, bank_exchange}
use project_dawn_server.Coins.{Purse, CoinAmount, pay_value_of, add_each, total_copper}
use project_dawn_server.Coins.Tiers.{
  ExchangeError, exchange_tier, same_tier, invalid_tier, nothing_to_convert, not_enough_to_convert,
  not_enough_for_one,
}
use project_dawn_server.Connection.{PerConnection, ledger}
use project_dawn_server.Base.{
  true, some, pos, ◌&&◌, ok, not, ◌==◌, if◌then◌else◌, err, String, Result, Bool, ℕ,
}

-- What `npc_service("banker")` answers: a banker, none in range, or one that refuses the character.
pub data Service : Type 0 where
  served out_of_range : Service
  unwilling : String → Service

pub data CoinIntent : Type 0 where
  bank_deposit bank_withdraw : CoinAmount → CoinIntent
  bank_convert : ℕ → ℕ → ℕ → CoinIntent

-- What a request comes to: the reason of a `BankRejected`, if any, and the connection.
abbrev pub Banked : Type 0
Banked = Result String (Unit {0}) × PerConnection

unfoldable pub is_zero : Purse → Bool
is_zero p = p.platinum == 0 && p.gold == 0 && p.silver == 0 && p.copper == 0

-- The detail of a ledger row; an `i64` has nineteen digits at most.
unfoldable pub copper_text : Purse → String
copper_text p = str_append (show_digits 20 (total_copper p)) " copper"

unfoldable pub deposit_coins : Purse → PerConnection → Banked
deposit_coins coins conn =
    let (paid, wallet_after) = pay_value_of coins conn.coins in
    if is_zero coins
    then (err "Nothing to deposit.", conn)
    else if not paid
    then (err "You don't have that much coin to deposit.", conn)
    else (
      ok tt,
      ledger (coin_event bank_coin_in (pos 0) (some (copper_text coins))) (record conn {
        coins = wallet_after;
        bank_coins = add_each conn.bank_coins coins;
        coins_dirty = true;
        bank_dirty = true;
      }),
    )

unfoldable pub withdraw_coins : Purse → PerConnection → Banked
withdraw_coins coins conn =
    let (paid, bank_after) = pay_value_of coins conn.bank_coins in
    if is_zero coins
    then (err "Nothing to withdraw.", conn)
    else if not paid
    then (err "Your bank doesn't hold that much coin.", conn)
    else (
      ok tt,
      ledger (coin_event bank_coin_out (pos 0) (some (copper_text coins))) (record conn {
        coins = add_each conn.coins coins;
        bank_coins = bank_after;
        coins_dirty = true;
        bank_dirty = true;
      }),
    )

unfoldable pub reason_text : ExchangeError → String
reason_text same_tier = "pick two different coin tiers"
reason_text invalid_tier = "invalid coin tier"
reason_text nothing_to_convert = "nothing to convert"
reason_text not_enough_to_convert = "not enough of that coin to convert"
reason_text not_enough_for_one = "not enough of that coin to make even one of the target"

unfoldable pub exchange_text : ℕ → ℕ → ℕ → String
exchange_text from_tier to_tier qty = str_append (show_digits 10 qty) (
    str_append " of tier "
      (str_append (show_digits 3 from_tier) (str_append " to tier " (show_digits 3 to_tier))))

-- The wallet after an exchange, or its reason.
unfoldable pub exchanged : String → PerConnection → Result ExchangeError (Unit {0}) × Purse → Banked
exchanged detail conn (err reason, _) = (err (reason_text reason), conn)
exchanged detail conn (ok _, wallet) = (
  ok tt,
  ledger (coin_event bank_exchange (pos 0) (some detail))
      (record conn { coins = wallet; coins_dirty = true }),
)

unfoldable pub exchange_coins : ℕ → ℕ → ℕ → PerConnection → Banked
exchange_coins from_tier to_tier qty conn =
    exchanged (exchange_text from_tier to_tier qty) conn
      (exchange_tier from_tier to_tier qty conn.coins)

-- One pass of the loop over the requests of its kind, at the counter.
unfoldable pub at_counter : CoinIntent → PerConnection → Banked
at_counter (bank_deposit amount) conn = deposit_coins amount.get conn
at_counter (bank_withdraw amount) conn = withdraw_coins amount.get conn
at_counter (bank_convert from_tier to_tier qty) conn = exchange_coins from_tier to_tier qty conn

-- The test that a banker is near and deals with the character, before what the banker does.
abbrev pub at_banker : Service → PerConnection → Banked → Banked
at_banker out_of_range conn done = (err "There is no banker near you.", conn)
at_banker (unwilling name) conn done = (err (str_append name " will not deal with you."), conn)
at_banker served conn done = done

-- One request at the counter of a banker.
unfoldable pub coin_bank : Service → CoinIntent → PerConnection → Banked
coin_bank service intent conn = at_banker service conn (at_counter intent conn)
