-- ===== src/Banking/Counter.antt =====
-- The banker neither makes nor loses coin.
use project_dawn_server.Banking.{
  exchange_text, Service, served, out_of_range, unwilling, CoinIntent, bank_deposit, bank_withdraw,
  bank_convert, Banked, is_zero, deposit_coins, withdraw_coins, exchanged, exchange_coins,
  at_counter, coin_bank,
}
use project_dawn_server.Coins.Spending.{worth, spend-worth, total_copper-worth}
use project_dawn_server.Coins.Tiers.{ExchangeError, exchange_tier, Exchanges, exchange_tier-worth}
use project_dawn_server.Coins.{CoinAmount, Purse, add_each, pay_value_of, total_copper, i64_max}
use project_dawn_server.Connection.{PerConnection, ledger}
use project_dawn_server.Base.{
  Result, String, refl, ◌∙◌, sym, inr, inl, Bool-cases, is_ok, ok, leb, false, arith, ◌&&◌, ◌≤◌,
  ◌≡◌, u32_mod, true, not, err, Bool, ◌<◌, ◌+◌, ℕ,
}

abbrev pub is_served : Service → Bool
is_served served = true
is_served out_of_range = false
is_served (unwilling name) = false

-- Whether the counter grants a request: the purse that pays is worth what is asked for, or the
-- wallet can be exchanged so.
abbrev pub grants : CoinIntent → PerConnection → Bool
grants (bank_deposit amount) conn =
    not (is_zero amount.get) && leb (worth amount.get) (worth conn.coins)
grants (bank_withdraw amount) conn =
    not (is_zero amount.get) && leb (worth amount.get) (worth conn.bank_coins)
grants (bank_convert from_tier to_tier qty) conn =
    is_ok (exchange_tier from_tier to_tier qty conn.coins).0

-- What goes into the bank and what comes out of it.
abbrev pub paid_in : CoinIntent → ℕ
paid_in (bank_deposit amount) = worth amount.get
paid_in (bank_withdraw amount) = 0
paid_in (bank_convert from_tier to_tier qty) = 0

abbrev pub paid_out : CoinIntent → ℕ
paid_out (bank_deposit amount) = 0
paid_out (bank_withdraw amount) = worth amount.get
paid_out (bank_convert from_tier to_tier qty) = 0

-- An exchange asks for a u32 count of coins.
abbrev pub IsRequest : CoinIntent → Type 0
IsRequest (bank_deposit amount) = Unit {0}
IsRequest (bank_withdraw amount) = Unit {0}
IsRequest (bank_convert from_tier to_tier qty) = qty < u32_mod

-- A refused request changes nothing; a granted one moves what it asks for between wallet and bank
-- and marks the wallet for the flush.
abbrev pub Banks : CoinIntent → PerConnection → Banked → Type 0
Banks intent conn (err _, after) = after ≡ conn
Banks intent conn (ok _, after) =
    (worth after.coins + paid_in intent ≡ worth conn.coins + paid_out intent)
    × (worth after.bank_coins + paid_out intent ≡ worth conn.bank_coins + paid_in intent)
    × (after.coins_dirty ≡ true)

add_each-worth :
    (p q : Purse) → worth p + worth q ≤ i64_max → worth (add_each p q) ≡ worth p + worth q
unfolding add_each
add_each-worth p q small = omega (arith, small)

-- A payment out of one purse into another, where both together are worth less than the largest i64.
payment :
    (want from to : Purse)
    → worth from + worth to < i64_max
    → let (paid, after) = pay_value_of want from in
      (paid ≡ leb (worth want) (worth from))
      × (paid ≡ true
          → (worth after + worth want ≡ worth from)
            × (worth (add_each to want) ≡ worth to + worth want))
unfolding pay_value_of
payment want from to small =
    let cost = total_copper-worth want in
    let spent = spend-worth (total_copper want) from (omega (arith, small)) in
    (
      ground (arith, small, cost, spent.0),
      λ paid.
          let enough : worth want ≤ worth from = ground (arith, small, cost, spent.0, paid) in
          (
            ground (arith, small, cost, spent.1, paid, enough),
            add_each-worth to want (omega (arith, small, enough)),
          ),
    )

-- What the counter makes of one request.
abbrev Serves : CoinIntent → PerConnection → Banked → Type 0
Serves intent conn out = (is_ok out.0 ≡ grants intent conn) × Banks intent conn out

deposit_coins-Serves :
    (amount : CoinAmount) (conn : PerConnection)
    → worth conn.coins + worth conn.bank_coins < i64_max
    → Serves (bank_deposit amount) conn (deposit_coins amount.get conn)
unfolding deposit_coins ledger
deposit_coins-Serves amount conn small =
    let pays = payment amount.get conn.coins conn.bank_coins small in
    elim (Bool-cases (is_zero amount.get)) [
      | inl zero ↦ rw zero (refl, refl)
      | inr more ↦ rw more (elim (Bool-cases (pay_value_of amount.get conn.coins).0) [
        | inr short ↦ rw short (sym short ∙ pays.0, refl)
        | inl paid ↦
            let done = pays.1 paid in
            rw paid (sym paid ∙ pays.0, (omega (arith, done.0), omega (arith, done.1), refl))
      ])
    ]

withdraw_coins-Serves :
    (amount : CoinAmount) (conn : PerConnection)
    → worth conn.coins + worth conn.bank_coins < i64_max
    → Serves (bank_withdraw amount) conn (withdraw_coins amount.get conn)
unfolding withdraw_coins ledger
withdraw_coins-Serves amount conn small =
    let pays = payment amount.get conn.bank_coins conn.coins (omega (arith, small)) in
    elim (Bool-cases (is_zero amount.get)) [
      | inl zero ↦ rw zero (refl, refl)
      | inr more ↦ rw more (elim (Bool-cases (pay_value_of amount.get conn.bank_coins).0) [
        | inr short ↦ rw short (sym short ∙ pays.0, refl)
        | inl paid ↦
            let done = pays.1 paid in
            rw paid (sym paid ∙ pays.0, (omega (arith, done.1), omega (arith, done.0), refl))
      ])
    ]

exchanged-Serves :
    (from_tier to_tier qty : ℕ) (detail : String) (conn : PerConnection)
    (out : Result ExchangeError (Unit {0}) × Purse)
    → Exchanges conn.coins out
    → (is_ok (exchanged detail conn out).0 ≡ is_ok out.0)
      × Banks (bank_convert from_tier to_tier qty) conn (exchanged detail conn out)
unfolding exchanged ledger
exchanged-Serves from_tier to_tier qty detail conn (ok _, wallet) h =
    (refl, (omega (arith, h), omega arith, refl))
exchanged-Serves from_tier to_tier qty detail conn (err reason, wallet) h = (refl, refl)

at_counter-Serves :
    (intent : CoinIntent) (conn : PerConnection)
    → worth conn.coins + worth conn.bank_coins < i64_max
    → IsRequest intent
    → Serves intent conn (at_counter intent conn)
unfolding at_counter exchange_coins
at_counter-Serves (bank_deposit amount) conn small h = deposit_coins-Serves amount conn small
at_counter-Serves (bank_withdraw amount) conn small h = withdraw_coins-Serves amount conn small
at_counter-Serves (bank_convert from_tier to_tier qty) conn small h =
    exchanged-Serves from_tier to_tier qty (exchange_text from_tier to_tier qty) conn
      (exchange_tier from_tier to_tier qty conn.coins)
      (exchange_tier-worth from_tier to_tier qty conn.coins (omega (arith, small)) h)

-- Where wallet and bank together are worth less than the largest i64 and an exchange is of a u32
-- count, a request at the banker is granted exactly where a banker serves the character and the
-- amount is not zero and the purse that pays is worth it, or the exchange of the wallet succeeds;
-- a granted request moves what it asks for between the wallet and the bank, by value, and marks
-- the wallet for the flush, and a refused one changes nothing.
pub coin_bank-Banks :
    (service : Service) (intent : CoinIntent) (conn : PerConnection)
    → worth conn.coins + worth conn.bank_coins < i64_max
    → IsRequest intent
    → (is_ok (coin_bank service intent conn).0 ≡ is_served service && grants intent conn)
      × Banks intent conn (coin_bank service intent conn)
unfolding coin_bank
coin_bank-Banks served intent conn small h = at_counter-Serves intent conn small h
coin_bank-Banks out_of_range intent conn small h = (refl, refl)
coin_bank-Banks (unwilling name) intent conn small h = (refl, refl)
