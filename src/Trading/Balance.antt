-- ===== src/Trading/Balance.antt =====
-- The ledger of a side of a trade balances.
use project_dawn_server.Trading.Commit.{settle_coins-Settles, FitsI64, TradesIf, apply_side-Trades}
use project_dawn_server.Trading.Swaps.{swap_in-Swaps, Holds}
use project_dawn_server.Trading.Terms.{OffHand}
use project_dawn_server.Inventory.Valid.{IsValid}
use project_dawn_server.Coins.Spending.{total_copper-worth, worth}
use project_dawn_server.Trading.Books.{trade_rows-Books, coin_out, coin_in, booked_out, booked_in}
use project_dawn_server.Trade.{Offer}
use project_dawn_server.Inventory.Cells.{count_of}
use project_dawn_server.Inventory.State.{Touched}
use project_dawn_server.Items.{IsRegistry, Registry}
use project_dawn_server.Trading.{trade_rows, settle_coins, swap_in, apply_side}
use project_dawn_server.Coins.{i64_max, has_at_least, Purse}
use project_dawn_server.Connection.{PerConnection}
use project_dawn_server.Base.{
  refl, subst, inr, inl, Option-cases, ◌≤◌, true, none, All, arith, some, ◌≡◌, List, String, Option,
  ◌+◌, ℕ,
}

-- What the new rows book is what the holdings changed by.
pub record Balances (conn after : PerConnection) : Type 0 where
  pub items :
      (item : String)
      → count_of item after.inventory + booked_in item conn + booked_out item after
        ≡ count_of item conn.inventory + booked_in item after + booked_out item conn
  pub coins :
      worth after.coins + coin_in conn + coin_out after
      ≡ worth conn.coins + coin_in after + coin_out conn

abbrev pub BalancesIf : PerConnection → Option (Touched × PerConnection) → Type 0
BalancesIf conn none = Unit {0}
BalancesIf conn (some (touched, after)) = Balances conn after

traded_worth :
    (pay gain before after : Purse)
    → after.platinum + pay.platinum ≡ before.platinum + gain.platinum
    → after.gold + pay.gold ≡ before.gold + gain.gold
    → after.silver + pay.silver ≡ before.silver + gain.silver
    → after.copper + pay.copper ≡ before.copper + gain.copper
    → worth after + worth pay ≡ worth before + worth gain
traded_worth pay gain before after p g s c = omega (arith, p, g, s, c)

-- Where both inventories are well formed, what one trader gives stands there and is not in the
-- hand, what it receives stands with the other, its purse covers its offer and fits an i64 in
-- each tier before and after, and both offers are worth an i64 at most, a side that is applied
-- queues ledger rows whose sums are, for every item, the change of its count, and for coin the
-- change of what the purse is worth.
pub apply_side-Balances :
    (items : Registry) (partner : ℕ) (gives receives : List Offer) (pay gain : Purse)
    (conn other : PerConnection)
    → IsRegistry items
    → IsValid items conn.inventory
    → IsValid items other.inventory
    → OffHand gives
    → All (Holds conn.inventory) gives
    → All (Holds other.inventory) receives
    → has_at_least conn.coins pay ≡ true
    → FitsI64 pay gain conn.coins
    → worth pay ≤ i64_max
    → worth gain ≤ i64_max
    → BalancesIf conn (apply_side items partner gives receives pay gain conn)
unfolding apply_side
apply_side-Balances items partner gives receives pay gain conn other reg valid fine off mine theirs
      covered fits small_pay small_gain =
    let swaps =
      swap_in-Swaps items gives receives conn.inventory other.inventory reg valid fine off mine
        theirs in
    let trades =
      apply_side-Trades items partner gives receives pay gain conn conn (refl, refl) swaps in
    elim (Option-cases (swap_in items gives receives conn.inventory)) [
      | inl stuck ↦ rw (stuck, apply_side) tt
      | inr ((touched, after), swapped) ↦
          let applied : PerConnection = record conn {
            inventory = after;
            coins = settle_coins pay gain conn.coins;
            inventory_dirty = true;
          } in
          let last = trade_rows partner gives receives pay gain applied in
          let booked = trade_rows-Books partner pay gain gives receives applied in
          let whole : apply_side items partner gives receives pay gain conn ≡ some (touched, last) =
            rw (swapped, apply_side) refl in
          let t = subst (TradesIf items gives receives pay gain conn) whole trades in
          let c = settle_coins-Settles pay gain conn.coins last.coins covered fits t.coins in
          rw (swapped, apply_side)
            (record {
              items =
                  λ item. omega (arith, t.stacks item, booked.items_in item, booked.items_out item);
              coins = omega (
                arith,
                traded_worth pay gain conn.coins last.coins c.platinum c.gold c.silver c.copper,
                booked.coins_moved,
                total_copper-worth pay,
                total_copper-worth gain,
                small_pay,
                small_gain,
              );
            })
    ]
