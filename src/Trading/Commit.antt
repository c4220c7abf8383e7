-- ===== src/Trading/Commit.antt =====
-- The commit of an agreed trade: both sides swap what their windows show, or nothing moves.
use project_dawn_server.Trading.Books.{trade_rows-Books}
use project_dawn_server.Inventory.Cells.{count_of}
use project_dawn_server.Inventory.State.{Touched}
use project_dawn_server.Trading.Swaps.{offered, Swaps}
use project_dawn_server.Inventory.Valid.{IsValid}
use project_dawn_server.Trade.{Offer}
use project_dawn_server.Coins.{i64_max, Purse, has_at_least}
use project_dawn_server.Trading.{wrapping_sub, wrapping_add, settle_coins, swap_in, apply_side}
use project_dawn_server.Items.{Registry}
use project_dawn_server.Connection.{persist_dirty_stores, PerConnection}
use project_dawn_server.Base.{
  leb, ◌≤◌, ◌-◌, subst, ◌∙◌, sym, ap, inr, inl, none, Option-cases, ◌+◌, some, String, true, Option,
  arith, ◌≡◌, List, Bool, ℕ,
}

-- A trader afterwards: in place of what it gave it holds what it received, and its coins are settled
-- as the machine counts them.
pub record Trades (items : Registry) (gives receives : List Offer) (pay gain : Purse)
    (before after : PerConnection) : Type 0 where
  pub valid : IsValid items after.inventory
  pub stacks :
      (item : String)
      → count_of item after.inventory + offered item gives
        ≡ count_of item before.inventory + offered item receives
  pub coins : after.coins ≡ settle_coins pay gain before.coins

-- In each tier of coins it has what it had less what it paid and what it gained.
pub record Settles (pay gain before after : Purse) : Type 0 where
  pub platinum : after.platinum + pay.platinum ≡ before.platinum + gain.platinum
  pub gold : after.gold + pay.gold ≡ before.gold + gain.gold
  pub silver : after.silver + pay.silver ≡ before.silver + gain.silver
  pub copper : after.copper + pay.copper ≡ before.copper + gain.copper

abbrev pub Same : PerConnection → PerConnection → Type 0
Same before conn = (conn.inventory ≡ before.inventory) × (conn.coins ≡ before.coins)

pub persist_dirty_stores-Same :
    (lands : PerConnection → Bool) (conn : PerConnection)
    → Same conn (persist_dirty_stores lands conn).1
unfolding persist_dirty_stores
persist_dirty_stores-Same lands conn = ground arith

abbrev pub TradesIf :
    Registry
    → List Offer
    → List Offer
    → Purse
    → Purse
    → PerConnection
    → Option (Touched × PerConnection)
    → Type 0
TradesIf items gives receives pay gain before none = Unit {0}
TradesIf items gives receives pay gain before (some (touched, after)) =
    Trades items gives receives pay gain before after

-- A tier fits an i64 before, and with what is paid out of it and then gained.
abbrev pub TierFits : ℕ → ℕ → ℕ → Type 0
TierFits pay gain coins = (coins ≤ i64_max) × (coins - pay + gain ≤ i64_max)

abbrev pub FitsI64 : Purse → Purse → Purse → Type 0
FitsI64 pay gain coins =
    TierFits pay.platinum gain.platinum coins.platinum
    × TierFits pay.gold gain.gold coins.gold
    × TierFits pay.silver gain.silver coins.silver
    × TierFits pay.copper gain.copper coins.copper

-- A covered payment and a gain that fit do not wrap.
settled_tier :
    (pay gain coins : ℕ)
    → leb pay coins ≡ true
    → TierFits pay gain coins
    → wrapping_add (wrapping_sub coins pay) gain + pay ≡ coins + gain
settled_tier pay gain coins covered fits =
    let less : pay ≤ coins = ground (arith, covered) in omega (arith, less, fits.0, fits.1)

pub settle_coins-Settles :
    (pay gain before after : Purse)
    → has_at_least before pay ≡ true
    → FitsI64 pay gain before
    → after ≡ settle_coins pay gain before
    → Settles pay gain before after
unfolding has_at_least settle_coins
settle_coins-Settles pay gain before after covered fits coins =
    let p =
      settled_tier pay.platinum gain.platinum before.platinum (ground (arith, covered)) fits.0 in
    let g = settled_tier pay.gold gain.gold before.gold (ground (arith, covered)) fits.1 in
    let s = settled_tier pay.silver gain.silver before.silver (ground (arith, covered)) fits.2 in
    let c = settled_tier pay.copper gain.copper before.copper (ground (arith, covered)) fits.3 in
    record {
      platinum = ap (λ (q : Purse). q.platinum + pay.platinum) coins ∙ p;
      gold = ap (λ (q : Purse). q.gold + pay.gold) coins ∙ g;
      silver = ap (λ (q : Purse). q.silver + pay.silver) coins ∙ s;
      copper = ap (λ (q : Purse). q.copper + pay.copper) coins ∙ c;
    }

-- One side applied to a trader with the holdings of `before`.
pub apply_side-Trades :
    (items : Registry) (partner : ℕ) (gives receives : List Offer) (pay gain : Purse)
    (before conn : PerConnection)
    → Same before conn
    → Swaps items gives receives before.inventory (swap_in items gives receives before.inventory)
    → TradesIf items gives receives pay gain before
        (apply_side items partner gives receives pay gain conn)
unfolding apply_side
apply_side-Trades items partner gives receives pay gain before conn same swaps =
    elim (Option-cases (swap_in items gives receives conn.inventory)) [
      | inl stuck ↦ rw (stuck, apply_side) tt
      | inr ((touched, after), swapped) ↦
          let there : swap_in items gives receives before.inventory ≡ some (touched, after) =
            ap (swap_in items gives receives) (sym same.0) ∙ swapped in
          let done = subst (Swaps items gives receives before.inventory) there swaps in
          let applied : PerConnection = record conn {
            inventory = after;
            coins = settle_coins pay gain conn.coins;
            inventory_dirty = true;
          } in
          let booked = trade_rows-Books partner pay gain gives receives applied in
          rw (swapped, apply_side)
            (record {
              valid = subst (IsValid items) (sym booked.same_inventory) done.0;
              stacks = λ item. omega (arith, ap (count_of item) booked.same_inventory, done.1 item);
              coins = booked.same_coins ∙ ap (settle_coins pay gain) same.1;
            })
    ]
