-- ===== src/Trading/Books.antt =====
-- The ledger rows that a side of a trade queues, and that they add up to the change of its holdings.
use project_dawn_server.Ledger.{trade_coins, trade_in, trade_out}
use project_dawn_server.Trading.Swaps.{offered}
use project_dawn_server.Trading.{char_detail, trade_rows}
use project_dawn_server.Trade.{Offer}
use project_dawn_server.Ledger.{item_event, coin_event, ItemEventRow}
use project_dawn_server.Coins.{total_copper, Purse}
use project_dawn_server.Connection.{ledger, PerConnection}
use project_dawn_server.Base.{
  inr, inl, ◌==◌, ◌-◌, refl, neg, minus, Bool-cases, [], ◌∷◌, none, sum_by-append, str_eq, some,
  arith, suc, false, ◌+◌, ◌≡◌, negsuc, Bool, sum_by, pos, Option, ℤ, String, List, ℕ, if◌then◌else◌,
}

-- The two halves of a signed number.
abbrev up : ℤ → ℕ
up (pos n) = n
up (negsuc n) = 0

abbrev down : ℤ → ℕ
down (pos n) = 0
down (negsuc n) = suc n

up-neg : (n : ℕ) → up (neg n) ≡ 0
up-neg ℕ.zero = refl
up-neg (ℕ.suc n) = refl

down-neg : (n : ℕ) → down (neg n) ≡ n
down-neg ℕ.zero = refl
down-neg (ℕ.suc n) = refl

minus-split : (m n : ℕ) → up (minus m n) + n ≡ m + down (minus m n)
minus-split m n = ground (arith, up-neg (n - m), down-neg (n - m))

abbrev is_item : String → Option String → Bool
is_item item none = false
is_item item (some path) = str_eq path item

-- What some rows book in and out of an item, and of coin.
abbrev item_in : String → ItemEventRow → ℕ
item_in item row = if is_item item row.item_path then up row.delta else 0

abbrev item_out : String → ItemEventRow → ℕ
item_out item row = if is_item item row.item_path then down row.delta else 0

abbrev pub booked_in : String → PerConnection → ℕ
booked_in item conn = sum_by (item_in item) conn.item_events

abbrev pub booked_out : String → PerConnection → ℕ
booked_out item conn = sum_by (item_out item) conn.item_events

abbrev pub coin_in : PerConnection → ℕ
coin_in conn = sum_by (λ (r : ItemEventRow). up r.copper) conn.item_events

abbrev pub coin_out : PerConnection → ℕ
coin_out conn = sum_by (λ (r : ItemEventRow). down r.copper) conn.item_events

ledger-sum :
    (f : ItemEventRow → ℕ) (row : ItemEventRow) (conn : PerConnection)
    → sum_by f (ledger row conn).item_events
      ≡ sum_by f conn.item_events + f (record row { char_id = conn.char_id })
unfolding ledger
ledger-sum f row conn =
    omega (arith, sum_by-append f conn.item_events (record row { char_id = conn.char_id } ∷ []))

-- What the rows of a trade book.
pub record Books (gives receives : List Offer) (pay gain : Purse) (conn after : PerConnection)
    : Type 0 where
  pub same_inventory : after.inventory ≡ conn.inventory
  pub same_coins : after.coins ≡ conn.coins
  pub items_in :
      (item : String) → booked_in item after ≡ booked_in item conn + offered item receives
  pub items_out :
      (item : String) → booked_out item after ≡ booked_out item conn + offered item gives
  pub coins_moved :
      coin_in after + coin_out conn + total_copper pay
      ≡ coin_in conn + coin_out after + total_copper gain

module _ (partner : ℕ) (pay gain : Purse) where
  abbrev coin_row : ItemEventRow
  coin_row =
      coin_event trade_coins (minus (total_copper gain) (total_copper pay)) (char_detail partner)

  abbrev in_row : Offer → ItemEventRow
  in_row r = item_event trade_in r.item_path r.count (pos r.count) (char_detail partner)

  abbrev out_row : Offer → ItemEventRow
  out_row g = item_event trade_out g.item_path g.count (neg g.count) (char_detail partner)

  coins-Books : (conn : PerConnection) → Books [] [] pay gain conn (ledger coin_row conn)
  unfolding ledger coin_event
  coins-Books conn = record {
    same_inventory = refl;
    same_coins = refl;
    items_in = λ item. omega (arith, ledger-sum (item_in item) coin_row conn);
    items_out = λ item. omega (arith, ledger-sum (item_out item) coin_row conn);
    coins_moved = omega (
      arith,
      ledger-sum (λ (r : ItemEventRow). up r.copper) coin_row conn,
      ledger-sum (λ (r : ItemEventRow). down r.copper) coin_row conn,
      minus-split (total_copper gain) (total_copper pay),
    );
  }

  pub trade_rows-Books :
      (gives receives : List Offer) (conn : PerConnection)
      → Books gives receives pay gain conn (trade_rows partner gives receives pay gain conn)
  unfolding trade_rows item_event coin_event ledger
  trade_rows-Books [] [] conn = elim (Bool-cases (total_copper gain == total_copper pay)) [
    | inl even ↦ rw even (record {
      same_inventory = refl;
      same_coins = refl;
      items_in = λ item. omega arith;
      items_out = λ item. omega arith;
      coins_moved = ground (arith, even);
    })
    | inr odd ↦ rw odd (coins-Books conn)
  ]
  trade_rows-Books [] (r ∷ receives) conn =
      let rest = trade_rows-Books [] receives (ledger (in_row r) conn) in
      record {
        same_inventory = rest.same_inventory;
        same_coins = rest.same_coins;
        items_in =
            λ item. omega (arith, rest.items_in item, ledger-sum (item_in item) (in_row r) conn);
        items_out =
            λ item. ground (arith, rest.items_out item, ledger-sum (item_out item) (in_row r) conn);
        coins_moved = omega (
          arith,
          rest.coins_moved,
          ledger-sum (λ (r : ItemEventRow). up r.copper) (in_row r) conn,
          ledger-sum (λ (r : ItemEventRow). down r.copper) (in_row r) conn,
        );
      }
  trade_rows-Books (g ∷ gives) receives conn =
      let rest = trade_rows-Books gives receives (ledger (out_row g) conn) in
      record {
        same_inventory = rest.same_inventory;
        same_coins = rest.same_coins;
        items_in = λ item.
            ground (
              arith,
              rest.items_in item,
              ledger-sum (item_in item) (out_row g) conn,
              up-neg g.count,
            );
        items_out = λ item. ground (
          arith,
          rest.items_out item,
          ledger-sum (item_out item) (out_row g) conn,
          down-neg g.count,
        );
        coins_moved = omega (
          arith,
          rest.coins_moved,
          ledger-sum (λ (r : ItemEventRow). up r.copper) (out_row g) conn,
          ledger-sum (λ (r : ItemEventRow). down r.copper) (out_row g) conn,
        );
      }
