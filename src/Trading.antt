-- ===== src/Trading.antt =====
-- crates/projectdawn-server/src/world/tick/trading.rs: the accept of a trade and its commit. Messages to
-- the clients are left out but for the verdict.
pub mod TakeOut
pub mod Terms
pub mod Swaps
pub mod Books
pub mod Commit
pub mod Outcome
pub mod Intent
pub mod Accepted
pub mod Accepting
pub mod Balance
pub mod Intents
pub mod Closed
pub mod Tables
pub mod Fair
pub mod Parking
pub mod Steps
use project_dawn_server.Ledger.{show_digits, item_event, coin_event}
use project_dawn_server.Inventory.Granted.{grant_all}
use project_dawn_server.Inventory.Location.{digit}
use project_dawn_server.Inventory.Removal.{destroy_at}
use project_dawn_server.Trade.{
  session_of, retrieve_item, accept, TradeSide, TradeManager, Offer, close, clear_accepts_of,
  TradeSession, TradeError,
}
use project_dawn_server.Items.{Registry}
use project_dawn_server.Coins.{has_at_least, total_copper, Purse}
use project_dawn_server.Inventory.State.{bag_key_is_nonempty, peek_at, Touched, PlayerInventory}
use project_dawn_server.Connection.{
  persist_dirty_stores, ledger, ledger_mark, ledger_rollback, PerConnection,
}
use Prim.Native.String.{◌++◌ as str_append}
use project_dawn_server.Ledger.{trade_coins, trade_in, trade_out}
use project_dawn_server.Base.{
  neg, pos, minus, u64_mod, ◌%◌, as_u8, ◌||◌, is_empty, str_eq, ok, ◌++◌, true, suc, false, err,
  ◌==◌, ◌&&◌, ◌∷◌, not, none, map, ltb, is_some, ◌+◌, some, insert, [], Bool, ◌/◌, ◌-◌, String,
  Option, Map, List, ℕ, if◌then◌else◌,
}

-- What the two traders are told.
pub data Verdict : Type 0 where
  refused : TradeError → Verdict
  waiting not_together coins_not_covered offers_changed does_not_fit failed : Verdict
  complete : Touched → Touched → Verdict

-- The part of `WorldState` that a trade reads and writes.
pub record WorldState : Type 0 where
  pub connections : Map PerConnection
  pub trade_manager : TradeManager

-- An offered slot still holds what the partner was shown, and an offered bag is still empty.
unfoldable pub offer_changed : PlayerInventory → Offer → Bool
offer_changed inv o =
    let same : Bool = elim (peek_at o.location o.slot inv) [
      | none ↦ false
      | some (p, c) ↦ str_eq p o.item_path && c == o.count
    ] in
    let bag_still_empty =
      not (str_eq o.location "base") || not (bag_key_is_nonempty (as_u8 o.slot) inv) in
    not (same && bag_still_empty)

-- The window slots, from the `i`-th on, whose offers have changed.
unfoldable pub changed_from : ℕ → PlayerInventory → List (Option Offer) → List ℕ
changed_from i inv [] = []
changed_from i inv (none ∷ offers) = changed_from (suc i) inv offers
changed_from i inv (some o ∷ offers) =
    let rest = changed_from (suc i) inv offers in if offer_changed inv o then i ∷ rest else rest

unfoldable pub changed : PlayerInventory → TradeSide → List ℕ
changed inv side = changed_from 0 inv side.offers

-- What stands at each offered place.
unfoldable pub resolve : PlayerInventory → List (Option Offer) → Option (List Offer)
resolve inv [] = some []
resolve inv (none ∷ offers) = resolve inv offers
resolve inv (some o ∷ offers) =
    let rest = resolve inv offers in
    elim (peek_at o.location o.slot inv) [
      | none ↦ none
      | some (p, c) ↦ elim rest [
        | none ↦ none
        | some gives ↦ some (record o { item_path = p; count = c } ∷ gives)
      ]
    ]

abbrev pub stacks : List Offer → List (String × ℕ)
stacks gives = map (λ (g : Offer). (g.item_path, g.count)) gives

abbrev pub places : List Offer → Touched
places gives = map (λ (g : Offer). (g.location, g.slot)) gives

unfoldable pub retrieve_all : ℕ → List ℕ → TradeManager → TradeManager
retrieve_all owner [] m = m
retrieve_all owner (i ∷ slots) m = retrieve_all owner slots (retrieve_item owner i m).1

-- `format!("char:{partner}")`; a u64 has twenty digits at most.
unfoldable pub char_detail : ℕ → Option String
unfolding show_digits
char_detail partner = some (str_append "char:" (show_digits 20 partner))

unfoldable pub trade_rows :
    ℕ → List Offer → List Offer → Purse → Purse → PerConnection → PerConnection
trade_rows partner [] [] pay gain conn =
    if total_copper gain == total_copper pay
    then conn
    else ledger
        (coin_event trade_coins (minus (total_copper gain) (total_copper pay))
          (char_detail partner))
        conn
trade_rows partner [] (r ∷ receives) pay gain conn =
    trade_rows partner [] receives pay gain
      (ledger (item_event trade_in r.item_path r.count (pos r.count) (char_detail partner)) conn)
trade_rows partner (g ∷ gives) receives pay gain conn =
    trade_rows partner gives receives pay gain
      (ledger (item_event trade_out g.item_path g.count (neg g.count) (char_detail partner)) conn)

-- `-=` and `+=` on an i64, which wrap in a release build. A result of 2^63 or more stands for the
-- negative number of the same 64 bits.
abbrev pub wrapping_sub : ℕ → ℕ → ℕ
wrapping_sub a b = (a + (u64_mod - b % u64_mod)) % u64_mod

abbrev pub wrapping_add : ℕ → ℕ → ℕ
wrapping_add a b = (a + b) % u64_mod

-- A wallet with what it pays taken out of each tier and what it gains put in.
unfoldable pub settle_coins : Purse → Purse → Purse → Purse
settle_coins pay gain coins = record {
  platinum = wrapping_add (wrapping_sub coins.platinum pay.platinum) gain.platinum;
  gold = wrapping_add (wrapping_sub coins.gold pay.gold) gain.gold;
  silver = wrapping_add (wrapping_sub coins.silver pay.silver) gain.silver;
  copper = wrapping_add (wrapping_sub coins.copper pay.copper) gain.copper;
}

abbrev pub close_trade : ℕ → WorldState → WorldState
close_trade cid w = record w { trade_manager = (close cid w.trade_manager).1 }

abbrev pub reopen : ℕ → WorldState → WorldState
reopen cid w = record w { trade_manager = clear_accepts_of cid w.trade_manager }

abbrev pub with_pair : TradeSession → PerConnection → PerConnection → WorldState → WorldState
with_pair s a b w = record w { connections = insert s.b.cid b (insert s.a.cid a w.connections) }

-- A trader is put back as the snapshot has it. The dirty flag stays.
abbrev pub revert : PerConnection → PerConnection → PerConnection
revert before conn =
    ledger_rollback (ledger_mark before)
      (record conn { inventory = before.inventory; coins = before.coins })

abbrev pub events_cleared : PerConnection → PerConnection
events_cleared conn = record conn { item_events = [] }

module _ (items : Registry) where
  -- Every stack that is given, out of its slot.
  unfoldable pub take_out : List Offer → PlayerInventory → Option PlayerInventory
  take_out [] inv = some inv
  take_out (g ∷ gives) inv =
      let (r, after) = destroy_at items g.location g.slot 0 inv in
      elim r [ err e ↦ none | ok taken ↦ take_out gives after ]

  -- What one side gives goes out, and then what it receives comes in.
  unfoldable pub swap_in :
      List Offer → List Offer → PlayerInventory → Option (Touched × PlayerInventory)
  swap_in gives receives inv = elim (take_out gives inv) [
    | none ↦ none
    | some left ↦ elim (grant_all items (stacks receives) left) [
      | none ↦ none
      | some (placed, after) ↦ some (places gives ++ placed, after)
    ]
  ]

  abbrev pub simulate : List Offer → List Offer → PlayerInventory → Bool
  simulate gives receives inv = is_some (swap_in gives receives inv)

  -- The trader with its side applied. What a side that fails leaves behind is reverted.
  unfoldable pub apply_side :
      ℕ → List Offer → List Offer → Purse → Purse → PerConnection → Option (Touched × PerConnection)
  apply_side partner gives receives pay gain conn = elim (swap_in gives receives conn.inventory) [
    | none ↦ none
    | some (touched, after) ↦ some (
      touched,
      trade_rows partner gives receives pay gain (record conn {
        inventory = after;
        coins = settle_coins pay gain conn.coins;
        inventory_dirty = true;
      }),
    )
  ]

  -- `together` is the part of the test on the two traders that reads health and distance; `lands` and
  -- `commits` say whether the transactions of the flush and of the trade commit.
  module _ (together : PerConnection → PerConnection → Bool) (lands : PerConnection → Bool)
      (commits : PerConnection → PerConnection → Bool) where
    -- Both sides are applied and written, or both are put back.
    unfoldable pub apply_both :
        TradeSession
        → List Offer
        → List Offer
        → PerConnection
        → PerConnection
        → WorldState
        → Verdict × WorldState
    apply_both s a_gives b_gives a b w =
        elim (apply_side s.b.cid a_gives b_gives s.a.coins s.b.coins a) [
          | none ↦ (failed, close_trade s.a.cid (with_pair s a b w))
          | some (a_touched, a') ↦ elim (apply_side s.a.cid b_gives a_gives s.b.coins s.a.coins b) [
            | none ↦ (failed, close_trade s.a.cid (with_pair s (revert a a') b w))
            | some (b_touched, b') ↦
                if commits a' b'
                then (
                  complete a_touched b_touched,
                  close_trade s.a.cid (with_pair s (events_cleared a') (events_cleared b') w),
                )
                else (failed, close_trade s.a.cid (with_pair s (revert a a') (revert b b') w))
          ]
        ]

    -- Both fit, tried on copies; then the other stores of both are flushed.
    unfoldable pub flush_and_apply :
        TradeSession
        → List Offer
        → List Offer
        → PerConnection
        → PerConnection
        → WorldState
        → Verdict × WorldState
    flush_and_apply s a_gives b_gives a b w =
        if not (simulate a_gives b_gives a.inventory && simulate b_gives a_gives b.inventory)
        then (does_not_fit, reopen s.a.cid w)
        else (let (a_flushed, a') = persist_dirty_stores lands a in
            let (b_flushed, b') = persist_dirty_stores lands b in
            if not a_flushed
            then (failed, close_trade s.a.cid (with_pair s a' b w))
            else if not b_flushed
            then (failed, close_trade s.a.cid (with_pair s a' b' w))
            else apply_both s a_gives b_gives a' b' w)

    -- The checks of an agreed trade, in order.
    unfoldable pub commit_between :
        TradeSession → PerConnection → PerConnection → WorldState → Verdict × WorldState
    commit_between s a b w =
        let a_changed = changed a.inventory s.a in
        let b_changed = changed b.inventory s.b in
        if not (
          a.in_world
          && b.in_world
          && not a.death_processed
          && not b.death_processed
          && together a b)
        then (not_together, close_trade s.a.cid w)
        else if not (has_at_least a.coins s.a.coins && has_at_least b.coins s.b.coins)
        then (coins_not_covered, reopen s.a.cid w)
        else if not (is_empty a_changed && is_empty b_changed)
        then (
          offers_changed,
          reopen s.a.cid (record w {
            trade_manager =
                retrieve_all s.b.cid b_changed (retrieve_all s.a.cid a_changed w.trade_manager);
          }),
        )
        else elim (resolve a.inventory s.a.offers) [
          | none ↦ (failed, close_trade s.a.cid w)
          | some a_gives ↦ elim (resolve b.inventory s.b.offers) [
            | none ↦ (failed, close_trade s.a.cid w)
            | some b_gives ↦ flush_and_apply s a_gives b_gives a b w
          ]
        ]

    unfoldable pub commit : TradeSession → WorldState → Verdict × WorldState
    commit s w = elim (w.connections s.a.cid) [
      | none ↦ (not_together, close_trade s.a.cid w)
      | some a ↦ elim (w.connections s.b.cid) [
        | none ↦ (not_together, close_trade s.a.cid w)
        | some b ↦ commit_between s a b w
      ]
    ]

    -- `TradeI::Accept`
    unfoldable pub accept_intent : ℕ → WorldState → Verdict × WorldState
    accept_intent cid w =
        let (r, m) = accept cid w.trade_manager in
        let w' = record w { trade_manager = m } in
        elim r [
          | err e ↦ (refused e, w')
          | ok both ↦
              if both
              then elim (session_of cid m) [ none ↦ (waiting, w') | some s ↦ commit s w' ]
              else (waiting, w')
        ]
