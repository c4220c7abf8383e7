-- ===== src/Trading/Intents.antt =====
-- crates/projectdawn-server/src/world/tick/trading.rs: the trade intents of a tick, and the sweep.
use project_dawn_server.Inventory.State.{bag_key_is_nonempty, peek_at}
use project_dawn_server.Inventory.Park.{park_cursor_stack}
use project_dawn_server.Inventory.Location.{cursor_bag_key, bag_location}
use project_dawn_server.Trade.{
  open_trade, offer_coins, offer_item, session_of, retrieve_item, TradeManager,
}
use project_dawn_server.Connection.{PerConnection}
use project_dawn_server.Coins.{has_at_least, CoinAmount}
use project_dawn_server.Trading.{close_trade, accept_intent, WorldState}
use project_dawn_server.Items.{is_no_drop, bag_num_slots, Registry}
use project_dawn_server.Base.{
  true, ok, insert, as_u8, err, [], ◌∷◌, ◌&&◌, ◌||◌, str_eq, some, false, List, not, none, ltb,
  is_some, Option, String, Bool, ℕ, if◌then◌else◌,
}

pub data TradeI : Type 0 where
  request : ℕ → ℕ → TradeI
  offer : ℕ → ℕ → String → ℕ → TradeI
  retrieve : ℕ → ℕ → TradeI
  pay : ℕ → CoinAmount → TradeI
  confirm cancel : ℕ → TradeI

-- The ids from here on are of creatures, bags and pets.
abbrev pub enemy_id_base : ℕ
enemy_id_base = 1000000000

unfoldable pub is_player_id : ℕ → Bool
is_player_id id = ltb id enemy_id_base

-- The session of a player, where there is one.
abbrev pub trading : ℕ → WorldState → Bool
trading cid w = is_some (session_of cid w.trade_manager)

unfoldable pub peek_of : ℕ → String → ℕ → WorldState → Option (String × ℕ)
peek_of cid loc slot w = elim (w.connections cid) [
  | none ↦ none
  | some c ↦ peek_at loc slot c.inventory
]

abbrev pub put_manager : WorldState → TradeManager → WorldState
put_manager w m = record w { trade_manager = m }

module _ (items : Registry) where
  abbrev pub refused_no_drop : Option (String × ℕ) → Bool
  refused_no_drop none = false
  refused_no_drop (some (path, count)) = is_no_drop items path

  -- A held stack is parked in an empty slot first, and the offer is of that slot.
  unfoldable pub source_of : ℕ → String → ℕ → WorldState → Option (String × ℕ) × WorldState
  source_of cid from_location from_slot w =
      if not (str_eq from_location "cursor")
      then (some (from_location, from_slot), w)
      else elim (w.connections cid) [
        | none ↦ (none, w)
        | some c ↦
            let (r, after) = park_cursor_stack items c.inventory in
            elim r [
              | err e ↦ (
                none,
                record w {
                  connections = insert cid (record c { inventory = after }) w.connections;
                },
              )
              | ok (place, touched) ↦ (
                some place,
                record w {
                  connections =
                      insert cid (record c { inventory = after; inventory_dirty = true })
                        w.connections;
                },
              )
            ]
      ]

  -- An offered bag still holds something.
  unfoldable pub full_bag : ℕ → String → String → ℕ → WorldState → Bool
  full_bag cid path loc slot w = elim (w.connections cid) [
    | none ↦ false
    | some c ↦
        is_some (bag_num_slots items path)
        && str_eq loc "base"
        && bag_key_is_nonempty (as_u8 slot) c.inventory
  ]

  unfoldable pub offer_place : ℕ → ℕ → Option (String × ℕ) × WorldState → WorldState
  offer_place cid window_slot (none, w) = w
  offer_place cid window_slot (some (loc, slot), w) = elim (peek_of cid loc slot w) [
    | none ↦ w
    | some (path, count) ↦
        if full_bag cid path loc slot w
        then w
        else put_manager w
            (offer_item cid window_slot
              (record { location = loc; slot = slot; item_path = path; count = count })
              w.trade_manager).1
  ]

  -- `TradeI::OfferItem`
  unfoldable pub offer_intent : ℕ → ℕ → String → ℕ → WorldState → WorldState
  offer_intent cid window_slot from_location from_slot w =
      if not (trading cid w)
        || str_eq from_location (bag_location cursor_bag_key)
        || refused_no_drop (peek_of cid from_location from_slot w)
      then w
      else offer_place cid window_slot (source_of cid from_location from_slot w)

  -- `TradeI::OfferCoins`
  unfoldable pub coins_intent : ℕ → CoinAmount → WorldState → WorldState
  coins_intent cid amount w =
      let covered : Bool = elim (w.connections cid) [
        | none ↦ false
        | some c ↦ has_at_least c.coins amount.get
      ] in
      if covered then put_manager w (offer_coins cid amount w.trade_manager).1 else w

  -- `reach` is the test on the two players of a request: the target's health and the distance.
  module _ (reach together : PerConnection → PerConnection → Bool) (lands : PerConnection → Bool)
      (commits : PerConnection → PerConnection → Bool) where
    -- `TradeI::Request`
    unfoldable pub request_intent : ℕ → ℕ → WorldState → WorldState
    request_intent requester target w =
        let in_reach : Bool = elim (w.connections target) [
          | none ↦ false
          | some t ↦ elim (w.connections requester) [
            | none ↦ false
            | some r ↦ t.in_world && not t.death_processed && reach r t
          ]
        ] in
        if not (is_player_id target)
        then w
        else if in_reach
        then put_manager w (open_trade requester target w.trade_manager).1
        else w

    unfoldable pub trade_intent : TradeI → WorldState → WorldState
    trade_intent (request requester target) w = request_intent requester target w
    trade_intent (offer owner window_slot from_location from_slot) w =
        offer_intent owner window_slot from_location from_slot w
    trade_intent (retrieve owner window_slot) w =
        put_manager w (retrieve_item owner window_slot w.trade_manager).1
    trade_intent (pay owner amount) w = coins_intent owner amount w
    trade_intent (confirm owner) w = (accept_intent items together lands commits owner w).1
    trade_intent (cancel owner) w = close_trade owner w

    unfoldable pub apply_trade_intents : List TradeI → WorldState → WorldState
    apply_trade_intents [] w = w
    apply_trade_intents (i ∷ intents) w = apply_trade_intents intents (trade_intent i w)

    -- The part of the test of the sweep on two players.
    unfoldable pub healthy : Option PerConnection → Option PerConnection → Bool
    healthy none b = false
    healthy (some a) none = false
    healthy (some a) (some b) =
        a.in_world && b.in_world && not a.death_processed && not b.death_processed && together a b

    -- The sweep, over the pairs of players that have a session open.
    unfoldable pub sweep_trades : List (ℕ × ℕ) → WorldState → WorldState
    sweep_trades [] w = w
    sweep_trades ((acid, bcid) ∷ pairs) w =
        let rest = sweep_trades pairs in
        rest (if healthy (w.connections acid) (w.connections bcid) then w else close_trade acid w)
