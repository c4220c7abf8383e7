-- ===== src/Trade.antt =====
-- crates/projectdawn-server/src/world/trade.rs: trade sessions between two players. An offer is a
-- reference into its owner's inventory; nothing moves while the window is open.
pub mod Sessions
pub mod Edits
pub mod Closing
pub mod Reach
pub mod Locks
pub mod Spellings
use project_dawn_server.Coins.{zero_coins, Purse, CoinAmount}
use project_dawn_server.Inventory.Location.{bag_key}
use project_dawn_server.Base.{
  u64_mod, ℤ, pos, is_negative, ◌%◌, ◌+◌, is_some, get_or, str_eq, remove, is_none, insert,
  contains_key, any, ◌||◌, ◌==◌, ◌&&◌, true, some, set, leb, err, ◌≡◌, replicate, ok, none,
  if◌then◌else◌, false, empty, String, Result, Outcome, Option, Map, List, Bool, ℕ,
}

abbrev pub trade_slots : ℕ
trade_slots = 8

pub record Offer : Type 0 where
  pub location : String
  pub slot : ℕ
  pub item_path : String
  pub count : ℕ

pub record TradeSide : Type 0 where
  pub cid : ℕ
  pub offers : List (Option Offer)
  pub coins : Purse
  pub accepted : Bool

pub record TradeSession : Type 0 where
  pub a : TradeSide
  pub b : TradeSide

pub data TradeError : Type 0 where
  already_offered already_trading no_such_slot not_trading partner_busy self_trade slot_empty
        slot_taken :
      TradeError

pub record TradeManager : Type 0 where
  pub sessions : Map TradeSession
  pub by_cid : Map ℕ
  pub next_id : ℕ

abbrev pub Traded : Type 0 → Type 0
Traded A = Outcome TradeManager TradeError A

unfoldable pub new : TradeManager
new = record { sessions = empty; by_cid = empty; next_id = 0 }

abbrev pub new_side : ℕ → TradeSide
new_side cid = record {
  cid = cid;
  offers = replicate trade_slots none;
  coins = zero_coins;
  accepted = false;
}

abbrev pub new_session : ℕ → ℕ → TradeSession
new_session a b = record { a = new_side a; b = new_side b }

unfoldable pub open_trade : ℕ → ℕ → TradeManager → Traded (Unit {0})
open_trade a b m =
    if a == b
    then (err self_trade, m)
    else if contains_key a m.by_cid
    then (err already_trading, m)
    else if contains_key b m.by_cid
    then (err partner_busy, m)
    else (
      ok tt,
      record {
        sessions = insert m.next_id (new_session a b) m.sessions;
        by_cid = insert b m.next_id (insert a m.next_id m.by_cid);
        next_id = (m.next_id + 1) % u64_mod;
      },
    )

unfoldable pub session_of : ℕ → TradeManager → Option TradeSession
session_of cid m = elim (m.by_cid cid) [ none ↦ none | some id ↦ m.sessions id ]

unfoldable pub side_of : ℕ → TradeSession → Option TradeSide
side_of cid s = if s.a.cid == cid then some s.a else if s.b.cid == cid then some s.b else none

-- `side_of_mut`: the session with that player's side replaced.
unfoldable pub set_side : ℕ → TradeSide → TradeSession → TradeSession
set_side cid side s = if s.a.cid == cid then record s { a = side } else record s { b = side }

unfoldable pub clear_accepts : TradeSession → TradeSession
clear_accepts s = record s {
  a = record s.a { accepted = false };
  b = record s.b { accepted = false };
}

-- An edit of the session that covers a player, by that player's side. `early` is a refusal that comes
-- before the side is looked up.
unfoldable pub edit_session :
    {A : Type 0}
    → ℕ
    → Option TradeError
    → (TradeSession → TradeSide → Result TradeError (A × TradeSession))
    → TradeManager
    → Traded A
edit_session cid early f m = elim (m.by_cid cid) [
  | none ↦ (err not_trading, m)
  | some id ↦ elim (m.sessions id) [
    | none ↦ (err not_trading, m)
    | some s ↦ elim early [
      | some e ↦ (err e, m)
      | none ↦ elim (side_of cid s) [
        | none ↦ (err not_trading, m)
        | some side ↦ elim (f s side) [
          | err e ↦ (err e, m)
          | ok (a, s') ↦ (ok a, record m { sessions = insert id s' m.sessions })
        ]
      ]
    ]
  ]
]

abbrev pub bad_slot : ℕ → Option TradeError
bad_slot window_slot = if leb trade_slots window_slot then some no_such_slot else none

abbrev pub same_place : Offer → Option Offer → Bool
same_place offer none = false
same_place offer (some o) = str_eq o.location offer.location && o.slot == offer.slot

abbrev pub put_offer : ℕ → Option Offer → TradeSide → TradeSide
put_offer window_slot o side = record side { offers = set side.offers window_slot o }

unfoldable pub offer_item : ℕ → ℕ → Offer → TradeManager → Traded (Unit {0})
offer_item cid window_slot offer = edit_session cid (bad_slot window_slot) λ s side.
    if any (same_place offer) side.offers
    then err already_offered
    else if is_some (get_or side.offers window_slot none)
    then err slot_taken
    else ok (tt, clear_accepts (set_side cid (put_offer window_slot (some offer) side) s))

unfoldable pub retrieve_item : ℕ → ℕ → TradeManager → Traded (Unit {0})
retrieve_item cid window_slot = edit_session cid (bad_slot window_slot) λ s side.
    if is_none (get_or side.offers window_slot none)
    then err slot_empty
    else ok (tt, clear_accepts (set_side cid (put_offer window_slot none side) s))

unfoldable pub offer_coins : ℕ → CoinAmount → TradeManager → Traded (Unit {0})
offer_coins cid coins =
    edit_session cid none
      λ s side. ok (tt, clear_accepts (set_side cid (record side { coins = coins.get }) s))

abbrev pub both_accepted : TradeSession → Bool
both_accepted s = s.a.accepted && s.b.accepted

unfoldable pub accept : ℕ → TradeManager → Traded Bool
accept cid = edit_session cid none λ s side.
    let pressed = set_side cid (record side { accepted = true }) s in
    ok (both_accepted pressed, pressed)

unfoldable pub clear_accepts_of : ℕ → TradeManager → TradeManager
clear_accepts_of cid m = elim (m.by_cid cid) [
  | none ↦ m
  | some id ↦ elim (m.sessions id) [
    | none ↦ m
    | some s ↦ record m { sessions = insert id (clear_accepts s) m.sessions }
  ]
]

unfoldable pub close : ℕ → TradeManager → Option TradeSession × TradeManager
close cid m = elim (m.by_cid cid) [
  | none ↦ (none, m)
  | some id ↦
      let without = remove cid m.by_cid in
      elim (m.sessions id) [
        | none ↦ (none, record m { by_cid = without })
        | some s ↦ (
          some s,
          record m {
            sessions = remove id m.sessions;
            by_cid = remove s.b.cid (remove s.a.cid without);
          },
        )
      ]
]

-- `bag_key(loc) == Some(slot)`
abbrev pub is_key : Option ℕ → ℕ → Bool
is_key none slot = false
is_key (some k) slot = k == slot

-- A bag reference and the base slot that holds the bag lock each other.
abbrev pub offer_locks : String → ℕ → Option Offer → Bool
offer_locks location slot none = false
offer_locks location slot (some o) =
    (str_eq o.location location && o.slot == slot)
    || (str_eq location "base" && is_key (bag_key o.location) slot)
    || (str_eq o.location "base" && is_key (bag_key location) o.slot)

unfoldable pub is_locked : ℕ → String → ℕ → TradeManager → Bool
is_locked cid location slot m = elim (session_of cid m) [
  | none ↦ false
  | some s ↦ elim (side_of cid s) [
    | none ↦ false
    | some side ↦ any (offer_locks location slot) side.offers
  ]
]
