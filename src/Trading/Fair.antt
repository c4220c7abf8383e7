-- ===== src/Trading/Fair.antt =====
-- Any intents that players send keep the table in order, the hands out of the windows, and every
-- inventory well formed.
use project_dawn_server.Inventory.Valid.{IsValid}
use project_dawn_server.Trading.Closed.{
  open_trade-SafeOffers, offer_item-SafeOffers, offer_coins-SafeOffers, retrieve_item-SafeOffers,
  close-SafeOffers, clear_accepts_of-SafeOffers,
}
use project_dawn_server.Trading.Accepted.{Accepted, accept-SafeOffers, SafeOffers}
use project_dawn_server.Connection.{PerConnection}
use project_dawn_server.Trading.Outcome.{Unmoved, Completes}
use project_dawn_server.Trade.Closing.{close-IsConsistent}
use project_dawn_server.Trade.Reach.{edit_session-next_id, clear_accepts_of-IsConsistent}
use project_dawn_server.Trade.Edits.{
  offer_item-IsConsistent, offer_coins-IsConsistent, retrieve_item-IsConsistent,
  accept-IsConsistent,
}
use project_dawn_server.Trade.Sessions.{open_trade-IsConsistent, IsConsistent}
use project_dawn_server.Coins.{CoinAmount}
use project_dawn_server.Trade.{
  bad_slot, TradeSession, Offer, retrieve_item, open_trade, offer_item, offer_coins, close,
  clear_accepts_of, accept, TradeManager,
}
use project_dawn_server.Items.{Registry}
use project_dawn_server.Trading.Tables.{KeptByCalls}
use project_dawn_server.Trading.{
  Verdict, WorldState, complete, refused, waiting, not_together, coins_not_covered, offers_changed,
  does_not_fit, failed,
}
use project_dawn_server.Base.{
  ◌∙◌, sym, inr, subst, none, inl, ◌≤◌, ℕ_discrete, u64_mod, some, false, Option-cases, str_eq,
  arith, ◌<◌, ◌≡◌, ◌+◌, ℕ,
}

-- The table is in order, and has given out `n` session numbers at most.
pub record Orderly (n : ℕ) (m : TradeManager) : Type 0 where
  pub consistent : IsConsistent m
  pub safe : SafeOffers m
  pub numbered : m.next_id ≤ n

abbrev pub AllValid : Registry → WorldState → Type 0
AllValid items w =
    (k : ℕ) (c : PerConnection) → w.connections k ≡ some c → IsValid items c.inventory

close-next_id : (cid : ℕ) (m : TradeManager) → (close cid m).1.next_id ≡ m.next_id
unfolding close
close-next_id cid m = ground arith

clear_accepts_of-next_id :
    (cid : ℕ) (m : TradeManager) → (clear_accepts_of cid m).next_id ≡ m.next_id
unfolding clear_accepts_of
clear_accepts_of-next_id cid m = ground arith

pub close-Orderly : (n cid : ℕ) (m : TradeManager) → Orderly n m → Orderly n (close cid m).1
close-Orderly n cid m o = record {
  consistent = close-IsConsistent cid m o.consistent;
  safe = close-SafeOffers cid m o.safe;
  numbered = omega (arith, close-next_id cid m, o.numbered);
}

clear-Orderly : (n cid : ℕ) (m : TradeManager) → Orderly n m → Orderly n (clear_accepts_of cid m)
clear-Orderly n cid m o = record {
  consistent = clear_accepts_of-IsConsistent cid m o.consistent;
  safe = clear_accepts_of-SafeOffers cid m o.safe;
  numbered = omega (arith, clear_accepts_of-next_id cid m, o.numbered);
}

pub retrieve_item-Orderly :
    (n cid i : ℕ) (m : TradeManager) → Orderly n m → Orderly n (retrieve_item cid i m).1
unfolding retrieve_item
retrieve_item-Orderly n cid i m o = record {
  consistent = retrieve_item-IsConsistent cid i m o.consistent;
  safe = retrieve_item-SafeOffers cid i m o.safe;
  numbered = omega (arith, edit_session-next_id cid (bad_slot i) _ m, o.numbered);
}

pub offer_item-Orderly :
    (n cid i : ℕ) (x : Offer) (m : TradeManager)
    → str_eq x.location "cursor" ≡ false
    → Orderly n m
    → Orderly n (offer_item cid i x m).1
unfolding offer_item
offer_item-Orderly n cid i x m away o = record {
  consistent = offer_item-IsConsistent cid i x m o.consistent;
  safe = offer_item-SafeOffers cid i x m away o.safe;
  numbered = omega (arith, edit_session-next_id cid (bad_slot i) _ m, o.numbered);
}

pub offer_coins-Orderly :
    (n cid : ℕ) (c : CoinAmount) (m : TradeManager)
    → Orderly n m
    → Orderly n (offer_coins cid c m).1
unfolding offer_coins
offer_coins-Orderly n cid c m o = record {
  consistent = offer_coins-IsConsistent cid c m o.consistent;
  safe = offer_coins-SafeOffers cid c m o.safe;
  numbered = omega (arith, edit_session-next_id cid none _ m, o.numbered);
}

pub accept-Orderly : (n cid : ℕ) (m : TradeManager) → Orderly n m → Orderly n (accept cid m).1
unfolding accept
accept-Orderly n cid m o = record {
  consistent = accept-IsConsistent cid m o.consistent;
  safe = accept-SafeOffers cid m o.safe;
  numbered = omega (arith, edit_session-next_id cid none _ m, o.numbered);
}

pub open_trade-Orderly :
    (n a b : ℕ) (m : TradeManager)
    → n + 1 < u64_mod
    → Orderly n m
    → Orderly (n + 1) (open_trade a b m).1
unfolding open_trade
open_trade-Orderly n a b m room o = record {
  consistent = open_trade-IsConsistent a b m (omega (arith, o.numbered, room)) o.consistent;
  safe = open_trade-SafeOffers a b m o.safe;
  numbered = ground (arith, o.numbered, room);
}

pub Orderly-calls : (n : ℕ) → KeptByCalls (Orderly n)
Orderly-calls n = record {
  closing = close-Orderly n;
  clearing = clear-Orderly n;
  retrieving = retrieve_item-Orderly n;
}

-- Where the holdings are as they were, the inventories are well formed as they were.
Unmoved-AllValid :
    (items : Registry) (w after : WorldState)
    → Unmoved w after
    → AllValid items w
    → AllValid items after
Unmoved-AllValid items w after same valid k c there = elim (Option-cases (w.connections k)) [
  | inl gone ↦ absurd (ground (arith, gone, there, same k))
  | inr (d, was) ↦
      let inv : d.inventory ≡ c.inventory = ground (arith, was, there, same k) in
      subst (IsValid items) inv (valid k d was)
]

Completes-AllValid :
    (items : Registry) (s : TradeSession) (w after : WorldState)
    → Completes items s w after
    → AllValid items w
    → AllValid items after
Completes-AllValid items s w after done valid k c there = elim (ℕ_discrete k s.a.cid) [
  | yes is_a ↦
      let it : done.a'.inventory ≡ c.inventory = ground (arith, is_a, there, done.a_is) in
      subst (IsValid items) it done.a_trades.valid
  | no not_a ↦ elim (ℕ_discrete k s.b.cid) [
    | yes is_b ↦
        let it : done.b'.inventory ≡ c.inventory = ground (arith, is_b, there, done.b_is) in
        subst (IsValid items) it done.b_trades.valid
    | no not_b ↦ valid k c (sym (done.others k not_a not_b) ∙ there)
  ]
]

pub Accepted-AllValid :
    (items : Registry) (cid : ℕ) (w : WorldState) (out : Verdict × WorldState)
    → Accepted items cid w out
    → AllValid items w
    → AllValid items out.1
Accepted-AllValid items cid w (complete x y, after) (s, mine, done) valid =
    Completes-AllValid items s (record w { trade_manager = (accept cid w.trade_manager).1 }) after
      done valid
Accepted-AllValid items cid w (refused e, after) same valid =
    Unmoved-AllValid items w after same valid
Accepted-AllValid items cid w (waiting, after) same valid =
    Unmoved-AllValid items w after same valid
Accepted-AllValid items cid w (not_together, after) same valid =
    Unmoved-AllValid items w after same valid
Accepted-AllValid items cid w (coins_not_covered, after) same valid =
    Unmoved-AllValid items w after same valid
Accepted-AllValid items cid w (offers_changed, after) same valid =
    Unmoved-AllValid items w after same valid
Accepted-AllValid items cid w (does_not_fit, after) same valid =
    Unmoved-AllValid items w after same valid
Accepted-AllValid items cid w (failed, after) same valid = Unmoved-AllValid items w after same valid
