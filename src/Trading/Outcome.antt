-- ===== src/Trading/Outcome.antt =====
-- What the commit of an agreed trade leaves, in every case.
use project_dawn_server.Trading.Swaps.{Swaps, shown}
use project_dawn_server.Coins.{has_at_least, Purse}
use project_dawn_server.Trading.Commit.{TradesIf, apply_side-Trades, Trades, Same}
use project_dawn_server.Inventory.State.{PlayerInventory}
use project_dawn_server.Connection.{PerConnection, ledger_rollback}
use project_dawn_server.Trading.{
  apply_side, failed, does_not_fit, apply_both, swap_in, offers_changed, coins_not_covered,
  not_together, with_pair, waiting, events_cleared, revert, refused, close_trade, complete, Verdict,
  WorldState,
}
use project_dawn_server.Trade.{close, Offer, TradeSession}
use project_dawn_server.Items.{Registry}
use project_dawn_server.Base.{
  subst, Bool-cases, inr, inl, Option-cases, refl, true, arith, none, ◌≢◌, some, Bool, ◌≡◌, List,
  Option, ℕ,
}

-- What a player holds, without what is only bookkeeping.
abbrev pub holdings : Option PerConnection → Option (PlayerInventory × Purse)
holdings none = none
holdings (some c) = some (c.inventory, c.coins)

-- Both traders hold what they held in place of what they gave, the session is closed, and the other
-- players are as they were.
pub record Completes (items : Registry) (s : TradeSession) (w after : WorldState) : Type 0 where
  pub a : PerConnection
  pub b : PerConnection
  pub a' : PerConnection
  pub b' : PerConnection
  pub a_was : w.connections s.a.cid ≡ some a
  pub b_was : w.connections s.b.cid ≡ some b
  pub a_is : after.connections s.a.cid ≡ some a'
  pub b_is : after.connections s.b.cid ≡ some b'
  pub a_covered : has_at_least a.coins s.a.coins ≡ true
  pub b_covered : has_at_least b.coins s.b.coins ≡ true
  pub a_trades : Trades items (shown s.a.offers) (shown s.b.offers) s.a.coins s.b.coins a a'
  pub b_trades : Trades items (shown s.b.offers) (shown s.a.offers) s.b.coins s.a.coins b b'
  pub others : (cid : ℕ) → cid ≢ s.a.cid → cid ≢ s.b.cid → after.connections cid ≡ w.connections cid
  pub closed : after.trade_manager ≡ (close s.a.cid w.trade_manager).1

abbrev pub Unmoved : WorldState → WorldState → Type 0
Unmoved w after = (cid : ℕ) → holdings (after.connections cid) ≡ holdings (w.connections cid)

abbrev pub Commits : Registry → TradeSession → WorldState → Verdict × WorldState → Type 0
Commits items s w (complete a_touched b_touched, after) = Completes items s w after
Commits items s w (refused e, after) = Unmoved w after
Commits items s w (waiting, after) = Unmoved w after
Commits items s w (not_together, after) = Unmoved w after
Commits items s w (coins_not_covered, after) = Unmoved w after
Commits items s w (offers_changed, after) = Unmoved w after
Commits items s w (does_not_fit, after) = Unmoved w after
Commits items s w (failed, after) = Unmoved w after

pub with_pair-Unmoved :
    (s : TradeSession) (w : WorldState) (a0 b0 a b : PerConnection)
    → w.connections s.a.cid ≡ some a0
    → w.connections s.b.cid ≡ some b0
    → Same a0 a
    → Same b0 b
    → Unmoved w (close_trade s.a.cid (with_pair s a b w))
with_pair-Unmoved s w a0 b0 a b a_was b_was sa sb cid = ground (arith, a_was, b_was, sa, sb)

revert-Same : (a0 before conn : PerConnection) → Same a0 before → Same a0 (revert before conn)
unfolding ledger_rollback
revert-Same a0 before conn same = same

Trades-cleared :
    (items : Registry) (gives receives : List Offer) (pay gain : Purse)
    (before after : PerConnection)
    → Trades items gives receives pay gain before after
    → Trades items gives receives pay gain before (events_cleared after)
Trades-cleared items gives receives pay gain before after t = record {
  valid = t.valid;
  stacks = t.stacks;
  coins = t.coins;
}

module _ (items : Registry) (together : PerConnection → PerConnection → Bool)
    (lands : PerConnection → Bool) (commits : PerConnection → PerConnection → Bool)
    (s : TradeSession) (w : WorldState) (a0 b0 : PerConnection) (apart : s.a.cid ≢ s.b.cid)
    (a_was : w.connections s.a.cid ≡ some a0) (b_was : w.connections s.b.cid ≡ some b0)
    (a_covered : has_at_least a0.coins s.a.coins ≡ true)
    (b_covered : has_at_least b0.coins s.b.coins ≡ true)
    (a_swaps : Swaps items
      (shown s.a.offers)
      (shown s.b.offers)
      a0.inventory
      (swap_in items (shown s.a.offers) (shown s.b.offers) a0.inventory))
    (b_swaps : Swaps items
      (shown s.b.offers)
      (shown s.a.offers)
      b0.inventory
      (swap_in items (shown s.b.offers) (shown s.a.offers) b0.inventory)) where
  completed :
      (a' b' : PerConnection)
      → Trades items (shown s.a.offers) (shown s.b.offers) s.a.coins s.b.coins a0 a'
      → Trades items (shown s.b.offers) (shown s.a.offers) s.b.coins s.a.coins b0 b'
      → Completes items s w
          (close_trade s.a.cid (with_pair s (events_cleared a') (events_cleared b') w))
  completed a' b' ta tb = record {
    a = a0;
    b = b0;
    a' = events_cleared a';
    b' = events_cleared b';
    a_was = a_was;
    b_was = b_was;
    a_is = ground (arith, apart);
    b_is = ground arith;
    a_covered = a_covered;
    b_covered = b_covered;
    a_trades =
        Trades-cleared items (shown s.a.offers) (shown s.b.offers) s.a.coins s.b.coins a0 a' ta;
    b_trades =
        Trades-cleared items (shown s.b.offers) (shown s.a.offers) s.b.coins s.a.coins b0 b' tb;
    others = λ cid na nb. ground (arith, na, nb);
    closed = refl;
  }

  pub apply_both-Commits :
      (a b : PerConnection)
      → Same a0 a
      → Same b0 b
      → Commits items s w
          (apply_both items together lands commits s (shown s.a.offers) (shown s.b.offers) a b w)
  unfolding apply_both
  apply_both-Commits a b sa sb =
      let go_a =
        apply_side-Trades items s.b.cid (shown s.a.offers) (shown s.b.offers) s.a.coins s.b.coins a0
          a sa a_swaps in
      let go_b =
        apply_side-Trades items s.a.cid (shown s.b.offers) (shown s.a.offers) s.b.coins s.a.coins b0
          b sb b_swaps in
      let side_a =
        apply_side items s.b.cid (shown s.a.offers) (shown s.b.offers) s.a.coins s.b.coins a in
      let side_b =
        apply_side items s.a.cid (shown s.b.offers) (shown s.a.offers) s.b.coins s.a.coins b in
      elim (Option-cases side_a) [
        | inl stuck ↦ rw (stuck, apply_both) (with_pair-Unmoved s w a0 b0 a b a_was b_was sa sb)
        | inr ((a_touched, a'), done_a) ↦
            let ra = revert-Same a0 a a' sa in
            rw (done_a, apply_both)
              (elim (Option-cases side_b) [
                | inl stuck ↦
                    rw stuck (with_pair-Unmoved s w a0 b0 (revert a a') b a_was b_was ra sb)
                | inr ((b_touched, b'), done_b) ↦ rw done_b (elim (Bool-cases (commits a' b')) [
                  | inr lost ↦ rw lost (
                      with_pair-Unmoved s w a0 b0 (revert a a') (revert b b') a_was b_was ra
                        (revert-Same b0 b b' sb))
                  | inl kept ↦ rw kept (
                      completed a' b'
                        (subst
                          (TradesIf items (shown s.a.offers) (shown s.b.offers) s.a.coins s.b.coins
                            a0)
                          done_a go_a)
                        (subst
                          (TradesIf items (shown s.b.offers) (shown s.a.offers) s.b.coins s.a.coins
                            b0)
                          done_b go_b))
                ])
              ])
      ]
