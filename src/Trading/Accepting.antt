-- ===== src/Trading/Accepting.antt =====
-- A player's accept, where the coins of the trades fit their purses.
use project_dawn_server.Trading.Accepted.{session_in, accept_intent-Accepted, Accepted, SafeOffers}
use project_dawn_server.Trading.Commit.{FitsI64, Settles, settle_coins-Settles}
use project_dawn_server.Trading.Outcome.{Unmoved, Completes}
use project_dawn_server.Inventory.Valid.{IsValid}
use project_dawn_server.Trade.Sessions.{IsConsistent}
use project_dawn_server.Trade.Edits.{edit_session_cases}
use project_dawn_server.Trading.{
  failed, does_not_fit, offers_changed, coins_not_covered, not_together, waiting, refused, complete,
  accept_intent, Verdict, WorldState,
}
use project_dawn_server.Connection.{PerConnection}
use project_dawn_server.Trade.{side_of, session_of, set_side, TradeSession, accept, TradeManager}
use project_dawn_server.Items.{IsRegistry, Registry}
use project_dawn_server.Base.{sym, ap, ◌∙◌, ℕ_discrete, arith, some, none, ◌≡◌, Bool, ℕ}

-- What both traders have after the trade fits an i64 in each tier.
abbrev pub CoinsFit : TradeSession → WorldState → Type 0
CoinsFit s w =
    ((c : PerConnection) → w.connections s.a.cid ≡ some c → FitsI64 s.a.coins s.b.coins c.coins)
    × ((c : PerConnection) → w.connections s.b.cid ≡ some c → FitsI64 s.b.coins s.a.coins c.coins)

abbrev pub TradesFit : TradeManager → WorldState → Type 0
TradesFit m w = (id : ℕ) (s : TradeSession) → m.sessions id ≡ some s → CoinsFit s w

-- An accept leaves the players of a session and the coins that they offer as they were.
accept-TradesFit :
    (cid : ℕ) (m : TradeManager) (w : WorldState) → TradesFit m w → TradesFit (accept cid m).1 w
unfolding accept set_side side_of
accept-TradesFit cid m w fit =
    edit_session_cases (λ r. TradesFit r.1 w) cid none _ m (λ e. fit)
      λ id s side done t known there fine mine edited j u h. elim (ℕ_discrete j id) [
        | no ne ↦ fit j u (ground (arith, ne, h))
        | yes same ↦
            let old = fit id s there in
            let cid_a : u.a.cid ≡ s.a.cid = ground (arith, same, h, edited, mine) in
            let cid_b : u.b.cid ≡ s.b.cid = ground (arith, same, h, edited, mine) in
            let coins_a : u.a.coins ≡ s.a.coins = ground (arith, same, h, edited, mine) in
            let coins_b : u.b.coins ≡ s.b.coins = ground (arith, same, h, edited, mine) in
            (
              λ c was. rw (coins_a, coins_b) (old.0 c (ap w.connections (sym cid_a) ∙ was)),
              λ c was. rw (coins_a, coins_b) (old.1 c (ap w.connections (sym cid_b) ∙ was)),
            )
      ]

-- A trade between two players that keeps every coin.
abbrev pub CompletesExactly : Registry → TradeSession → WorldState → WorldState → Type 0
CompletesExactly items s w after =
    (done : Completes items s w after) × Settles s.a.coins s.b.coins done.a.coins done.a'.coins
    × Settles s.b.coins s.a.coins done.b.coins done.b'.coins

abbrev pub AcceptsTrade : Registry → ℕ → WorldState → Verdict × WorldState → Type 0
AcceptsTrade items cid w (complete a_touched b_touched, after) =
    (s : TradeSession) × (session_of cid (accept cid w.trade_manager).1 ≡ some s)
    × CompletesExactly items s (record w { trade_manager = (accept cid w.trade_manager).1 }) after
AcceptsTrade items cid w (refused e, after) = Unmoved w after
AcceptsTrade items cid w (waiting, after) = Unmoved w after
AcceptsTrade items cid w (not_together, after) = Unmoved w after
AcceptsTrade items cid w (coins_not_covered, after) = Unmoved w after
AcceptsTrade items cid w (offers_changed, after) = Unmoved w after
AcceptsTrade items cid w (does_not_fit, after) = Unmoved w after
AcceptsTrade items cid w (failed, after) = Unmoved w after

completed_exactly :
    (items : Registry) (s : TradeSession) (w after : WorldState)
    → CoinsFit s w
    → Completes items s w after
    → CompletesExactly items s w after
completed_exactly items s w after fit done = (
  done,
  settle_coins-Settles s.a.coins s.b.coins done.a.coins done.a'.coins done.a_covered
      (fit.0 done.a done.a_was) done.a_trades.coins,
  settle_coins-Settles s.b.coins s.a.coins done.b.coins done.b'.coins done.b_covered
      (fit.1 done.b done.b_was) done.b_trades.coins,
)

Accepted-AcceptsTrade :
    (items : Registry) (cid : ℕ) (w : WorldState) (out : Verdict × WorldState)
    → TradesFit w.trade_manager w
    → Accepted items cid w out
    → AcceptsTrade items cid w out
Accepted-AcceptsTrade items cid w (complete a_touched b_touched, after) fit (s, mine, done) =
    let m = (accept cid w.trade_manager).1 in
    let (id, there) = session_in cid m s mine in
    (
      s,
      mine,
      completed_exactly items s (record w { trade_manager = m }) after
          (accept-TradesFit cid w.trade_manager w fit id s there) done,
    )
Accepted-AcceptsTrade items cid w (refused e, after) fit same = same
Accepted-AcceptsTrade items cid w (waiting, after) fit same = same
Accepted-AcceptsTrade items cid w (not_together, after) fit same = same
Accepted-AcceptsTrade items cid w (coins_not_covered, after) fit same = same
Accepted-AcceptsTrade items cid w (offers_changed, after) fit same = same
Accepted-AcceptsTrade items cid w (does_not_fit, after) fit same = same
Accepted-AcceptsTrade items cid w (failed, after) fit same = same

-- Where the table is consistent, no window offers the stack in a hand, the inventories are well
-- formed, the registry has positive stack sizes that fit a u32, and for every session each tier
-- of the purse of each trader fits an i64 both before and with the coins of the own window taken
-- out and those of the other window put in, an accept either completes the trade, and then each
-- trader has a well-formed inventory with, of every item and of every tier of coins, what it had
-- less what its window showed and what the other window showed, the other players are as they
-- were and the session is closed; or it leaves the inventory and the purse of every player as
-- they were.
pub accept_intent-AcceptsTrade :
    (items : Registry) (together : PerConnection → PerConnection → Bool)
    (lands : PerConnection → Bool) (commits : PerConnection → PerConnection → Bool) (cid : ℕ)
    (w : WorldState)
    → IsRegistry items
    → IsConsistent w.trade_manager
    → SafeOffers w.trade_manager
    → ((k : ℕ) (c : PerConnection) → w.connections k ≡ some c → IsValid items c.inventory)
    → TradesFit w.trade_manager w
    → AcceptsTrade items cid w (accept_intent items together lands commits cid w)
accept_intent-AcceptsTrade items together lands commits cid w reg consistent safe valid fit =
    Accepted-AcceptsTrade items cid w (accept_intent items together lands commits cid w) fit
      (accept_intent-Accepted items together lands commits cid w reg consistent safe valid)
