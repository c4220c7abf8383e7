-- ===== src/Trading/Accepted.antt =====
-- A player's accept, whatever it leads to, with the coins as the machine counts them.
use project_dawn_server.Trading.Swaps.{shown}
use project_dawn_server.Trading.Terms.{OffHand}
use project_dawn_server.Inventory.Valid.{IsValid}
use project_dawn_server.Trade.Sessions.{IsConsistent}
use project_dawn_server.Trading.Intent.{commit-Commits, OffHands}
use project_dawn_server.Trading.Outcome.{Unmoved, Completes, Commits}
use project_dawn_server.Trade.Edits.{accept-IsConsistent, edit_session_cases}
use project_dawn_server.Trading.{
  failed, does_not_fit, commit, offers_changed, coins_not_covered, not_together, waiting, refused,
  complete, accept_intent, Verdict, WorldState,
}
use project_dawn_server.Connection.{PerConnection}
use project_dawn_server.Trade.{side_of, session_of, set_side, TradeSession, accept, TradeManager}
use project_dawn_server.Items.{IsRegistry, Registry}
use project_dawn_server.Base.{
  sym, subst, ℕ_discrete, refl, Bool-cases, Result-cases, inr, inl, arith, Option-cases, some, none,
  ◌≡◌, Bool, ℕ,
}

-- No window on the table offers the stack in a hand.
abbrev pub SafeOffers : TradeManager → Type 0
SafeOffers m = (id : ℕ) (s : TradeSession) → m.sessions id ≡ some s → OffHands s

-- An accept leaves the windows as they were.
pub accept-SafeOffers : (cid : ℕ) (m : TradeManager) → SafeOffers m → SafeOffers (accept cid m).1
unfolding accept set_side side_of
accept-SafeOffers cid m safe =
    edit_session_cases (λ r. SafeOffers r.1) cid none _ m (λ e. safe)
      λ id s side done t known there fine mine edited j u h. elim (ℕ_discrete j id) [
        | no ne ↦ safe j u (ground (arith, ne, h))
        | yes same ↦
            let off = safe id s there in
            let as_a : u.a.offers ≡ s.a.offers = ground (arith, same, h, edited, mine) in
            let as_b : u.b.offers ≡ s.b.offers = ground (arith, same, h, edited, mine) in
            (
              subst (λ o. OffHand (shown o)) (sym as_a) off.0,
              subst (λ o. OffHand (shown o)) (sym as_b) off.1,
            )
      ]

abbrev pub Accepted : Registry → ℕ → WorldState → Verdict × WorldState → Type 0
Accepted items cid w (complete a_touched b_touched, after) =
    (s : TradeSession) × (session_of cid (accept cid w.trade_manager).1 ≡ some s)
    × Completes items s (record w { trade_manager = (accept cid w.trade_manager).1 }) after
Accepted items cid w (refused e, after) = Unmoved w after
Accepted items cid w (waiting, after) = Unmoved w after
Accepted items cid w (not_together, after) = Unmoved w after
Accepted items cid w (coins_not_covered, after) = Unmoved w after
Accepted items cid w (offers_changed, after) = Unmoved w after
Accepted items cid w (does_not_fit, after) = Unmoved w after
Accepted items cid w (failed, after) = Unmoved w after

-- The session of a player is on the table.
pub session_in :
    (cid : ℕ) (m : TradeManager) (s : TradeSession)
    → session_of cid m ≡ some s
    → (id : ℕ) × (m.sessions id ≡ some s)
unfolding session_of
session_in cid m s h = elim (Option-cases (m.by_cid cid)) [
  | inl gone ↦ absurd (ground (arith, gone, h))
  | inr (id, known) ↦ (id, ground (arith, known, h))
]

module _ (items : Registry) (together : PerConnection → PerConnection → Bool)
    (lands : PerConnection → Bool) (commits : PerConnection → PerConnection → Bool) (cid : ℕ)
    (w : WorldState) where
  pressed : WorldState
  pressed = record w { trade_manager = (accept cid w.trade_manager).1 }

  committed-Accepted :
      (s : TradeSession)
      → session_of cid pressed.trade_manager ≡ some s
      → (out : Verdict × WorldState) → Commits items s pressed out
      → Accepted items cid w out
  unfolding pressed
  committed-Accepted s mine (complete a_touched b_touched, after) done = (s, mine, done)
  committed-Accepted s mine (refused e, after) done = done
  committed-Accepted s mine (waiting, after) done = done
  committed-Accepted s mine (not_together, after) done = done
  committed-Accepted s mine (coins_not_covered, after) done = done
  committed-Accepted s mine (offers_changed, after) done = done
  committed-Accepted s mine (does_not_fit, after) done = done
  committed-Accepted s mine (failed, after) done = done

  pub accept_intent-Accepted :
      IsRegistry items
      → IsConsistent w.trade_manager
      → SafeOffers w.trade_manager
      → ((k : ℕ) (c : PerConnection) → w.connections k ≡ some c → IsValid items c.inventory)
      → Accepted items cid w (accept_intent items together lands commits cid w)
  unfolding accept_intent pressed
  accept_intent-Accepted reg consistent safe valid =
      let m = (accept cid w.trade_manager).1 in
      elim (Result-cases (accept cid w.trade_manager).0) [
        | inr (e, no_session) ↦ rw (no_session, accept_intent) (λ k. refl)
        | inl (both, pressed_it) ↦
            rw (pressed_it, accept_intent)
              (elim (Bool-cases both) [
                | inr alone ↦ rw alone (λ k. refl)
                | inl agreed ↦ rw agreed (elim (Option-cases (session_of cid m)) [
                  | inl gone ↦ rw gone (λ k. refl)
                  | inr (s, mine) ↦
                      let (id, there) = session_in cid m s mine in
                      let table = accept-IsConsistent cid w.trade_manager consistent in
                      rw mine (
                        committed-Accepted s mine (commit items together lands commits s pressed) (
                          commit-Commits items together lands commits s pressed reg
                            (table.apart id s there) valid
                            (accept-SafeOffers cid w.trade_manager safe id s there)))
                ])
              ])
      ]
