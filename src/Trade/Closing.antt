-- ===== src/Trade/Closing.antt =====
-- How a trade session ends: the completing accept, and the close that frees both players.
use project_dawn_server.Trade.Sessions.{IsConsistent}
use project_dawn_server.Trade.{
  side_of, set_side, session_of, Traded, TradeSide, close, accept, TradeSession, TradeManager,
}
use project_dawn_server.Trade.Edits.{edit_session_cases}
use project_dawn_server.Base.{
  refl, arith, ◌==◌, if◌then◌else◌, inl, inr, Option-cases, ◌≢◌, ok, none, some, err, ◌≡◌, Bool,
  Option, ℕ,
}

-- The side across the table from a player.
abbrev pub partner_of : ℕ → TradeSession → TradeSide
partner_of cid s = if s.a.cid == cid then s.b else s.a

-- An accept leaves both offers as they were, and completes exactly when the partner had accepted.
abbrev pub Accepts : ℕ → TradeManager → Traded Bool → Type 0
Accepts cid m (err _, m') = m' ≡ m
Accepts cid m (ok done, m') =
    (s t : TradeSession) × (session_of cid m ≡ some s)
    × (session_of cid m' ≡ some t)
    × (done ≡ (partner_of cid s).accepted)
    × (t.a.offers ≡ s.a.offers)
    × (t.b.offers ≡ s.b.offers)
    × (t.a.coins ≡ s.a.coins)
    × (t.b.coins ≡ s.b.coins)

-- An accept either is refused and changes nothing, or leaves both offers and both purses of the
-- player's session as they were and reports completion exactly when the partner had accepted.
pub accept-Accepts : (cid : ℕ) (m : TradeManager) → Accepts cid m (accept cid m)
unfolding accept session_of set_side side_of
accept-Accepts cid m =
    edit_session_cases (Accepts cid m) cid none _ m (λ e. refl)
      λ id s side done t known there fine mine edited. (
        s,
        t,
        ground arith,
        ground arith,
        ground arith,
        ground arith,
        ground arith,
        ground arith,
        ground arith,
      )

-- A close that finds a session frees both of its players and forgets it, and leaves the other players
-- and sessions as they were.
abbrev pub Closes : ℕ → TradeManager → Option TradeSession × TradeManager → Type 0
Closes cid m (none, m') = session_of cid m ≡ none
Closes cid m (some s, m') =
    (session_of cid m ≡ some s)
    × (session_of s.a.cid m' ≡ none)
    × (session_of s.b.cid m' ≡ none)
    × ((c : ℕ) → c ≢ s.a.cid → c ≢ s.b.cid → session_of c m' ≡ session_of c m)

-- Closing from a consistent table reports no session exactly where the player has none, and
-- otherwise reports the player's session, leaves both its players without a session, and leaves
-- every other player's session as it was.
pub close-Closes : (cid : ℕ) (m : TradeManager) → IsConsistent m → Closes cid m (close cid m)
unfolding close session_of
close-Closes cid m c = elim (Option-cases (m.by_cid cid)) [
  | inl gone ↦ rw (gone, close) (ground arith)
  | inr (id, known) ↦ elim (Option-cases (m.sessions id)) [
    | inl gone ↦ absurd (ground (arith, c.covered cid id))
    | inr (s, there) ↦
        rw (known, there, close)
          (
            ground arith,
            ground arith,
            ground arith,
            λ other na nb. ground (arith, c.covered cid id, c.covered other id),
          )
  ]
]

pub close-IsConsistent :
    (cid : ℕ) (m : TradeManager) → IsConsistent m → IsConsistent (close cid m).1
unfolding close
close-IsConsistent cid m c = elim (Option-cases (m.by_cid cid)) [
  | inl gone ↦ rw (gone, close) c
  | inr (id, known) ↦ elim (Option-cases (m.sessions id)) [
    | inl gone ↦ absurd (ground (arith, c.covered cid id))
    | inr (s, there) ↦
        rw (known, there, close)
          (record {
            covered = λ x j h. ground (arith, c.covered cid id, c.covered x j);
            listed_a = λ j t h.
                ground (arith, c.covered cid id, c.listed_a id s, c.listed_b id s, c.listed_a j t);
            listed_b = λ j t h.
                ground (arith, c.covered cid id, c.listed_a id s, c.listed_b id s, c.listed_b j t);
            apart = λ j t h. ground (arith, c.apart j t);
            fresh = λ j h. ground (arith, c.fresh j);
          })
  ]
]
