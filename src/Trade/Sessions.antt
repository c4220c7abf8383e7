-- ===== src/Trade/Sessions.antt =====
-- The session table of trade.rs: every player is in one session at most, and the index agrees with
-- the sessions, whatever is called.
use project_dawn_server.Trade.{new_session, TradeSession, open_trade, new, TradeManager}
use project_dawn_server.Base.{
  u64_mod, Option-cases, inr, inl, ◌%◌, ◌==◌, refl, insert, arith, Bool-cases, ◌≤◌, none, ◌⊎◌, ◌≢◌,
  ◌<◌, ◌≡◌, ◌+◌, some, Option, ℕ,
}

abbrev pub Covers : ℕ → Option TradeSession → Type 0
Covers cid none = ⊥
Covers cid (some s) = (s.a.cid ≡ cid) ⊎ (s.b.cid ≡ cid)

-- The index sends each player to a session that covers them, and each session's two players, who
-- differ, back to it.
pub record IsConsistent (m : TradeManager) : Type 0 where
  pub covered : (cid id : ℕ) → m.by_cid cid ≡ some id → Covers cid (m.sessions id)
  pub listed_a : (id : ℕ) (s : TradeSession) → m.sessions id ≡ some s → m.by_cid s.a.cid ≡ some id
  pub listed_b : (id : ℕ) (s : TradeSession) → m.sessions id ≡ some s → m.by_cid s.b.cid ≡ some id
  pub apart : (id : ℕ) (s : TradeSession) → m.sessions id ≡ some s → s.a.cid ≢ s.b.cid
  pub fresh : (id : ℕ) → m.next_id ≤ id → m.sessions id ≡ none

pub new-IsConsistent : IsConsistent new
unfolding new
new-IsConsistent = record {
  covered = λ cid id h. cc;
  listed_a = λ id s h. cc;
  listed_b = λ id s h. cc;
  apart = λ id s h. cc;
  fresh = λ id h. refl;
}

module _ (a b : ℕ) (m : TradeManager) (room : m.next_id + 1 < u64_mod) (c : IsConsistent m)
    (differ : a ≢ b) (free_a : m.by_cid a ≡ none) (free_b : m.by_cid b ≡ none) where
  opened : TradeManager
  opened = record {
    sessions = insert m.next_id (new_session a b) m.sessions;
    by_cid = insert b m.next_id (insert a m.next_id m.by_cid);
    next_id = (m.next_id + 1) % u64_mod;
  }

  opened-IsConsistent : IsConsistent opened
  unfolding opened
  opened-IsConsistent = record {
    covered = λ cid id h. ground (arith, c.covered cid id, c.fresh m.next_id);
    listed_a = λ id s h. ground (arith, c.listed_a id s, c.fresh m.next_id);
    listed_b = λ id s h. ground (arith, c.listed_b id s, c.fresh m.next_id);
    apart = λ id s h. ground (arith, c.apart id s);
    fresh = λ id h. ground (arith, c.fresh id);
  }

-- Opening a session keeps the table consistent, while session numbers last.
pub open_trade-IsConsistent :
    (a b : ℕ) (m : TradeManager)
    → m.next_id + 1 < u64_mod
    → IsConsistent m
    → IsConsistent (open_trade a b m).1
unfolding open_trade opened
open_trade-IsConsistent a b m room c = elim (Bool-cases (a == b)) [
  | inl same ↦ rw same c
  | inr differ ↦ rw differ (elim (Option-cases (m.by_cid a)) [
    | inr (x, busy) ↦ rw busy c
    | inl free_a ↦ rw free_a (elim (Option-cases (m.by_cid b)) [
      | inr (x, busy) ↦ rw busy c
      | inl free_b ↦
          rw free_b
            (opened-IsConsistent a b m room c (λ e. ground (arith, differ, e)) free_a free_b)
    ])
  ])
]
