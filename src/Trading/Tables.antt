-- ===== src/Trading/Tables.antt =====
-- What a commit does to the table is made of calls of the manager.
use project_dawn_server.Coins.{has_at_least}
use project_dawn_server.Connection.{persist_dirty_stores, PerConnection}
use project_dawn_server.Items.{Registry}
use project_dawn_server.Trade.{
  Offer, TradeSession, retrieve_item, clear_accepts_of, close, TradeManager,
}
use project_dawn_server.Base.{
  is_empty, inr, Bool-cases, not, inl, Option-cases, ◌&&◌, [], ◌∷◌, Bool, List, ℕ,
}
use project_dawn_server.Trading.{
  changed, simulate, apply_side, flush_and_apply, commit_between, commit, apply_both, WorldState,
  retrieve_all, resolve,
}

-- A property of the table that the calls of a commit keep.
pub record KeptByCalls (P : TradeManager → Type 0) : Type 0 where
  pub closing : (cid : ℕ) (m : TradeManager) → P m → P (close cid m).1
  pub clearing : (cid : ℕ) (m : TradeManager) → P m → P (clear_accepts_of cid m)
  pub retrieving : (cid i : ℕ) (m : TradeManager) → P m → P (retrieve_item cid i m).1

module _ (P : TradeManager → Type 0) (kept : KeptByCalls P) where
  retrieve_all-kept :
      (owner : ℕ) (slots : List ℕ) (m : TradeManager) → P m → P (retrieve_all owner slots m)
  unfolding retrieve_all
  retrieve_all-kept owner [] m h = h
  retrieve_all-kept owner (i ∷ slots) m h =
      retrieve_all-kept owner slots (retrieve_item owner i m).1 (kept.retrieving owner i m h)

  module _ (items : Registry) (together : PerConnection → PerConnection → Bool)
      (lands : PerConnection → Bool) (commits : PerConnection → PerConnection → Bool)
      (s : TradeSession) (w : WorldState) (h : P w.trade_manager) where
    closed : P (close s.a.cid w.trade_manager).1
    closed = kept.closing s.a.cid w.trade_manager h

    apply_both-table :
        (a_gives b_gives : List Offer) (a b : PerConnection)
        → P (apply_both items together lands commits s a_gives b_gives a b w).1.trade_manager
    unfolding apply_both
    apply_both-table a_gives b_gives a b =
        elim (Option-cases (apply_side items s.b.cid a_gives b_gives s.a.coins s.b.coins a)) [
          | inl stuck ↦ rw (stuck, apply_both) closed
          | inr ((a_touched, a'), done_a) ↦
              rw (done_a, apply_both)
                (elim (Option-cases
                  (apply_side items s.a.cid b_gives a_gives s.b.coins s.a.coins b)) [
                    | inl stuck ↦ rw stuck closed
                    | inr ((b_touched, b'), done_b) ↦ rw done_b (elim (Bool-cases (commits a' b')) [
                      | inl stored ↦ rw stored closed
                      | inr lost ↦ rw lost closed
                    ])
                  ])
        ]

    flush_and_apply-table :
        (a_gives b_gives : List Offer) (a b : PerConnection)
        → P (flush_and_apply items together lands commits s a_gives b_gives a b w).1.trade_manager
    unfolding flush_and_apply
    flush_and_apply-table a_gives b_gives a b =
        let fits =
          simulate items a_gives b_gives a.inventory
          && simulate items b_gives a_gives b.inventory in
        elim (Bool-cases (not fits)) [
          | inl full ↦ rw (full, flush_and_apply) (kept.clearing s.a.cid w.trade_manager h)
          | inr room ↦
              rw (room, flush_and_apply)
                (elim (Bool-cases (not (persist_dirty_stores lands a).0)) [
                  | inl lost ↦ rw lost closed
                  | inr stored ↦
                      rw stored (elim (Bool-cases (not (persist_dirty_stores lands b).0)) [
                        | inl lost ↦ rw lost closed
                        | inr also ↦ rw also (
                            apply_both-table a_gives b_gives (persist_dirty_stores lands a).1
                              (persist_dirty_stores lands b).1)
                      ])
                ])
        ]

    commit_between-table :
        (a b : PerConnection)
        → P (commit_between items together lands commits s a b w).1.trade_manager
    unfolding commit_between
    commit_between-table a b =
        let here =
          a.in_world
          && b.in_world
          && not a.death_processed
          && not b.death_processed
          && together a b in
        let covered = has_at_least a.coins s.a.coins && has_at_least b.coins s.b.coins in
        let a_changed = changed a.inventory s.a in
        let b_changed = changed b.inventory s.b in
        elim (Bool-cases (not here)) [
          | inl away ↦ rw (away, commit_between) closed
          | inr near ↦
              rw (near, commit_between)
                (elim (Bool-cases (not covered)) [
                  | inl short ↦ rw short (kept.clearing s.a.cid w.trade_manager h)
                  | inr enough ↦
                      rw enough
                        (elim (Bool-cases (not (is_empty a_changed && is_empty b_changed))) [
                          | inl differs ↦
                              let a_back = retrieve_all-kept s.a.cid a_changed w.trade_manager h in
                              rw differs (
                                kept.clearing s.a.cid _
                                  (retrieve_all-kept s.b.cid b_changed _ a_back))
                          | inr same ↦
                              rw same (elim (Option-cases (resolve a.inventory s.a.offers)) [
                                | inl stuck ↦ rw stuck closed
                                | inr (a_gives, seen_a) ↦
                                    rw seen_a
                                      (elim (Option-cases (resolve b.inventory s.b.offers)) [
                                        | inl stuck ↦ rw stuck closed
                                        | inr (b_gives, seen_b) ↦
                                            rw seen_b (flush_and_apply-table a_gives b_gives a b)
                                      ])
                              ])
                        ])
                ])
        ]

    pub commit-table : P (commit items together lands commits s w).1.trade_manager
    unfolding commit
    commit-table = elim (Option-cases (w.connections s.a.cid)) [
      | inl gone ↦ rw (gone, commit) closed
      | inr (a, a_was) ↦
          rw (a_was, commit)
            (elim (Option-cases (w.connections s.b.cid)) [
              | inl gone ↦ rw gone closed
              | inr (b, b_was) ↦ rw b_was (commit_between-table a b)
            ])
    ]
