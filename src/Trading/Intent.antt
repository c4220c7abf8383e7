-- ===== src/Trading/Intent.antt =====
-- The whole commit of a trade, from the checks on.
use project_dawn_server.Trading.Commit.{persist_dirty_stores-Same}
use project_dawn_server.Trading.Outcome.{apply_both-Commits, with_pair-Unmoved, Commits}
use project_dawn_server.Coins.{has_at_least}
use project_dawn_server.Inventory.Valid.{IsValid}
use project_dawn_server.Trading.{
  simulate, swap_in, changed, flush_and_apply, commit_between, commit, WorldState,
}
use project_dawn_server.Trading.Swaps.{swap_in-Swaps, unchanged, Swaps, shown}
use project_dawn_server.Connection.{persist_dirty_stores, PerConnection}
use project_dawn_server.Trading.Terms.{OffHand}
use project_dawn_server.Trade.{TradeSession}
use project_dawn_server.Items.{IsRegistry, Registry}
use project_dawn_server.Base.{
  arith, refl, is_empty, inr, Bool-cases, not, inl, Option-cases, ◌&&◌, true, some, ◌≡◌, ◌≢◌, Bool,
  ℕ,
}

-- No offer of either window is of the stack in the hand.
abbrev pub OffHands : TradeSession → Type 0
OffHands s = OffHand (shown s.a.offers) × OffHand (shown s.b.offers)

module _ (items : Registry) (together : PerConnection → PerConnection → Bool)
    (lands : PerConnection → Bool) (commits : PerConnection → PerConnection → Bool)
    (s : TradeSession) (w : WorldState) (reg : IsRegistry items) (apart : s.a.cid ≢ s.b.cid) where
  flush_and_apply-Commits :
      (a b : PerConnection)
      → w.connections s.a.cid ≡ some a
      → w.connections s.b.cid ≡ some b
      → has_at_least a.coins s.a.coins ≡ true
      → has_at_least b.coins s.b.coins ≡ true
      → Swaps items
          (shown s.a.offers)
          (shown s.b.offers)
          a.inventory
          (swap_in items (shown s.a.offers) (shown s.b.offers) a.inventory)
      → Swaps items
          (shown s.b.offers)
          (shown s.a.offers)
          b.inventory
          (swap_in items (shown s.b.offers) (shown s.a.offers) b.inventory)
      → Commits items s w (
          flush_and_apply items together lands commits s
            (shown s.a.offers)
            (shown s.b.offers)
            a
            b
            w)
  unfolding flush_and_apply
  flush_and_apply-Commits a b a_was b_was ca cb wa wb =
      let fits =
        simulate items (shown s.a.offers) (shown s.b.offers) a.inventory
        && simulate items (shown s.b.offers) (shown s.a.offers) b.inventory in
      let sa = persist_dirty_stores-Same lands a in
      let sb = persist_dirty_stores-Same lands b in
      let a' = (persist_dirty_stores lands a).1 in
      let b' = (persist_dirty_stores lands b).1 in
      elim (Bool-cases (not fits)) [
        | inl full ↦ rw (full, flush_and_apply) (λ cid. refl)
        | inr room ↦
            rw (room, flush_and_apply)
              (elim (Bool-cases (not (persist_dirty_stores lands a).0)) [
                | inl lost ↦ rw lost (with_pair-Unmoved s w a b a' b a_was b_was sa (refl, refl))
                | inr kept ↦ rw kept (elim (Bool-cases (not (persist_dirty_stores lands b).0)) [
                  | inl lost ↦ rw lost (with_pair-Unmoved s w a b a' b' a_was b_was sa sb)
                  | inr also ↦ rw also (
                      apply_both-Commits items together lands commits s w a b apart a_was b_was ca
                        cb wa wb a' b' sa sb)
                ])
              ])
      ]

  commit_between-Commits :
      (a b : PerConnection)
      → w.connections s.a.cid ≡ some a
      → w.connections s.b.cid ≡ some b
      → IsValid items a.inventory
      → IsValid items b.inventory
      → OffHands s
      → Commits items s w (commit_between items together lands commits s a b w)
  unfolding commit_between changed
  commit_between-Commits a b a_was b_was va vb off =
      let here =
        a.in_world
        && b.in_world
        && not a.death_processed
        && not b.death_processed
        && together a b in
      let covered = has_at_least a.coins s.a.coins && has_at_least b.coins s.b.coins in
      let a_changed = changed a.inventory s.a in
      let b_changed = changed b.inventory s.b in
      elim (Bool-cases (not here)) [
        | inl away ↦ rw (away, commit_between) (λ cid. refl)
        | inr near ↦
            rw (near, commit_between)
              (elim (Bool-cases (not covered)) [
                | inl short ↦ rw short (λ cid. refl)
                | inr enough ↦
                    rw enough (elim (Bool-cases (not (is_empty a_changed && is_empty b_changed))) [
                      | inl differs ↦ rw differs (λ cid. refl)
                      | inr same ↦
                          let ra = unchanged 0 a.inventory s.a.offers (ground (arith, same)) in
                          let rb = unchanged 0 b.inventory s.b.offers (ground (arith, same)) in
                          rw (same, ra.0, rb.0)
                            (flush_and_apply-Commits a b a_was b_was (ground (arith, enough))
                              (ground (arith, enough))
                              (swap_in-Swaps items (shown s.a.offers) (shown s.b.offers) a.inventory
                                b.inventory reg va vb off.0 ra.1 rb.1)
                              (swap_in-Swaps items (shown s.b.offers) (shown s.a.offers) b.inventory
                                a.inventory reg vb va off.1 rb.1 ra.1))
                    ])
              ])
      ]

  pub commit-Commits :
      ((cid : ℕ) (c : PerConnection) → w.connections cid ≡ some c → IsValid items c.inventory)
      → OffHands s
      → Commits items s w (commit items together lands commits s w)
  unfolding commit
  commit-Commits valid off = elim (Option-cases (w.connections s.a.cid)) [
    | inl gone ↦ rw (gone, commit) (λ cid. refl)
    | inr (a, a_was) ↦
        rw (a_was, commit)
          (elim (Option-cases (w.connections s.b.cid)) [
            | inl gone ↦ rw gone (λ cid. refl)
            | inr (b, b_was) ↦ rw b_was (
                commit_between-Commits a b a_was b_was (valid s.a.cid a a_was)
                  (valid s.b.cid b b_was) off)
          ])
  ]
