-- ===== src/Progression/Penalty.antt =====
-- What a death costs, and that the cost is written down exactly.
use project_dawn_server.Progression.Levels.{spent-below, spent}
use project_dawn_server.Progression.{
  saturating_add_xp, award_xp, apply_death_penalty, max_level, death_penalty_floor_level, descend,
  climb, XpState, resolve,
}
use project_dawn_server.Base.{
  neg, ◌==◌, inr, inl, ap, Bool-cases, ◌&&◌, true, refl, false, ◌+◌, ltb, leb, arith, ◌-◌, suc, pos,
  negsuc, ◌<◌, ◌≤◌, ◌≡◌, ℕ, if◌then◌else◌,
}

-- The bar of a player: within the band of a level that is no higher than the cap.
pub record IsLevelled (band : ℕ → ℕ) (conn : XpState) : Type 0 where
  pub at_most : conn.level ≤ max_level
  pub bar : conn.xp_to_next ≡ band conn.level
  pub in_bar : conn.xp ≤ conn.xp_to_next

neg-pos : (k : ℕ) → 0 < k → neg k ≡ negsuc (k - 1)
neg-pos ℕ.zero h = absurd (omega (arith, h))
neg-pos (ℕ.suc k) h = let back : suc k - 1 ≡ k = omega arith in rw back refl

-- A loss that the bar covers, and one that it does not.
drain : (xp loss : ℕ) → 0 < loss → loss ≤ xp → saturating_add_xp xp (neg loss) ≡ pos (xp - loss)
unfolding saturating_add_xp
drain xp ℕ.zero h covered = absurd (omega (arith, h))
drain xp (ℕ.suc n) h covered =
    let stays : ltb xp (suc n) ≡ false = ground (arith, covered) in rw stays refl

overdraw : (xp loss : ℕ) → xp < loss → saturating_add_xp xp (neg loss) ≡ negsuc (loss - xp - 1)
unfolding saturating_add_xp
overdraw xp ℕ.zero h = absurd (omega (arith, h))
overdraw xp (ℕ.suc n) h =
    let under : ltb xp (suc n) ≡ true = ground (arith, h) in
    rw under (neg-pos (suc n - xp) (omega (arith, h)))

module _ (band : ℕ → ℕ) where
  climb-stays : (steps xp level : ℕ) → xp < band level → climb band steps xp level ≡ (xp, level)
  unfolding climb
  climb-stays ℕ.zero xp level short = refl
  climb-stays (ℕ.suc steps) xp level short =
      let stop : leb (band level) xp ≡ false = ground (arith, short) in rw stop refl

  -- A payment that the bar covers stays in the level.
  paid_from_bar :
      (xp level : ℕ)
      → xp < band level
      → resolve band (pos xp) level ≡ record { xp = xp; xp_to_next = band level; level = level }
  unfolding resolve
  paid_from_bar xp level short =
      let over : ltb (band level) xp ≡ false = ground (arith, short) in
      let same : (if leb max_level level && ltb (band level) xp then band level else xp) ≡ xp =
        ground (arith, over) in
      rw (climb-stays (max_level - level) xp level short, resolve)
        (ap (λ (x : ℕ). record { xp = x; xp_to_next = band level; level = level }) same)

  descend-once :
      (steps missing level : ℕ)
      → 0 < steps
      → missing ≤ band (level - 1)
      → descend band steps missing level ≡ (band (level - 1) - missing, level - 1)
  unfolding descend
  descend-once ℕ.zero missing level some_steps small = absurd (omega (arith, some_steps))
  descend-once (ℕ.suc steps) missing level some_steps small =
      let covered : leb missing (band (level - 1)) ≡ true = ground (arith, small) in rw covered refl

  -- One that it does not cover is taken from the level below, above the floor.
  paid_from_below :
      (n level : ℕ)
      → death_penalty_floor_level < level
      → suc n ≤ band (level - 1)
      → resolve band (negsuc n) level
        ≡ record { xp = band (level - 1) - suc n; xp_to_next = band (level - 1); level = level - 1 }
  unfolding resolve
  paid_from_below n level high small =
      rw
        (
          descend-once (level - death_penalty_floor_level) (suc n) level (omega (arith, high))
              small,
          resolve,
        )
        refl

  -- And at the floor it is forgiven.
  forgiven :
      (n level : ℕ)
      → level ≡ death_penalty_floor_level
      → resolve band (negsuc n) level ≡ record { xp = 0; xp_to_next = band level; level = level }
  unfolding resolve descend
  forgiven n level floor =
      let none_below : level - death_penalty_floor_level ≡ 0 = omega (arith, floor) in
      rw (none_below, resolve) refl

  -- The penalty takes what it writes down.
  abbrev pub Costs : XpState → XpState → Type 0
  Costs conn after =
      (spent band after.level + after.xp + after.death_lost_xp ≡ spent band conn.level + conn.xp)
      × (conn.level < death_penalty_floor_level → (after.level ≡ conn.level) × (after.xp ≡ conn.xp))
      × (death_penalty_floor_level ≤ conn.level → death_penalty_floor_level ≤ after.level)

  module _ (five_percent : ℕ → ℕ) (conn : XpState) (levelled : IsLevelled band conn)
      (positive : 0 < band conn.level)
      (small : death_penalty_floor_level < conn.level
        → five_percent conn.xp_to_next ≤ band (conn.level - 1)) where
    -- For a player whose experience is within the bar of the level, a positive band, and a share
    -- of the bar that above the floor level is no more than the band of the level below, a death
    -- takes exactly what it writes down as lost, changes nothing below the floor level and takes
    -- no level below the floor.
    pub apply_death_penalty-Costs : Costs conn (apply_death_penalty band five_percent conn)
    unfolding apply_death_penalty award_xp saturating_add_xp
    apply_death_penalty-Costs =
        let loss = five_percent conn.xp_to_next in
        elim (Bool-cases (ltb conn.level death_penalty_floor_level)) [
          | inl young ↦ rw young (omega arith, (λ h. (refl, refl)), λ h. h)
          | inr grown ↦ rw grown (elim (Bool-cases (loss == 0)) [
            | inl free ↦ rw free (omega arith, (λ h. (refl, refl)), λ h. h)
            | inr costs ↦ rw costs (elim (Bool-cases (leb loss conn.xp)) [
              | inl covered ↦
                  let short : conn.xp - loss < band conn.level =
                    ground (arith, covered, costs, levelled.in_bar, levelled.bar, positive) in
                  rw (drain conn.xp loss (ground (arith, costs)) (ground (arith, covered))) (
                    rw (paid_from_bar (conn.xp - loss) conn.level short)
                      (ground (arith, covered), λ h. ground (arith, grown, h), λ h. h))
              | inr over ↦
                  let more : conn.xp < loss = ground (arith, over) in
                  rw (overdraw conn.xp loss more)
                    (elim (Bool-cases (conn.level == death_penalty_floor_level)) [
                      | inl floor ↦
                          rw (forgiven (loss - conn.xp - 1) conn.level (ground (arith, floor)))
                            (ground arith, λ h. ground (arith, grown, h), λ h. h)
                      | inr above ↦
                          let high : death_penalty_floor_level < conn.level =
                            ground (arith, above, grown) in
                          let fits : suc (loss - conn.xp - 1) ≤ band (conn.level - 1) =
                            omega (arith, small high, more) in
                          let step = spent-below band conn.level (omega (arith, high)) in
                          rw (paid_from_below (loss - conn.xp - 1) conn.level high fits) (
                            ground (arith, step, fits, more, high),
                            λ h. ground (arith, grown, h),
                            λ h. omega (arith, high),
                          )
                    ])
            ])
          ])
        ]
