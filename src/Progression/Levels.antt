-- ===== src/Progression/Levels.antt =====
-- What the resolver keeps: the bounds of the level and of the bar, and the experience earned in all.
use project_dawn_server.Progression.{resolve}
use project_dawn_server.Progression.{
  XpProgress, max_level, death_penalty_floor_level, descend, climb,
}
use project_dawn_server.Base.{
  negsuc, pos, ℤ, suc, ◌-◌, ltb, ◌&&◌, refl, leb, inl, Bool-cases, ◌≡◌, inr, ◌⊎◌, arith, ◌<◌, ◌≤◌,
  ◌+◌, ℕ,
}

module _ (band : ℕ → ℕ) where
  -- The experience that the levels below one take.
  unfoldable pub spent : ℕ → ℕ
  spent ℕ.zero = 0
  spent (ℕ.suc l) = band l + spent l

  pub spent-below : (level : ℕ) → 0 < level → spent level ≡ band (level - 1) + spent (level - 1)
  unfolding spent
  spent-below ℕ.zero h = absurd (omega (arith, h))
  spent-below (ℕ.suc l) h = let back : suc l - 1 ≡ l = omega arith in rw back refl

  -- After the loop that goes up: nothing is lost, and the bar is not full below the cap.
  record Climbs (xp level : ℕ) (out : ℕ × ℕ) : Type 0 where
    higher : level ≤ out.1
    capped : (out.1 ≤ max_level) ⊎ (out.1 ≡ level)
    earned : spent out.1 + out.0 ≡ spent level + xp
    settled : out.1 < max_level → out.0 < band out.1

  climb-Climbs :
      (steps xp level : ℕ) → max_level ≤ level + steps → Climbs xp level (climb band steps xp level)
  unfolding climb spent
  climb-Climbs ℕ.zero xp level enough = record {
    higher = omega arith;
    capped = inr refl;
    earned = refl;
    settled = λ h. omega (arith, h);
  }
  climb-Climbs (ℕ.suc steps) xp level enough =
      elim (Bool-cases (leb (band level) xp && ltb level max_level)) [
        | inr stop ↦ rw stop (record {
          higher = omega arith;
          capped = inr refl;
          earned = refl;
          settled = λ h. ground (arith, stop, h);
        })
        | inl go ↦
            let next = climb-Climbs steps (xp - band level) (suc level) (omega (arith, enough)) in
            rw go (record {
              higher = omega (arith, next.higher);
              capped = inl (ground (arith, go, next.capped));
              earned = ground (arith, go, next.earned);
              settled = next.settled;
            })
      ]

  -- After the loop that goes down: what is missing is taken, down to the floor.
  record Descends (missing level : ℕ) (out : ℕ × ℕ) : Type 0 where
    lower : out.1 ≤ level
    floored : (death_penalty_floor_level ≤ out.1) ⊎ (out.1 ≡ level)
    taken :
        (spent out.1 + out.0 + missing ≡ spent level)
        ⊎ ((out.0 ≡ 0)
            × (out.1 ≤ death_penalty_floor_level)
            × (spent level ≤ spent out.1 + missing))
    in_bar : (out.0 ≡ 0) ⊎ (out.0 < band out.1)

  descend-Descends :
      (steps missing level : ℕ)
      → level ≤ death_penalty_floor_level + steps
      → (0 < steps → level ≡ death_penalty_floor_level + steps)
      → 0 < missing
      → Descends missing level (descend band steps missing level)
  unfolding descend spent
  descend-Descends ℕ.zero missing level enough exact more = record {
    lower = omega arith;
    floored = inr refl;
    taken = inr (refl, omega (arith, enough), omega arith);
    in_bar = inl refl;
  }
  descend-Descends (ℕ.suc steps) missing level enough exact more =
      let at_level = exact (omega arith) in
      let step = spent-below level (omega (arith, at_level)) in
      elim (Bool-cases (leb missing (band (level - 1)))) [
        | inl covered ↦ rw covered (record {
          lower = omega arith;
          floored = inl (omega (arith, at_level));
          taken = inl (ground (arith, covered, step));
          in_bar = inr (ground (arith, covered, more));
        })
        | inr short ↦
            let next =
              descend-Descends steps (missing - band (level - 1)) (level - 1)
                (omega (arith, at_level)) (λ h. omega (arith, at_level)) (ground (arith, short)) in
            rw short (record {
              lower = omega (arith, next.lower);
              floored = ground (arith, next.floored, at_level);
              taken = ground (arith, next.taken, short, step);
              in_bar = next.in_bar;
            })
      ]

  -- The result is a level within the bounds, with the bar within its band.
  pub record Resolves (xp : ℤ) (level : ℕ) (p : XpProgress) : Type 0 where
    pub at_most : p.level ≤ max_level
    pub at_least : (level ≤ p.level) ⊎ (death_penalty_floor_level ≤ p.level)
    pub bar : p.xp_to_next ≡ band p.level
    pub in_bar : (p.xp < p.xp_to_next) ⊎ ((p.level ≡ max_level) × (p.xp ≡ p.xp_to_next))

  -- For bands that are positive and a level no higher than the cap, the level that comes out is
  -- no higher than the cap and not below both the old level and the floor, the bar is the band of
  -- that level, and the experience is below the bar, or equal to it at the cap.
  pub resolve-Resolves :
      (xp : ℤ) (level : ℕ)
      → ((l : ℕ) → 0 < band l)
      → level ≤ max_level
      → Resolves xp level (resolve band xp level)
  unfolding resolve
  resolve-Resolves (pos xp) level positive low =
      let c = climb-Climbs (max_level - level) xp level (omega arith) in
      let out = climb band (max_level - level) xp level in
      record {
        at_most = ground (arith, c.capped, low);
        at_least = inl c.higher;
        bar = refl;
        in_bar = ground (arith, c.settled, c.capped, low, positive out.1);
      }
  resolve-Resolves (negsuc n) level positive low =
      let d =
        descend-Descends (level - death_penalty_floor_level) (suc n) level (omega arith)
          (λ h. omega (arith, h)) (omega arith) in
      let out = descend band (level - death_penalty_floor_level) (suc n) level in
      record {
        at_most = omega (arith, d.lower, low);
        at_least = ground (arith, d.floored);
        bar = refl;
        in_bar = inl (ground (arith, d.in_bar, positive out.1));
      }

  -- What was earned in all, and what is missing, is found again in the level and the bar: short of it
  -- only at the cap, and over it only at the floor.
  abbrev pub Earns : ℤ → ℕ → XpProgress → Type 0
  Earns (pos xp) level p =
      (spent p.level + p.xp ≤ spent level + xp)
      × (p.level < max_level → spent p.level + p.xp ≡ spent level + xp)
  Earns (negsuc n) level p =
      (spent p.level + p.xp + suc n ≡ spent level)
      ⊎ ((p.xp ≡ 0) × (p.level ≤ death_penalty_floor_level) × (spent level ≤ spent p.level + suc n))

  -- Counting the bands of all lower levels with the experience in the bar, experience that is not
  -- negative is kept exactly below the cap and never exceeded, and a deficit is taken exactly, or
  -- at or below the floor level leaves an empty bar and forgives the rest.
  pub resolve-Earns : (xp : ℤ) (level : ℕ) → Earns xp level (resolve band xp level)
  unfolding resolve
  resolve-Earns (pos xp) level =
      let c = climb-Climbs (max_level - level) xp level (omega arith) in
      (ground (arith, c.earned), λ h. ground (arith, c.earned, h))
  resolve-Earns (negsuc n) level =
      (descend-Descends (level - death_penalty_floor_level) (suc n) level (omega arith)
        (λ h. omega (arith, h)) (omega arith)).taken
