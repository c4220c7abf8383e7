-- ===== src/Progression.antt =====
-- crates/projectdawn-server/src/world/progression.rs: experience and levels, and what a death costs.
-- Levels and experience are natural numbers; an amount is signed. Stats, pools and messages are left
-- out.
pub mod Levels
pub mod Penalty
use project_dawn_server.Base.{
  minus, negsuc, ◌+◌, not, min, ◌==◌, ◌&&◌, suc, pos, ltb, leb, Bool, ℤ, neg, ◌-◌, ℕ, if◌then◌else◌,
}

abbrev pub max_level : ℕ
max_level = 60

abbrev pub death_penalty_floor_level : ℕ
death_penalty_floor_level = 5

abbrev pub i32_max : ℕ
i32_max = 2147483647

-- `XpProgress`
pub record XpProgress : Type 0 where
  pub xp : ℕ
  pub xp_to_next : ℕ
  pub level : ℕ

-- The part of a connection that levelling reads and writes.
pub record XpState : Type 0 where
  pub xp : ℕ
  pub xp_to_next : ℕ
  pub level : ℕ
  pub death_lost_xp : ℕ

-- `saturating_add` of an amount to what is not negative; only the upper bound can be met.
unfoldable pub saturating_add_xp : ℕ → ℤ → ℤ
saturating_add_xp xp (pos n) = pos (min (xp + n) i32_max)
saturating_add_xp xp (negsuc n) = minus xp (suc n)

-- `band` is `char_data::xp_to_next_for`, which computes in floating point; `five_percent` is the share
-- of a band that a death costs, which does too.
module _ (band : ℕ → ℕ) where
  -- The loop that goes up, from the experience and the level. There are as many steps as levels below
  -- the cap.
  unfoldable pub climb : ℕ → ℕ → ℕ → ℕ × ℕ
  climb ℕ.zero xp level = (xp, level)
  climb (ℕ.suc steps) xp level =
      let higher = climb steps (xp - band level) (suc level) in
      if leb (band level) xp && ltb level max_level then higher else (xp, level)

  -- The loop that goes down, from what is missing and the level, and the clamp after it. There are as
  -- many steps as levels above the floor.
  unfoldable pub descend : ℕ → ℕ → ℕ → ℕ × ℕ
  descend ℕ.zero missing level = (0, level)
  descend (ℕ.suc steps) missing level =
      let below = band (level - 1) in
      let lower = descend steps (missing - below) (level - 1) in
      if leb missing below then (below - missing, level - 1) else lower

  unfoldable pub resolve : ℤ → ℕ → XpProgress
  resolve (pos xp) level =
      let (x, l) = climb (max_level - level) xp level in
      record {
        xp = if leb max_level l && ltb (band l) x then band l else x;
        xp_to_next = band l;
        level = l;
      }
  resolve (negsuc n) level =
      let (x, l) = descend (level - death_penalty_floor_level) (suc n) level in
      record { xp = x; xp_to_next = band l; level = l }

  unfoldable pub progress_after : ℤ → XpState → XpProgress
  progress_after amount conn = resolve (saturating_add_xp conn.xp amount) conn.level

  unfoldable pub current_progress : XpState → XpProgress
  current_progress conn = record { xp = conn.xp; xp_to_next = conn.xp_to_next; level = conn.level }

  -- Whether the level moved, and the state.
  unfoldable pub award_xp : ℤ → XpState → Bool × XpState
  award_xp amount conn =
      let p = resolve (saturating_add_xp conn.xp amount) conn.level in
      (
        not (p.level == conn.level),
        record conn { xp = p.xp; xp_to_next = p.xp_to_next; level = p.level },
      )

  unfoldable pub apply_death_penalty : (ℕ → ℕ) → XpState → XpState
  apply_death_penalty five_percent conn =
      let reset : XpState = record conn { death_lost_xp = 0 } in
      let loss = five_percent conn.xp_to_next in
      let after = (award_xp (neg loss) reset).1 in
      if ltb conn.level death_penalty_floor_level
      then reset
      else if loss == 0
      then reset
      else record after {
        death_lost_xp = if after.level == conn.level && after.xp == 0 then conn.xp else loss;
      }
