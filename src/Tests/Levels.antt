-- ===== src/Tests/Levels.antt =====
-- The theorems on levels with a curve that grows by a thousand for each level.
use project_dawn_server.Progression.Levels.{resolve-Resolves, resolve-Earns, Resolves, Earns}
use project_dawn_server.Progression.Penalty.{apply_death_penalty-Costs, IsLevelled, Costs}
use project_dawn_server.Base.{◌≡◌, refl, pos, negsuc, arith, ◌/◌, ◌+◌, ◌<◌, ◌*◌, ℕ}
use project_dawn_server.Progression.{
  descend, saturating_add_xp, award_xp, climb, apply_death_penalty, XpState, resolve,
}

abbrev curve : ℕ → ℕ
curve level = 1000 * level + 1000

abbrev twentieth : ℕ → ℕ
twentieth b = b * 5 / 100

abbrev player : XpState
player = record { xp = 100; xp_to_next = 8000; level = 7; death_lost_xp = 0 }

curve-pos : (l : ℕ) → 0 < curve l
curve-pos l = omega arith

-- From level 5, two levels up and ten into the third.
climbed : resolve curve (pos 13010) 5 ≡ record { xp = 10; xp_to_next = 8000; level = 7 }
unfolding resolve climb
climbed = refl

-- Four hundred are due, a hundred are in the bar, and the rest comes from level 6.
died : (apply_death_penalty curve twentieth player).xp ≡ 6700
unfolding apply_death_penalty award_xp saturating_add_xp resolve descend
died = refl

resolve-Resolves_example : Resolves curve (pos 13010) 5 (resolve curve (pos 13010) 5)
resolve-Resolves_example = resolve-Resolves curve (pos 13010) 5 curve-pos (omega arith)

resolve-Earns_example : Earns curve (negsuc 999) 7 (resolve curve (negsuc 999) 7)
resolve-Earns_example = resolve-Earns curve (negsuc 999) 7

player-IsLevelled : IsLevelled curve player
player-IsLevelled = record { at_most = omega arith; bar = refl; in_bar = omega arith }

apply_death_penalty-Costs_example : Costs curve player (apply_death_penalty curve twentieth player)
apply_death_penalty-Costs_example =
    apply_death_penalty-Costs curve twentieth player player-IsLevelled (omega arith)
      (λ h. omega arith)
