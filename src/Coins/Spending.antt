-- ===== src/Coins/Spending.antt =====
-- Paying out of a purse takes exactly the cost, and succeeds exactly where the purse is worth it.
use project_dawn_server.Coins.{
  tiers, i64_max, spend, purse_of, pay_tiers, sat, Tier, total_copper, scatter, pay_tier, Purse,
}
use native.Mathlib.Omega.{div_any}
use native.Mathlib.Nat.{mod-lt}
use project_dawn_server.Base.{
  if◌then◌else◌, sym, subst, pos, ◌∙◌, ◌&&◌, ltb, inr, suc, inl, leb, ◌==◌, Bool-cases, ◌-◌, ◌≤◌,
  min, refl, arith, ap, [], ◌⊎◌, ◌∷◌, sum_by, map, ◌<◌, ◌%◌, ◌≡◌, ◌/◌, ◌*◌, List, ◌+◌, ℕ,
}

-- What the purse is worth, in copper.
abbrev pub worth : Purse → ℕ
worth p = p.copper + p.silver * 100 + p.gold * 10000 + p.platinum * 1000000

pub total_copper-worth : (p : Purse) → total_copper p ≡ sat (worth p)
unfolding total_copper
total_copper-worth p = omega arith

abbrev sum_worth : List Tier → ℕ
sum_worth ts = sum_by (λ (t : Tier). t.count * t.value) ts

abbrev values : List Tier → List ℕ
values ts = map (λ (t : Tier). t.value) ts

-- The last stack is the one of single coppers.
abbrev Ends : List ℕ → Type 0
Ends [] = ⊥
Ends (v ∷ []) = v ≡ 1
Ends (v ∷ w ∷ ws) = Ends (w ∷ ws)

abbrev EndsInCopper : List Tier → Type 0
EndsInCopper ts = Ends (values ts)

one_more :
    (count change value : ℕ)
    → (count + change / value) * value + change % value ≡ count * value + change
one_more count change value = grind (arith, div_any change value)

scatter-worth :
    (change : ℕ) (ts : List Tier)
    → EndsInCopper ts
    → sum_worth (scatter change ts) ≡ sum_worth ts + change
unfolding scatter
scatter-worth change [] h = absurd h
scatter-worth change (t ∷ []) h =
    let whole : change % t.value ≡ 0 = rw h (omega arith) in
    omega (arith, one_more t.count change t.value, whole)
scatter-worth change (t ∷ u ∷ us) h =
    omega (arith, one_more t.count change t.value, scatter-worth (change % t.value) (u ∷ us) h)

scatter-values : (change : ℕ) (ts : List Tier) → values (scatter change ts) ≡ values ts
unfolding scatter
scatter-values change [] = refl
scatter-values change (t ∷ ts) = ap (λ vs. t.value ∷ vs) (scatter-values (change % t.value) ts)

whole_le : (remaining value count : ℕ) → min (remaining / value) count * value ≤ remaining
whole_le remaining value count = grind (arith, div_any remaining value)

split_count :
    (count whole value : ℕ)
    → whole ≤ count
    → (count - whole) * value + whole * value ≡ count * value
split_count count whole value h = grind arith

-- What the whole coins of a stack leave unpaid is less than one of them, or takes the whole stack.
stack_spent :
    (remaining value count : ℕ)
    → let whole = min (remaining / value) count in
      value ≤ remaining - whole * value → (count - whole) * value ≡ 0
stack_spent remaining ℕ.zero count h = omega arith
stack_spent remaining (ℕ.suc v) count h = elim (Bool-cases (leb count (remaining / suc v))) [
  | inl all ↦
      let whole : min (remaining / suc v) count ≡ count = ground (arith, all) in
      let none_left : count - min (remaining / suc v) count ≡ 0 = omega (arith, whole) in
      ap (λ d. d * suc v) none_left ∙ omega arith
  | inr some_left ↦
      let whole : min (remaining / suc v) count ≡ remaining / suc v = ground (arith, some_left) in
      absurd (
        omega (
          arith,
          ap (λ w. w * suc v) whole,
          div_any remaining (suc v),
          mod-lt remaining {m = suc v} (omega arith),
          h,
        ))
]

-- A stack may be broken into the ones below it, or is itself of single coppers.
abbrev Breaks : List Tier → Tier → Type 0
Breaks below t = (t.value ≡ 1) ⊎ EndsInCopper below

pay_tier-worth :
    (below : List Tier) (remaining : ℕ) (t : Tier)
    → Breaks below t
    → let next = pay_tier below remaining t in
      sum_worth next.below + remaining ≡ sum_worth (t ∷ below) + next.remaining
unfolding pay_tier
pay_tier-worth below remaining t breaks =
    let whole = min (remaining / t.value) t.count in
    let count = t.count - whole in
    let left = remaining - whole * t.value in
    let fewer = split_count t.count whole t.value (omega arith) in
    let less = whole_le remaining t.value t.count in
    elim (Bool-cases (remaining == 0)) [
      | inl done ↦ rw (done, pay_tier) (ground (arith, done))
      | inr more ↦
          rw (more, pay_tier)
            (elim (Bool-cases (ltb 0 left && ltb left t.value && ltb 0 count)) [
              | inr kept ↦ rw kept (omega (arith, fewer, less))
              | inl broken ↦
                  let one_less = split_count count 1 t.value (ground (arith, broken)) in
                  rw broken (elim breaks [
                    | inl single ↦ absurd (ground (arith, broken, single))
                    | inr lower ↦ ground (
                      arith,
                      broken,
                      fewer,
                      less,
                      one_less,
                      scatter-worth (t.value - left) below lower,
                    )
                  ])
            ])
    ]

pay_tier-spent :
    (below : List Tier) (remaining : ℕ) (t : Tier)
    → (0 < remaining → sum_worth below ≡ 0)
    → let next = pay_tier below remaining t in 0 < next.remaining → sum_worth next.below ≡ 0
unfolding pay_tier
pay_tier-spent below remaining t h =
    let whole = min (remaining / t.value) t.count in
    let count = t.count - whole in
    let left = remaining - whole * t.value in
    elim (Bool-cases (remaining == 0)) [
      | inl done ↦ rw (done, pay_tier) (λ more. absurd (omega (arith, more)))
      | inr more ↦
          rw (more, pay_tier)
            (elim (Bool-cases (ltb 0 left && ltb left t.value && ltb 0 count)) [
              | inl broken ↦ rw broken (λ more. absurd (omega (arith, more)))
              | inr kept ↦ rw kept (λ unpaid.
                  ground (arith, kept, unpaid, more, h, stack_spent remaining t.value t.count))
            ])
    ]

pay_tier-values :
    (below : List Tier) (remaining : ℕ) (t : Tier)
    → values (pay_tier below remaining t).below ≡ t.value ∷ values below
unfolding pay_tier
pay_tier-values below remaining t =
    let count = t.count - min (remaining / t.value) t.count in
    let left = remaining - min (remaining / t.value) t.count * t.value in
    elim (Bool-cases (remaining == 0)) [
      | inl done ↦ rw (done, pay_tier) refl
      | inr more ↦
          rw (more, pay_tier)
            (elim (Bool-cases (ltb 0 left && ltb left t.value && ltb 0 count)) [
              | inl broken ↦
                  rw broken (ap (λ vs. t.value ∷ vs) (scatter-values (t.value - left) below))
              | inr kept ↦ rw kept refl
            ])
    ]

abbrev ladder : List ℕ
ladder = 1000000 ∷ 10000 ∷ 100 ∷ 1 ∷ []

purse_of-worth : (ts : List Tier) → values ts ≡ ladder → worth (purse_of ts) ≡ sum_worth ts
purse_of-worth [] h = cc
purse_of-worth (a ∷ []) h = cc
purse_of-worth (a ∷ b ∷ []) h = cc
purse_of-worth (a ∷ b ∷ c ∷ []) h = cc
purse_of-worth (a ∷ b ∷ c ∷ d ∷ []) h = ground (arith, h)
purse_of-worth (a ∷ b ∷ c ∷ d ∷ e ∷ es) h = cc

-- The loop takes from the stacks what it pays, and leaves something to pay only with all of them spent.
loop_pays :
    (cost : ℕ) (p : Purse)
    → let paid = pay_tiers [] cost (tiers p) in
      (values paid.below ≡ ladder)
      × (sum_worth paid.below + cost ≡ worth p + paid.remaining)
      × (0 < paid.remaining → sum_worth paid.below ≡ 0)
unfolding pay_tiers
loop_pays cost p =
    let copper : Tier = record { count = p.copper; value = 1 } in
    let silver : Tier = record { count = p.silver; value = 100 } in
    let gold : Tier = record { count = p.gold; value = 10000 } in
    let platinum : Tier = record { count = p.platinum; value = 1000000 } in
    let a = pay_tier [] cost copper in
    let b = pay_tier a.below a.remaining silver in
    let c = pay_tier b.below b.remaining gold in
    let va = pay_tier-values [] cost copper in
    let vb = pay_tier-values a.below a.remaining silver ∙ ap (λ vs. 100 ∷ vs) va in
    let vc = pay_tier-values b.below b.remaining gold ∙ ap (λ vs. 10000 ∷ vs) vb in
    let wa = pay_tier-worth [] cost copper (inl refl) in
    let wb = pay_tier-worth a.below a.remaining silver (inr (subst Ends (sym va) refl)) in
    let wc = pay_tier-worth b.below b.remaining gold (inr (subst Ends (sym vb) refl)) in
    let wd = pay_tier-worth c.below c.remaining platinum (inr (subst Ends (sym vc) refl)) in
    (
      pay_tier-values c.below c.remaining platinum ∙ ap (λ vs. 1000000 ∷ vs) vc,
      omega (arith, wa, wb, wc, wd),
      pay_tier-spent c.below c.remaining platinum (
          pay_tier-spent b.below b.remaining gold (
            pay_tier-spent a.below a.remaining silver (pay_tier-spent [] cost copper (λ _. refl)))),
    )

-- From a purse worth an i64 at most, a payment of a cost that is not negative succeeds exactly
-- where the purse is worth the cost; the purse then is worth the cost less, and where it fails as
-- much as before.
pub spend-worth :
    (cost : ℕ) (p : Purse)
    → worth p ≤ i64_max
    → let (paid, after) = spend (pos cost) p in
      (paid ≡ leb cost (worth p)) × (worth after + (if paid then cost else 0) ≡ worth p)
unfolding spend
spend-worth cost p small =
    let total = total_copper-worth p in
    let loop = loop_pays cost p in
    let back = purse_of-worth (pay_tiers [] cost (tiers p)).below loop.0 in
    ground (arith, small, total, loop.1, loop.2, back)
