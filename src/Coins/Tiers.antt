-- ===== src/Coins/Tiers.antt =====
-- crates/protocol/src/world.rs: coins made of an amount, and the banker's exchange of one tier for
-- another.
use project_dawn_server.Coins.Spending.{worth}
use project_dawn_server.Coins.{i64_max, sat, from_copper, Purse}
use project_dawn_server.Base.{
  refl, inr, inl, Bool-cases, ◌||◌, u32_mod, ◌%◌, err, arith, ◌/◌, ◌≤◌, ok, false, ◌<◌, ◌+◌, ◌*◌,
  ◌≡◌, pos, Result, ◌-◌, ltb, ◌==◌, ℕ, if◌then◌else◌,
}

pub data ExchangeError : Type 0 where
  same_tier invalid_tier nothing_to_convert not_enough_to_convert not_enough_for_one : ExchangeError

-- `tier_count` and `TIER_VALUE`, from copper (0) to platinum (3).
unfoldable pub tier_count : Purse → ℕ → ℕ
tier_count p tier =
    if tier == 0
    then p.copper
    else if tier == 1
    then p.silver
    else if tier == 2
    then p.gold
    else p.platinum

unfoldable pub tier_value : ℕ → ℕ
tier_value tier =
    if tier == 0 then 1 else if tier == 1 then 100 else if tier == 2 then 10000 else 1000000

-- The count of a tier, replaced.
unfoldable pub set_tier : ℕ → ℕ → Purse → Purse
set_tier tier n p =
    if tier == 0
    then record p { copper = n }
    else if tier == 1
    then record p { silver = n }
    else if tier == 2
    then record p { gold = n }
    else record p { platinum = n }

-- `adjust_tier` by a number taken away, which is there, and by one that is added.
unfoldable pub take_tier : ℕ → ℕ → Purse → Purse
take_tier tier n p = set_tier tier (tier_count p tier - n) p

unfoldable pub add_tier : ℕ → ℕ → Purse → Purse
add_tier tier n p = set_tier tier (sat (tier_count p tier + n)) p

unfoldable pub exchange_tier : ℕ → ℕ → ℕ → Purse → Result ExchangeError (Unit {0}) × Purse
exchange_tier from_tier to_tier qty p =
    let from_v = tier_value from_tier in
    let to_v = tier_value to_tier in
    let value = sat (qty * from_v) in
    let to_count = value / to_v in
    let consumed = qty - value % to_v / from_v in
    if from_tier == to_tier
    then (err same_tier, p)
    else if ltb 3 from_tier || ltb 3 to_tier
    then (err invalid_tier, p)
    else if qty == 0
    then (err nothing_to_convert, p)
    else if ltb (tier_count p from_tier) qty
    then (err not_enough_to_convert, p)
    else if to_count == 0
    then (err not_enough_for_one, p)
    else (ok tt, add_tier to_tier to_count (take_tier from_tier consumed p))

-- An exchange keeps what the purse is worth, and changes nothing where it is refused.
abbrev pub Exchanges : Purse → Result ExchangeError (Unit {0}) × Purse → Type 0
Exchanges p (ok _, after) = worth after ≡ worth p
Exchanges p (err _, after) = after ≡ p

-- The conversion itself, between two tiers.
converted :
    (from_tier to_tier qty : ℕ) (p : Purse)
    → worth p ≤ i64_max
    → qty < u32_mod
    → (from_tier == to_tier) ≡ false
    → ltb 3 from_tier || ltb 3 to_tier ≡ false
    → ltb (tier_count p from_tier) qty ≡ false
    → let from_v = tier_value from_tier in
      let to_v = tier_value to_tier in
      let value = sat (qty * from_v) in
      worth (add_tier to_tier (value / to_v) (take_tier from_tier (qty - value % to_v / from_v) p))
      ≡ worth p
unfolding take_tier add_tier set_tier tier_count tier_value
converted from_tier to_tier qty p small low same known enough =
    ground (arith, small, low, same, known, enough)

-- From a purse worth an i64 at most, an exchange of a u32 count of coins keeps what the purse is
-- worth, and where it is refused changes nothing.
pub exchange_tier-worth :
    (from_tier to_tier qty : ℕ) (p : Purse)
    → worth p ≤ i64_max
    → qty < u32_mod
    → Exchanges p (exchange_tier from_tier to_tier qty p)
unfolding exchange_tier
exchange_tier-worth from_tier to_tier qty p small low =
    let value = sat (qty * tier_value from_tier) in
    elim (Bool-cases (from_tier == to_tier)) [
      | inl same ↦ rw same refl
      | inr apart ↦ rw apart (elim (Bool-cases (ltb 3 from_tier || ltb 3 to_tier)) [
        | inl wild ↦ rw wild refl
        | inr known ↦ rw known (elim (Bool-cases (qty == 0)) [
          | inl nil ↦ rw nil refl
          | inr some_coins ↦ rw some_coins (elim (Bool-cases (ltb (tier_count p from_tier) qty)) [
            | inl few ↦ rw few refl
            | inr enough ↦ rw enough (elim (Bool-cases (value / tier_value to_tier == 0)) [
              | inl nothing ↦ rw nothing refl
              | inr whole ↦
                  rw whole (converted from_tier to_tier qty p small low apart known enough)
            ])
          ])
        ])
      ])
    ]

-- The purse that is made of an amount of copper is worth that amount and has fewer than a hundred
-- coins in each tier below platinum.
pub from_copper-worth :
    (n : ℕ)
    → let p = from_copper (pos n) in
      (worth p ≡ n) × (p.copper < 100) × (p.silver < 100) × (p.gold < 100)
unfolding from_copper
from_copper-worth n = (omega arith, omega arith, omega arith, omega arith)
