-- ===== src/Tests/Purses.antt =====
-- The theorems on purses at a few purses, and what a payment computes there.
use project_dawn_server.Coins.Spending.{spend-worth, worth}
use project_dawn_server.Coins.{scatter, pay_tier, pay_tiers, total_copper, spend, Purse}
use project_dawn_server.Coins.Tiers.{exchange_tier-worth, exchange_tier, Exchanges}
use project_dawn_server.Base.{refl, true, if◌then◌else◌, ◌+◌, leb, arith, ◌≡◌, pos}

-- Ten gold.
abbrev ten_gold : Purse
ten_gold = record { platinum = 0; gold = 10; silver = 0; copper = 0 }

-- Five silver out of ten gold leave nine gold and ninety-five silver.
change_given :
    spend (pos 500) ten_gold ≡ (true, record { platinum = 0; gold = 9; silver = 95; copper = 0 })
unfolding spend total_copper pay_tiers pay_tier scatter
change_given = refl

spend-worth_example :
    let (paid, after) = spend (pos 500) ten_gold in
    (paid ≡ leb 500 (worth ten_gold)) × (worth after + (if paid then 500 else 0) ≡ worth ten_gold)
spend-worth_example = spend-worth 500 ten_gold (omega arith)

exchange_tier-worth_example : Exchanges ten_gold (exchange_tier 2 1 3 ten_gold)
exchange_tier-worth_example = exchange_tier-worth 2 1 3 ten_gold (omega arith) (omega arith)
