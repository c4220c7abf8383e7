-- ===== src/Coins.antt =====
-- crates/protocol/src/world.rs: the arithmetic of a purse of four coin stacks. A purse here has no
-- negative tier: its tiers are natural numbers, and `CoinAmount` lets no other amount in.
pub mod Spending
pub mod Tiers
use project_dawn_server.Base.{
  some, ◌||◌, none, is_negative, Option, true, ltb, false, [], ◌==◌, ◌&&◌, ◌%◌, ◌∷◌, pos, negsuc,
  leb, ◌/◌, ◌*◌, ℤ, min, List, Bool, ◌-◌, ◌+◌, ℕ, if◌then◌else◌,
}

pub record Purse : Type 0 where
  pub platinum : ℕ
  pub gold : ℕ
  pub silver : ℕ
  pub copper : ℕ

-- The amount that a client sends, signed as on the wire.
pub record Coins : Type 0 where
  pub platinum : ℤ
  pub gold : ℤ
  pub silver : ℤ
  pub copper : ℤ

unfoldable pub has_negative : Coins → Bool
has_negative c =
    is_negative c.platinum || is_negative c.gold || is_negative c.silver || is_negative c.copper

abbrev pub unsigned : ℤ → ℕ
unsigned (pos n) = n
unsigned (negsuc n) = 0

-- An amount without a negative tier.
pub record CoinAmount : Type 0 where
  pub get : Purse

unfoldable pub try_from : Coins → Option CoinAmount
try_from c =
    if has_negative c
    then none
    else some (record {
      get = record {
        platinum = unsigned c.platinum;
        gold = unsigned c.gold;
        silver = unsigned c.silver;
        copper = unsigned c.copper;
      };
    })

abbrev pub zero_coins : Purse
zero_coins = record { platinum = 0; gold = 0; silver = 0; copper = 0 }

abbrev pub i64_max : ℕ
i64_max = 9223372036854775807

-- A sum or a product that saturates at the largest `i64`.
abbrev pub sat : ℕ → ℕ
sat n = min n i64_max

unfoldable pub total_copper : Purse → ℕ
total_copper p = sat (
    sat (sat (p.copper + sat (p.silver * 100)) + sat (p.gold * 10000)) + sat (p.platinum * 1000000))

-- `from_copper`; a negative amount counts as nothing.
unfoldable pub from_copper : ℤ → Purse
from_copper (negsuc n) = record { platinum = 0; gold = 0; silver = 0; copper = 0 }
from_copper (pos amount) = record {
  platinum = amount / 1000000;
  gold = amount % 1000000 / 10000;
  silver = amount % 1000000 % 10000 / 100;
  copper = amount % 1000000 % 10000 % 100;
}

unfoldable pub can_afford : Purse → ℕ → Bool
can_afford p cost = leb cost (total_copper p)

unfoldable pub has_at_least : Purse → Purse → Bool
has_at_least p other =
    leb other.platinum p.platinum
    && leb other.gold p.gold
    && leb other.silver p.silver
    && leb other.copper p.copper

unfoldable pub add_each : Purse → Purse → Purse
add_each p other = record {
  platinum = sat (p.platinum + other.platinum);
  gold = sat (p.gold + other.gold);
  silver = sat (p.silver + other.silver);
  copper = sat (p.copper + other.copper);
}

-- The caller has tested `has_at_least`.
unfoldable pub sub_each : Purse → Purse → Purse
sub_each p other = record {
  platinum = p.platinum - other.platinum;
  gold = p.gold - other.gold;
  silver = p.silver - other.silver;
  copper = p.copper - other.copper;
}

unfoldable pub add_payout : ℤ → Purse → Purse
add_payout amount p = add_each p (from_copper amount)

-- A stack of coins of one value.
pub record Tier : Type 0 where
  pub count : ℕ
  pub value : ℕ

-- The stacks from copper to platinum.
abbrev pub tiers : Purse → List Tier
tiers p =
    record { count = p.copper; value = 1 }
    ∷ record { count = p.silver; value = 100 }
    ∷ record { count = p.gold; value = 10000 }
    ∷ record { count = p.platinum; value = 1000000 }
    ∷ []

-- Change goes into the lower stacks, the nearest first.
unfoldable pub scatter : ℕ → List Tier → List Tier
scatter change [] = []
scatter change (t ∷ ts) =
    record t { count = t.count + change / t.value } ∷ scatter (change % t.value) ts

-- What is still to be paid, and the stacks, from the nearest below to copper and from here up.
pub record Paying : Type 0 where
  pub below : List Tier
  pub remaining : ℕ

-- One round of the loop over the tiers.
unfoldable pub pay_tier : List Tier → ℕ → Tier → Paying
pay_tier below remaining t =
    let whole = min (remaining / t.value) t.count in
    let count = t.count - whole in
    let left = remaining - whole * t.value in
    if remaining == 0
    then record { below = t ∷ below; remaining = 0 }
    else if ltb 0 left && ltb left t.value && ltb 0 count
    then record {
      below = record t { count = count - 1 } ∷ scatter (t.value - left) below;
      remaining = 0;
    }
    else record { below = record t { count = count } ∷ below; remaining = left }

unfoldable pub pay_tiers : List Tier → ℕ → List Tier → Paying
pay_tiers below remaining [] = record { below = below; remaining = remaining }
pay_tiers below remaining (t ∷ ts) =
    let next = pay_tier below remaining t in pay_tiers next.below next.remaining ts

-- The count at a place of a list of stacks.
abbrev pub count_at : List Tier → ℕ → ℕ
count_at [] i = 0
count_at (t ∷ ts) ℕ.zero = t.count
count_at (t ∷ ts) (ℕ.suc i) = count_at ts i

-- The stacks come back from platinum to copper.
abbrev pub purse_of : List Tier → Purse
purse_of ts = record {
  platinum = count_at ts 0;
  gold = count_at ts 1;
  silver = count_at ts 2;
  copper = count_at ts 3;
}

-- Whether the cost was paid, and the purse.
unfoldable pub spend : ℤ → Purse → Bool × Purse
spend (negsuc n) p = (false, p)
spend (pos cost) p =
    if ltb (total_copper p) cost
    then (false, p)
    else (let paid = pay_tiers [] cost (tiers p) in
        if ltb 0 paid.remaining
        then (true, from_copper (pos (total_copper p - cost)))
        else (true, purse_of paid.below))

unfoldable pub pay_value_of : Purse → Purse → Bool × Purse
pay_value_of want p = spend (pos (total_copper want)) p
