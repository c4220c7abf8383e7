-- ===== src/Base/Maps.antt =====
-- A `HashMap` with number keys, as the function from a key to what it holds.
use Prim.Native.Nat.{ℕ, zero, suc, ◌+◌, ◌<◌}
use mathlib.Core.Path.{◌≡◌, refl, ap}
use mathlib.Core.Logic.{◌≢◌}
use mathlib.Core.Bool.{Bool}
use mathlib.Core.Option.{Option, none, some}
use native.Mathlib.Omega.{arith}
use native.Mathlib.Decide.{ℕ_discrete}
use project_dawn_server.Base.Tests.{◌==◌, if◌then◌else◌, is_some}

abbrev pub Map {ℓ} : Type ℓ → Type ℓ
Map V = ℕ → Option V

module _ {ℓ} {V : Type ℓ} where
  abbrev pub empty : Map V
  empty k = none

  -- The map with what it holds under one key replaced.
  abbrev pub update : ℕ → Option V → Map V → Map V
  update k o m j = if j == k then o else m j

  abbrev pub insert : ℕ → V → Map V → Map V
  insert k v = update k (some v)

  abbrev pub remove : ℕ → Map V → Map V
  remove k = update k none

  abbrev pub contains_key : ℕ → Map V → Bool
  contains_key k m = is_some (m k)

  -- `if let Some(v) = o { m.insert(k, v); }`
  abbrev pub insert_some : ℕ → Option V → Map V → Map V
  insert_some k none m = m
  insert_some k (some v) m = insert k v m

  -- The sum of what a map holds under the keys below `n`.
  pub sum_below : (Option V → ℕ) → ℕ → Map V → ℕ
  sum_below f zero m = 0
  sum_below f (suc n) m = f (m n) + sum_below f n m

  pub sum_below-suc :
      (f : Option V → ℕ) (n : ℕ) (m : Map V) → sum_below f (suc n) m ≡ f (m n) + sum_below f n m
  unfolding sum_below
  sum_below-suc f n m = refl

  pub sum_below-none : (f : Option V → ℕ) (m : Map V) → sum_below f zero m ≡ 0
  unfolding sum_below
  sum_below-none f m = refl

  pub sum_below-eq :
      (f : Option V → ℕ) (n : ℕ) (m w : Map V)
      → ((k : ℕ) → k < n → m k ≡ w k)
      → sum_below f n m ≡ sum_below f n w
  unfolding sum_below
  sum_below-eq f zero m w h = refl
  sum_below-eq f (suc n) m w h =
      ground (arith, h n, sum_below-eq f n m w (λ k l. h k (omega arith)))

  -- Two maps that differ under one key only.
  pub sum_below-one :
      (f : Option V → ℕ) (n a : ℕ) (m w : Map V)
      → a < n
      → ((k : ℕ) → k ≢ a → m k ≡ w k)
      → sum_below f n m + f (w a) ≡ sum_below f n w + f (m a)
  unfolding sum_below
  sum_below-one f zero a m w l h = elim l [ ]
  sum_below-one f (suc n) a m w l h = elim (ℕ_discrete n a) [
    | yes e ↦
        let same = sum_below-eq f n m w (λ k b. h k (omega arith)) in
        omega (arith, same, ap (λ k. f (m k)) e, ap (λ k. f (w k)) e)
    | no ne ↦ omega (arith, ap f (h n ne), sum_below-one f n a m w (omega arith) h)
  ]

  -- Two maps that differ under two keys only.
  pub sum_below-two :
      (f : Option V → ℕ) (n a b : ℕ) (m w : Map V)
      → a < n
      → b < n
      → a ≢ b
      → ((k : ℕ) → k ≢ a → k ≢ b → m k ≡ w k)
      → sum_below f n m + f (w a) + f (w b) ≡ sum_below f n w + f (m a) + f (m b)
  sum_below-two f n a b m w la lb ne h =
      let mid : Map V = update a (w a) m in
      let one = sum_below-one f n a m mid la (λ k d. ground arith) in
      let two =
        sum_below-one f n b mid w lb (λ k d. elim (ℕ_discrete k a) [
          | yes e ↦ ground arith
          | no o ↦ ground (arith, h k o d)
        ]) in
      let at_a : mid a ≡ w a = ground arith in
      let at_b : mid b ≡ m b = ground arith in omega (arith, one, two, ap f at_a, ap f at_b)

  pub sum_below-zero :
      (f : Option V → ℕ) (n : ℕ) (m : Map V) → ((k : ℕ) → k < n → f (m k) ≡ 0) → sum_below f n m ≡ 0
  unfolding sum_below
  sum_below-zero f zero m h = refl
  sum_below-zero f (suc n) m h =
      omega (arith, h n (omega arith), sum_below-zero f n m (λ k l. h k (omega arith)))
