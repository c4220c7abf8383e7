-- ===== src/Trading/Closed.antt =====
-- The calls on the table keep the hands out of the windows, and so does a commit.
use project_dawn_server.Trade.Edits.{edit_session_cases}
use project_dawn_server.Trading.Intent.{OffHands}
use project_dawn_server.Trading.Accepted.{SafeOffers}
use project_dawn_server.Trading.Terms.{OffHand}
use project_dawn_server.Coins.{CoinAmount}
use project_dawn_server.Trading.Swaps.{shown}
use project_dawn_server.Trade.{
  new_session, edit_session, put_offer, bad_slot, clear_accepts, TradeSide, TradeSession,
  TradeError, Offer, side_of, set_side, retrieve_item, open_trade, offer_item, offer_coins, close,
  clear_accepts_of, TradeManager,
}
use project_dawn_server.Base.{
  subst, contains_key, ℕ_discrete, some, set, ok, inr, false, arith, ◌≡◌, insert, inl, [], ◌==◌,
  ◌∷◌, str_eq, none, Result, Option-cases, Bool-cases, Option, List, ℕ,
}

shown-set :
    (xs : List (Option Offer)) (i : ℕ) (v : Option Offer)
    → OffHand (shown xs)
    → OffHand (shown (v ∷ []))
    → OffHand (shown (set xs i v))
unfolding shown
shown-set [] i v h k = tt
shown-set (none ∷ xs) ℕ.zero none h k = h
shown-set (none ∷ xs) ℕ.zero (some o) h k = (k.0, h)
shown-set (some x ∷ xs) ℕ.zero none h k = h.1
shown-set (some x ∷ xs) ℕ.zero (some o) h k = (k.0, h.1)
shown-set (none ∷ xs) (ℕ.suc i) v h k = shown-set xs i v h k
shown-set (some x ∷ xs) (ℕ.suc i) v h k = (h.0, shown-set xs i v h.1 k)

one : (o : Offer) → str_eq o.location "cursor" ≡ false → OffHand (shown (some o ∷ []))
unfolding shown
one o away = (away, tt)

nothing : OffHand (shown (none ∷ []))
unfolding shown
nothing = tt

abbrev Off : List (Option Offer) → Type 0
Off offers = OffHand (shown offers)

set_side-OffHands :
    (cid : ℕ) (side : TradeSide) (s : TradeSession)
    → OffHands s
    → Off side.offers
    → OffHands (clear_accepts (set_side cid side s))
unfolding set_side clear_accepts
set_side-OffHands cid side s h k = elim (Bool-cases (s.a.cid == cid)) [
  | inl mine ↦ rw mine (k, h.1)
  | inr other ↦ rw other (h.0, k)
]

side_of-Off :
    (cid : ℕ) (side : TradeSide) (s : TradeSession)
    → OffHands s
    → side_of cid s ≡ some side
    → Off side.offers
unfolding side_of
side_of-Off cid side s h mine = elim (Bool-cases (s.a.cid == cid)) [
  | inl yes_a ↦
      let same : s.a.offers ≡ side.offers = ground (arith, mine, yes_a) in subst Off same h.0
  | inr no_a ↦
      let same : s.b.offers ≡ side.offers = ground (arith, mine, no_a) in subst Off same h.1
]

inserted-SafeOffers :
    (m : TradeManager) (id : ℕ) (t : TradeSession)
    → SafeOffers m
    → OffHands t
    → SafeOffers (record m { sessions = insert id t m.sessions })
inserted-SafeOffers m id t safe off j u h = elim (ℕ_discrete j id) [
  | no ne ↦ safe j u (ground (arith, ne, h))
  | yes same ↦ let it : t ≡ u = ground (arith, same, h) in subst OffHands it off
]

-- An edit that clears the accepts keeps the table safe where its new side is.
edit-SafeOffers :
    {A : Type 0} (cid : ℕ) (early : Option TradeError)
    (f : TradeSession → TradeSide → Result TradeError (A × TradeSession)) (m : TradeManager)
    → ((s : TradeSession) (side : TradeSide) (a : A) (t : TradeSession)
        → OffHands s
        → Off side.offers
        → f s side ≡ ok (a, t)
        → OffHands t)
    → SafeOffers m
    → SafeOffers (edit_session cid early f m).1
edit-SafeOffers cid early f m keeps safe =
    edit_session_cases (λ r. SafeOffers r.1) cid early f m (λ e. safe)
      λ id s side a t known there fine mine edited.
        let off = safe id s there in
        inserted-SafeOffers m id t safe
          (keeps s side a t off (side_of-Off cid side s off mine) edited)

pub offer_item-SafeOffers :
    (cid window_slot : ℕ) (o : Offer) (m : TradeManager)
    → str_eq o.location "cursor" ≡ false
    → SafeOffers m
    → SafeOffers (offer_item cid window_slot o m).1
unfolding offer_item
offer_item-SafeOffers cid window_slot o m away =
    edit-SafeOffers cid (bad_slot window_slot) _ m λ s side a t off own edited.
      let side' = put_offer window_slot (some o) side in
      let it : clear_accepts (set_side cid side' s) ≡ t = ground (arith, edited) in
      subst OffHands it (
        set_side-OffHands cid side' s off
          (shown-set side.offers window_slot (some o) own (one o away)))

pub retrieve_item-SafeOffers :
    (cid window_slot : ℕ) (m : TradeManager)
    → SafeOffers m
    → SafeOffers (retrieve_item cid window_slot m).1
unfolding retrieve_item
retrieve_item-SafeOffers cid window_slot m =
    edit-SafeOffers cid (bad_slot window_slot) _ m λ s side a t off own edited.
      let side' = put_offer window_slot none side in
      let it : clear_accepts (set_side cid side' s) ≡ t = ground (arith, edited) in
      subst OffHands it
        (set_side-OffHands cid side' s off (shown-set side.offers window_slot none own nothing))

pub offer_coins-SafeOffers :
    (cid : ℕ) (coins : CoinAmount) (m : TradeManager)
    → SafeOffers m
    → SafeOffers (offer_coins cid coins m).1
unfolding offer_coins
offer_coins-SafeOffers cid coins m = edit-SafeOffers cid none _ m λ s side a t off own edited.
    let side' : TradeSide = record side { coins = coins.get } in
    let it : clear_accepts (set_side cid side' s) ≡ t = ground (arith, edited) in
    subst OffHands it (set_side-OffHands cid side' s off own)

pub open_trade-SafeOffers :
    (a b : ℕ) (m : TradeManager) → SafeOffers m → SafeOffers (open_trade a b m).1
unfolding open_trade shown
open_trade-SafeOffers a b m safe = elim (Bool-cases (a == b)) [
  | inl same ↦ rw same safe
  | inr differ ↦ rw differ (elim (Bool-cases (contains_key a m.by_cid)) [
    | inl busy ↦ rw busy safe
    | inr free ↦ rw free (elim (Bool-cases (contains_key b m.by_cid)) [
      | inl busy ↦ rw busy safe
      | inr also ↦
          rw also (λ j u h. inserted-SafeOffers m m.next_id (new_session a b) safe (tt, tt) j u h)
    ])
  ])
]

pub close-SafeOffers : (cid : ℕ) (m : TradeManager) → SafeOffers m → SafeOffers (close cid m).1
unfolding close
close-SafeOffers cid m safe = elim (Option-cases (m.by_cid cid)) [
  | inl gone ↦ rw (gone, close) safe
  | inr (id, known) ↦ elim (Option-cases (m.sessions id)) [
    | inl gone ↦ rw (known, gone, close) safe
    | inr (s, there) ↦ rw (known, there, close) (λ j u h. safe j u (ground (arith, h)))
  ]
]

pub clear_accepts_of-SafeOffers :
    (cid : ℕ) (m : TradeManager) → SafeOffers m → SafeOffers (clear_accepts_of cid m)
unfolding clear_accepts_of clear_accepts
clear_accepts_of-SafeOffers cid m safe = elim (Option-cases (m.by_cid cid)) [
  | inl gone ↦ rw (gone, clear_accepts_of) safe
  | inr (id, known) ↦ elim (Option-cases (m.sessions id)) [
    | inl gone ↦ rw (known, gone, clear_accepts_of) safe
    | inr (s, there) ↦
        rw (known, there, clear_accepts_of)
          (inserted-SafeOffers m id (clear_accepts s) safe (safe id s there))
  ]
]
