-- ===== src/Trade/Edits.antt =====
-- What the edits of a trade session do: the table stays consistent, and a change to either offer
-- withdraws both players' consent.
use project_dawn_server.Trade.Sessions.{IsConsistent}
use project_dawn_server.Trade.{
  not_trading, session_of, Traded, put_offer, bad_slot, TradeSide, TradeError, set_side, Offer,
  side_of, retrieve_item, offer_item, offer_coins, edit_session, clear_accepts, accept,
  TradeSession, TradeManager,
}
use project_dawn_server.Coins.{CoinAmount}
use project_dawn_server.Base.{
  subst, false, err, Result-cases, inr, inl, refl, Option-cases, true, ok, insert, arith, Result,
  some, none, ◌≡◌, Option, ℕ,
}

abbrev pub SameTraders : TradeSession → TradeSession → Type 0
SameTraders s t = (t.a.cid ≡ s.a.cid) × (t.b.cid ≡ s.b.cid)

pub replaced-IsConsistent :
    (m : TradeManager) (id : ℕ) (s t : TradeSession)
    → IsConsistent m
    → m.sessions id ≡ some s
    → SameTraders s t
    → IsConsistent (record m { sessions = insert id t m.sessions })
replaced-IsConsistent m id s t c there same = record {
  covered = λ cid j h. ground (arith, c.covered cid j h);
  listed_a = λ j x h. ground (arith, c.listed_a id s, c.listed_a j x);
  listed_b = λ j x h. ground (arith, c.listed_b id s, c.listed_b j x);
  apart = λ j x h. ground (arith, c.apart id s, c.apart j x);
  fresh = λ j h. ground (arith, c.fresh j);
}

-- An edit is refused and changes nothing, or replaces the session that covers the player.
pub edit_session_cases :
    {A : Type 0} (P : Traded A → Type 0) (cid : ℕ) (early : Option TradeError)
    (f : TradeSession → TradeSide → Result TradeError (A × TradeSession)) (m : TradeManager)
    → ((e : TradeError) → P (err e, m))
    → ((id : ℕ) (s : TradeSession) (side : TradeSide) (a : A) (t : TradeSession)
        → m.by_cid cid ≡ some id
        → m.sessions id ≡ some s
        → early ≡ none
        → side_of cid s ≡ some side
        → f s side ≡ ok (a, t)
        → P (ok a, record m { sessions = insert id t m.sessions }))
    → P (edit_session cid early f m)
unfolding edit_session
edit_session_cases P cid early f m refused replaced = elim (Option-cases (m.by_cid cid)) [
  | inl gone ↦ rw (gone, edit_session) (refused not_trading)
  | inr (id, known) ↦ elim (Option-cases (m.sessions id)) [
    | inl gone ↦ rw (known, gone, edit_session) (refused not_trading)
    | inr (s, there) ↦ elim (Option-cases early) [
      | inr (e, early_on) ↦ rw (known, there, early_on, edit_session) (refused e)
      | inl fine ↦ elim (Option-cases (side_of cid s)) [
        | inl gone ↦ rw (known, there, fine, gone, edit_session) (refused not_trading)
        | inr (side, mine) ↦ elim (Result-cases (f s side)) [
          | inr (e, no_edit) ↦ rw (known, there, fine, mine, no_edit, edit_session) (refused e)
          | inl ((a, t), edited) ↦
              rw (known, there, fine, mine, edited, edit_session)
                (replaced id s side a t known there fine mine edited)
        ]
      ]
    ]
  ]
]

-- An edit that keeps the two players keeps the table consistent.
edit_session-IsConsistent :
    {A : Type 0} (cid : ℕ) (early : Option TradeError)
    (f : TradeSession → TradeSide → Result TradeError (A × TradeSession)) (m : TradeManager)
    → ((s : TradeSession) (side : TradeSide) (a : A) (t : TradeSession)
        → side_of cid s ≡ some side
        → f s side ≡ ok (a, t)
        → SameTraders s t)
    → IsConsistent m
    → IsConsistent (edit_session cid early f m).1
edit_session-IsConsistent cid early f m keeps c =
    edit_session_cases (λ r. IsConsistent r.1) cid early f m (λ e. c)
      (λ id s side a t known there fine mine edited.
        replaced-IsConsistent m id s t c there (keeps s side a t mine edited))

set_side-SameTraders :
    (cid : ℕ) (s : TradeSession) (old side : TradeSide)
    → side_of cid s ≡ some old
    → side.cid ≡ old.cid
    → SameTraders s (set_side cid side s)
unfolding side_of set_side
set_side-SameTraders cid s old side mine same = ground arith

pub cleared-SameTraders : (s t : TradeSession) → SameTraders s t → SameTraders s (clear_accepts t)
unfolding clear_accepts
cleared-SameTraders s t h = h

pub offer_item-IsConsistent :
    (cid window_slot : ℕ) (offer : Offer) (m : TradeManager)
    → IsConsistent m
    → IsConsistent (offer_item cid window_slot offer m).1
unfolding offer_item
offer_item-IsConsistent cid window_slot offer m =
    edit_session-IsConsistent cid (bad_slot window_slot) _ m (λ s side a t mine edited. ground (
      arith,
      set_side-SameTraders cid s side (put_offer window_slot (some offer) side) mine refl,
      cleared-SameTraders s (set_side cid (put_offer window_slot (some offer) side) s),
    ))

pub retrieve_item-IsConsistent :
    (cid window_slot : ℕ) (m : TradeManager)
    → IsConsistent m
    → IsConsistent (retrieve_item cid window_slot m).1
unfolding retrieve_item
retrieve_item-IsConsistent cid window_slot m =
    edit_session-IsConsistent cid (bad_slot window_slot) _ m (λ s side a t mine edited. ground (
      arith,
      set_side-SameTraders cid s side (put_offer window_slot none side) mine refl,
      cleared-SameTraders s (set_side cid (put_offer window_slot none side) s),
    ))

pub offer_coins-IsConsistent :
    (cid : ℕ) (coins : CoinAmount) (m : TradeManager)
    → IsConsistent m
    → IsConsistent (offer_coins cid coins m).1
unfolding offer_coins
offer_coins-IsConsistent cid coins m =
    edit_session-IsConsistent cid none _ m (λ s side a t mine edited. ground (
      arith,
      set_side-SameTraders cid s side (record side { coins = coins.get }) mine refl,
      cleared-SameTraders s (set_side cid (record side { coins = coins.get }) s),
    ))

pub accept-IsConsistent :
    (cid : ℕ) (m : TradeManager) → IsConsistent m → IsConsistent (accept cid m).1
unfolding accept
accept-IsConsistent cid m = edit_session-IsConsistent cid none _ m (λ s side a t mine edited.
    ground (arith, set_side-SameTraders cid s side (record side { accepted = true }) mine refl))

-- A change to an offer that is accepted leaves the player's session with neither side accepted.
abbrev pub WithdrawsConsent : ℕ → TradeManager → Traded (Unit {0}) → Type 0
WithdrawsConsent cid m (ok _, m') =
    (s : TradeSession) × (session_of cid m' ≡ some s)
    × (s.a.accepted ≡ false)
    × (s.b.accepted ≡ false)
WithdrawsConsent cid m (err _, m') = m' ≡ m

cleared-WithdrawsConsent :
    (cid id : ℕ) (m : TradeManager) (t : TradeSession)
    → m.by_cid cid ≡ some id
    → WithdrawsConsent cid m (ok tt, record m { sessions = insert id (clear_accepts t) m.sessions })
unfolding session_of clear_accepts
cleared-WithdrawsConsent cid id m t known =
    (clear_accepts t, rw (known, session_of) (ground arith), refl, refl)

-- An edit whose outcome has its consent withdrawn withdraws the consent.
edit_session-WithdrawsConsent :
    (cid : ℕ) (early : Option TradeError)
    (f : TradeSession → TradeSide → Result TradeError (Unit {0} × TradeSession)) (m : TradeManager)
    → ((s : TradeSession) (side : TradeSide) (t : TradeSession)
        → f s side ≡ ok (tt, t)
        → (u : TradeSession) × (clear_accepts u ≡ t))
    → WithdrawsConsent cid m (edit_session cid early f m)
edit_session-WithdrawsConsent cid early f m clears =
    edit_session_cases (WithdrawsConsent cid m) cid early f m (λ e. refl)
      λ id s side a t known there fine mine edited.
        let (u, cleared) = clears s side t edited in
        subst (λ t. WithdrawsConsent cid m (ok tt, record m { sessions = insert id t m.sessions }))
          cleared (cleared-WithdrawsConsent cid id m u known)

offer_item-WithdrawsConsent :
    (cid window_slot : ℕ) (offer : Offer) (m : TradeManager)
    → WithdrawsConsent cid m (offer_item cid window_slot offer m)
unfolding offer_item
offer_item-WithdrawsConsent cid window_slot offer m =
    edit_session-WithdrawsConsent cid (bad_slot window_slot) _ m
      λ s side t edited. (set_side cid (put_offer window_slot (some offer) side) s, ground arith)

retrieve_item-WithdrawsConsent :
    (cid window_slot : ℕ) (m : TradeManager)
    → WithdrawsConsent cid m (retrieve_item cid window_slot m)
unfolding retrieve_item
retrieve_item-WithdrawsConsent cid window_slot m =
    edit_session-WithdrawsConsent cid (bad_slot window_slot) _ m
      λ s side t edited. (set_side cid (put_offer window_slot none side) s, ground arith)

offer_coins-WithdrawsConsent :
    (cid : ℕ) (coins : CoinAmount) (m : TradeManager)
    → WithdrawsConsent cid m (offer_coins cid coins m)
unfolding offer_coins
offer_coins-WithdrawsConsent cid coins m =
    edit_session-WithdrawsConsent cid none _ m
      λ s side t edited. (set_side cid (record side { coins = coins.get }) s, ground arith)

-- Putting an item into the window, taking one back and changing the coins each either are refused
-- and change nothing, or leave the session of the player with neither side accepted.
pub edits-WithdrawsConsent :
    (cid window_slot : ℕ) (offer : Offer) (coins : CoinAmount) (m : TradeManager)
    → WithdrawsConsent cid m (offer_item cid window_slot offer m)
      × WithdrawsConsent cid m (retrieve_item cid window_slot m)
      × WithdrawsConsent cid m (offer_coins cid coins m)
edits-WithdrawsConsent cid window_slot offer coins m = (
  offer_item-WithdrawsConsent cid window_slot offer m,
  retrieve_item-WithdrawsConsent cid window_slot m,
  offer_coins-WithdrawsConsent cid coins m,
)
