-- ===== src/Trade/Locks.antt =====
-- What an offer locks in its owner's inventory.
use project_dawn_server.Trade.Edits.{edit_session_cases}
use project_dawn_server.Trade.{
  put_offer, offer_locks, bad_slot, trade_slots, set_side, session_of, TradeSide, is_locked,
  clear_accepts, TradeSession, Offer, side_of, offer_item, TradeManager,
}
use project_dawn_server.Base.{
  insert, eq_refl, subst, String, ◌<◌, [], ◌∷◌, set, any, true, length, false, arith, ◌<◌, some, ok,
  List, ◌≡◌, Bool, Option, ℕ,
}

any-set :
    (p : Option Offer → Bool) (xs : List (Option Offer)) (i : ℕ) (v : Option Offer)
    → i < length xs
    → p v ≡ true
    → any p (set xs i v) ≡ true
any-set p [] i v h q = absurd (omega arith)
any-set p (x ∷ xs) ℕ.zero v h q = ground (arith, q)
any-set p (x ∷ xs) (ℕ.suc i) v h q = ground (arith, any-set p xs i v (omega (arith, h)) q)

-- Every side of every session has the window's eight slots.
abbrev pub HasWindows : TradeManager → Type 0
HasWindows m =
    (id : ℕ) (s : TradeSession)
    → m.sessions id ≡ some s
    → (length s.a.offers ≡ trade_slots) × (length s.b.offers ≡ trade_slots)

side_of-clear_accepts :
    (cid : ℕ) (s : TradeSession) (old side : TradeSide)
    → side_of cid s ≡ some old
    → side.cid ≡ cid
    → side_of cid (clear_accepts (set_side cid side s)) ≡ some (record side { accepted = false })
unfolding side_of clear_accepts set_side
side_of-clear_accepts cid s old side mine same = ground (arith, mine, same)

side_of-cid :
    (cid : ℕ) (s : TradeSession) (side : TradeSide) → side_of cid s ≡ some side → side.cid ≡ cid
unfolding side_of
side_of-cid cid s side mine = ground (arith, mine)

side_of-window :
    (cid : ℕ) (s : TradeSession) (side : TradeSide)
    → side_of cid s ≡ some side
    → (length s.a.offers ≡ trade_slots) × (length s.b.offers ≡ trade_slots)
    → length side.offers ≡ trade_slots
unfolding side_of
side_of-window cid s side mine h = ground (arith, mine, h)

offer_locks_self : (offer : Offer) → offer_locks offer.location offer.slot (some offer) ≡ true
offer_locks_self offer = ground (arith, eq_refl offer.location)

session_now :
    (cid id : ℕ) (m : TradeManager) (t : TradeSession)
    → m.by_cid cid ≡ some id
    → session_of cid (record m { sessions = insert id t m.sessions }) ≡ some t
unfolding session_of
session_now cid id m t known = ground (arith, known)

locked_by :
    (cid id slot : ℕ) (location : String) (m : TradeManager) (t : TradeSession) (side : TradeSide)
    → m.by_cid cid ≡ some id
    → side_of cid t ≡ some side
    → any (offer_locks location slot) side.offers ≡ true
    → is_locked cid location slot (record m { sessions = insert id t m.sessions }) ≡ true
unfolding is_locked
locked_by cid id slot location m t side known mine locks =
    rw (session_now cid id m t known, is_locked, mine) locks

-- Where both windows of every session have their eight slots, an item that is put into the window
-- of a player leaves the slot that it names locked for that player.
pub is_locked-offer_item :
    (cid window_slot : ℕ) (offer : Offer) (m : TradeManager)
    → HasWindows m
    → (offer_item cid window_slot offer m).0 ≡ ok tt
    → is_locked cid offer.location offer.slot (offer_item cid window_slot offer m).1 ≡ true
unfolding offer_item is_locked session_of
is_locked-offer_item cid window_slot offer m windows =
    edit_session_cases (λ r. r.0 ≡ ok tt → is_locked cid offer.location offer.slot r.1 ≡ true) cid
      (bad_slot window_slot) _ m (λ e h. cc)
      λ id s side a t known there fine mine edited h.
        let offered = put_offer window_slot (some offer) side in
        let is_t : clear_accepts (set_side cid offered s) ≡ t = ground (arith, edited) in
        let room : window_slot < length side.offers =
          ground (arith, fine, side_of-window cid s side mine (windows id s there)) in
        subst
          (λ x.
            is_locked cid offer.location offer.slot (record m { sessions = insert id x m.sessions })
            ≡ true)
          is_t
          (locked_by cid id offer.slot offer.location m (clear_accepts (set_side cid offered s))
            (record offered { accepted = false }) known
            (side_of-clear_accepts cid s side offered mine (side_of-cid cid s side mine))
            (any-set (offer_locks offer.location offer.slot) side.offers window_slot (some offer)
              room (offer_locks_self offer)))
