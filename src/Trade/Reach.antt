-- ===== src/Trade/Reach.antt =====
-- Any sequence of calls on the trade table.
use project_dawn_server.Trade.Closing.{close-IsConsistent}
use project_dawn_server.Trade.Edits.{
  cleared-SameTraders, replaced-IsConsistent, accept-IsConsistent, offer_coins-IsConsistent,
  edit_session_cases, retrieve_item-IsConsistent, offer_item-IsConsistent,
}
use project_dawn_server.Trade.Sessions.{open_trade-IsConsistent, new-IsConsistent, IsConsistent}
use project_dawn_server.Trade.{
  bad_slot, edit_session, close, accept, offer_coins, TradeSide, retrieve_item, TradeSession,
  offer_item, clear_accepts, TradeError, open_trade, new, clear_accepts_of, TradeManager, Offer,
}
use project_dawn_server.Coins.{CoinAmount}
use project_dawn_server.Base.{
  u64_mod, Option-cases, inl, inr, refl, none, ◌≤◌, ◌≡◌, arith, Result, ◌<◌, length, ◌+◌, Option, ℕ,
  List, [], ◌∷◌,
}

-- One call of a public method, with its arguments.
pub data Call : Type 0 where
  call_open : ℕ → ℕ → Call
  call_offer_item : ℕ → ℕ → Offer → Call
  call_retrieve_item : ℕ → ℕ → Call
  call_offer_coins : ℕ → CoinAmount → Call
  call_accept call_clear_accepts call_close : ℕ → Call

-- The table after a call.
unfoldable pub after_call : Call → TradeManager → TradeManager
after_call (call_open a b) m = (open_trade a b m).1
after_call (call_offer_item cid slot offer) m = (offer_item cid slot offer m).1
after_call (call_retrieve_item cid slot) m = (retrieve_item cid slot m).1
after_call (call_offer_coins cid coins) m = (offer_coins cid coins m).1
after_call (call_accept cid) m = (accept cid m).1
after_call (call_clear_accepts cid) m = clear_accepts_of cid m
after_call (call_close cid) m = (close cid m).1

-- The table after a sequence of calls, the first of them first.
unfoldable pub after_calls : List Call → TradeManager → TradeManager
after_calls [] m = m
after_calls (c ∷ cs) m = after_calls cs (after_call c m)

pub edit_session-next_id :
    {A : Type 0} (cid : ℕ) (early : Option TradeError)
    (f : TradeSession → TradeSide → Result TradeError (A × TradeSession)) (m : TradeManager)
    → (edit_session cid early f m).1.next_id ≡ m.next_id
edit_session-next_id cid early f m =
    edit_session_cases (λ r. r.1.next_id ≡ m.next_id) cid early f m (λ e. refl)
      λ id s side a t known there fine mine edited. refl

-- A call takes one session number at most.
after_call-next_id :
    (c : Call) (m : TradeManager)
    → m.next_id + 1 < u64_mod
    → (after_call c m).next_id ≤ m.next_id + 1
unfolding after_call open_trade offer_item retrieve_item offer_coins accept clear_accepts_of close
after_call-next_id (call_open a b) m room = ground arith
after_call-next_id (call_offer_item cid slot offer) m room =
    omega (arith, edit_session-next_id cid (bad_slot slot) _ m)
after_call-next_id (call_retrieve_item cid slot) m room =
    omega (arith, edit_session-next_id cid (bad_slot slot) _ m)
after_call-next_id (call_offer_coins cid coins) m room =
    omega (arith, edit_session-next_id cid none _ m)
after_call-next_id (call_accept cid) m room = omega (arith, edit_session-next_id cid none _ m)
after_call-next_id (call_clear_accepts cid) m room = ground arith
after_call-next_id (call_close cid) m room = ground arith

pub clear_accepts_of-IsConsistent :
    (cid : ℕ) (m : TradeManager) → IsConsistent m → IsConsistent (clear_accepts_of cid m)
unfolding clear_accepts_of clear_accepts
clear_accepts_of-IsConsistent cid m c = elim (Option-cases (m.by_cid cid)) [
  | inl gone ↦ rw (gone, clear_accepts_of) c
  | inr (id, known) ↦ elim (Option-cases (m.sessions id)) [
    | inl gone ↦ rw (known, gone, clear_accepts_of) c
    | inr (s, there) ↦
        rw (known, there, clear_accepts_of)
          (replaced-IsConsistent m id s (clear_accepts s) c there
            (cleared-SameTraders s s (refl, refl)))
  ]
]

after_call-IsConsistent :
    (c : Call) (m : TradeManager)
    → m.next_id + 1 < u64_mod
    → IsConsistent m
    → IsConsistent (after_call c m)
unfolding after_call
after_call-IsConsistent (call_open a b) m room good = open_trade-IsConsistent a b m room good
after_call-IsConsistent (call_offer_item cid slot offer) m room good =
    offer_item-IsConsistent cid slot offer m good
after_call-IsConsistent (call_retrieve_item cid slot) m room good =
    retrieve_item-IsConsistent cid slot m good
after_call-IsConsistent (call_offer_coins cid coins) m room good =
    offer_coins-IsConsistent cid coins m good
after_call-IsConsistent (call_accept cid) m room good = accept-IsConsistent cid m good
after_call-IsConsistent (call_clear_accepts cid) m room good =
    clear_accepts_of-IsConsistent cid m good
after_call-IsConsistent (call_close cid) m room good = close-IsConsistent cid m good

after_calls-IsConsistent :
    (cs : List Call) (m : TradeManager)
    → m.next_id + length cs < u64_mod
    → IsConsistent m
    → IsConsistent (after_calls cs m)
unfolding after_calls
after_calls-IsConsistent [] m room c = c
after_calls-IsConsistent (x ∷ xs) m room c =
    let below : m.next_id + 1 < u64_mod = omega arith in
    after_calls-IsConsistent xs (after_call x m) (omega (arith, after_call-next_id x m below))
      (after_call-IsConsistent x m below c)

-- Any sequence of fewer than 2^64 calls of the trade manager, with any arguments, leaves a table
-- whose index and sessions agree: an indexed player is in the session named, both players of a
-- session, who differ, are indexed to it, and no session has a number that is still to be given.
pub calls-IsConsistent : (cs : List Call) → length cs < u64_mod → IsConsistent (after_calls cs new)
unfolding new
calls-IsConsistent cs room = after_calls-IsConsistent cs new (omega (arith, room)) new-IsConsistent
