-- ===== src/Tests/Trades.antt =====
-- The theorems on trades at two players who have opened one.
use project_dawn_server.Trade.Locks.{is_locked-offer_item, HasWindows}
use project_dawn_server.Trade.Edits.{edits-WithdrawsConsent, WithdrawsConsent}
use project_dawn_server.Trade.Sessions.{IsConsistent}
use project_dawn_server.Trade.Reach.{
  call_close, call_accept, call_offer_coins, call_offer_item, after_call, calls-IsConsistent,
  call_open, after_calls, Call,
}
use project_dawn_server.Trade.Closing.{close-Closes, accept-Accepts, Closes, Accepts}
use project_dawn_server.Coins.{CoinAmount}
use project_dawn_server.Base.{true, ok, none, ◌≡◌, refl, arith, List, [], ◌∷◌}
use project_dawn_server.Trade.{
  is_locked, clear_accepts, set_side, side_of, edit_session, open_trade, retrieve_item, offer_item,
  offer_coins, close, accept, TradeManager, Offer, new,
}

abbrev sword_offer : Offer
sword_offer = record { location = "base"; slot = 2; item_path = "sword"; count = 1 }

abbrev two_gold : CoinAmount
two_gold = record { get = record { platinum = 0; gold = 2; silver = 0; copper = 0 } }

-- Both open, one offers a sword and the other gold, and both accept.
abbrev agreed : List Call
agreed =
    call_open 1 2
    ∷ call_offer_item 1 0 sword_offer
    ∷ call_offer_coins 2 two_gold
    ∷ call_accept 1
    ∷ call_accept 2
    ∷ []

abbrev table : TradeManager
table = after_calls agreed new

calls-IsConsistent_example : IsConsistent table
calls-IsConsistent_example = calls-IsConsistent agreed (omega arith)

table-IsConsistent : IsConsistent table
table-IsConsistent = calls-IsConsistent agreed (omega arith)

edits-WithdrawsConsent_example :
    WithdrawsConsent 1 table (offer_item 1 3 sword_offer table)
    × WithdrawsConsent 1 table (retrieve_item 1 3 table)
    × WithdrawsConsent 1 table (offer_coins 1 two_gold table)
edits-WithdrawsConsent_example = edits-WithdrawsConsent 1 3 sword_offer two_gold table

accept-Accepts_example : Accepts 2 table (accept 2 table)
accept-Accepts_example = accept-Accepts 2 table

close-Closes_example : Closes 1 table (close 1 table)
close-Closes_example = close-Closes 1 table table-IsConsistent

-- What the accept of the second player returned, and who is free after the close.
completes : (accept 2 (after_calls (call_open 1 2 ∷ call_accept 1 ∷ []) new)).0 ≡ ok true
unfolding accept after_calls after_call open_trade new edit_session side_of set_side
completes = refl

freed : (after_calls (call_close 1 ∷ []) table).by_cid 2 ≡ none
unfolding accept after_calls after_call open_trade new edit_session side_of set_side close
    offer_item offer_coins clear_accepts
freed = refl

abbrev opened : TradeManager
opened = after_calls (call_open 1 2 ∷ []) new

opened-HasWindows : HasWindows opened
unfolding after_calls after_call open_trade new
opened-HasWindows id s h = ground (arith, h)

is_locked-offer_item_example : is_locked 1 "base" 2 (offer_item 1 0 sword_offer opened).1 ≡ true
unfolding after_calls after_call open_trade new offer_item edit_session side_of
is_locked-offer_item_example = is_locked-offer_item 1 0 sword_offer opened opened-HasWindows refl
