-- ===== src/Trade/Spellings.antt =====
-- A lock is kept under the spelling of its location, and a bag has several.
use project_dawn_server.Inventory.Location.{bag_key, parse_slot_ref}
use project_dawn_server.Trade.{
  new_session, put_offer, new_side, TradeSession, clear_accepts, set_side, side_of, session_of,
  edit_session, new, open_trade, offer_item, is_locked, TradeManager, Offer,
}
use project_dawn_server.Base.{
  String, none, replicate, ◌∷◌, arith, some, refl, false, true, ◌≡◌, ◌≢◌, ℕ,
}

-- One session, in which the first player offers a slot of the bag in the first base slot.
abbrev pub bag_offered : ℕ → ℕ → Offer → TradeManager
bag_offered a b offer = (offer_item a 0 offer (open_trade a b new).1).1

abbrev offering : ℕ → ℕ → Offer → TradeSession
offering a b offer =
    clear_accepts (set_side a (put_offer 0 (some offer) (new_side a)) (new_session a b))

offered_session :
    (a b : ℕ) (offer : Offer)
    → a ≢ b
    → session_of a (bag_offered a b offer) ≡ some (offering a b offer)
unfolding session_of offer_item open_trade new edit_session side_of
offered_session a b offer apart = ground (arith, apart)

own_side :
    (a b : ℕ) (offer : Offer)
    → side_of a (offering a b offer)
      ≡ some (record (new_side a) { offers = (some offer) ∷ replicate 7 none })
unfolding side_of set_side clear_accepts
own_side a b offer = ground arith

abbrev pub bag_offer : ℕ → String → ℕ → Offer
bag_offer slot path count = record {
  location = "bag_0";
  slot = slot;
  item_path = path;
  count = count;
}

-- Between two different players, an offer of a slot of bag_0 locks that slot under the name bag_0
-- and leaves it free under the name bag_00, which is read as the same slot.
pub is_locked-spelling :
    (a b slot : ℕ) (path : String) (count : ℕ)
    → a ≢ b
    → let m = bag_offered a b (bag_offer slot path count) in
      (parse_slot_ref "bag_00" slot ≡ parse_slot_ref "bag_0" slot)
      × (is_locked a "bag_0" slot m ≡ true)
      × (is_locked a "bag_00" slot m ≡ false)
unfolding parse_slot_ref is_locked bag_key
is_locked-spelling a b slot path count apart =
    let offer = bag_offer slot path count in
    let there = offered_session a b offer apart in
    let mine = own_side a b offer in
    (
      refl,
      rw (there, is_locked) (rw mine (ground arith)),
      rw (there, is_locked) (rw mine (ground arith)),
    )
