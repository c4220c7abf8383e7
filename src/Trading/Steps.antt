-- ===== src/Trading/Steps.antt =====
-- Any sequence of trade intents.
use project_dawn_server.Inventory.Valid.{IsValid, Rearranges}
use project_dawn_server.Inventory.Park.{park_cursor_stack}
use project_dawn_server.Trading.Tables.{commit-table}
use project_dawn_server.Inventory.ParkLaws.{park_cursor_stack-Rearranges}
use project_dawn_server.Trade.{offer_coins, offer_item, Offer, session_of, open_trade, accept}
use project_dawn_server.Trading.Accepted.{accept_intent-Accepted}
use project_dawn_server.Trading.Fair.{
  close-Orderly, offer_coins-Orderly, retrieve_item-Orderly, offer_item-Orderly, Orderly-calls,
  open_trade-Orderly, accept-Orderly, Orderly, Accepted-AllValid,
}
use project_dawn_server.Trading.Parking.{
  ParksAside, parked, if-IsFair, later, park_cursor_stack-aside, managed, Aside, IsFair,
}
use project_dawn_server.Trading.{accept_intent, WorldState}
use project_dawn_server.Connection.{PerConnection}
use project_dawn_server.Items.{IsRegistry, Registry}
use project_dawn_server.Trading.Intents.{
  put_manager, is_player_id, refused_no_drop, full_bag, peek_of, trading, coins_intent,
  request_intent, TradeI, trade_intent, source_of, offer_place, offer_intent, apply_trade_intents,
  request, offer, retrieve, pay, confirm, cancel,
}
use project_dawn_server.Inventory.Location.{cursor_bag_key, bag_location}
use project_dawn_server.Base.{
  true, none, [], suc, ◌∷◌, sym, subst, inr, arith, ◌≡◌, inl, Result-cases, ◌||◌, u64_mod, str_eq,
  Option-cases, some, length, Bool-cases, ◌<◌, not, ◌+◌, List, String, Option, Bool, ℕ,
}

module _ (items : Registry) (reg : IsRegistry items) (n : ℕ) where
  source_of-IsFair :
      (cid : ℕ) (loc : String) (slot : ℕ) (w : WorldState)
      → IsFair items n w
      → IsFair items n (source_of items cid loc slot w).1 × Aside (source_of items cid loc slot w).0
  unfolding source_of
  source_of-IsFair cid loc slot w fair = elim (Bool-cases (not (str_eq loc "cursor"))) [
    | inl away ↦ rw away (fair, ground (arith, away))
    | inr hand ↦ rw hand (elim (Option-cases (w.connections cid)) [
      | inl gone ↦ rw gone (fair, tt)
      | inr (c, there) ↦
          let kept = park_cursor_stack-Rearranges items c.inventory reg (fair.valid cid c there) in
          let aside = park_cursor_stack-aside items c.inventory in
          let m = park_cursor_stack items c.inventory in
          rw there (elim (Result-cases m.0) [
            | inr (e, no_room) ↦
                let same : m.1 ≡ c.inventory =
                  subst (λ r. Rearranges items c.inventory (r, m.1)) no_room kept in
                rw no_room (
                  record {
                    table = fair.table;
                    valid =
                        parked items cid c (record c { inventory = m.1 }) w
                          (subst (IsValid items) (sym same) (fair.valid cid c there)) fair.valid;
                  },
                  tt,
                )
            | inl ((place, touched), put) ↦
                let valid = (subst (λ r. Rearranges items c.inventory (r, m.1)) put kept).0 in
                rw put (
                  record {
                    table = fair.table;
                    valid =
                        parked items cid c (record c { inventory = m.1; inventory_dirty = true }) w
                          valid fair.valid;
                  },
                  subst (λ r. ParksAside (r, m.1)) put aside,
                )
          ])
    ])
  ]

  offer_place-IsFair :
      (cid window_slot : ℕ) (r : Option (String × ℕ) × WorldState)
      → IsFair items n r.1
      → Aside r.0
      → IsFair items n (offer_place items cid window_slot r)
  unfolding offer_place
  offer_place-IsFair cid window_slot (none, w) fair aside = fair
  offer_place-IsFair cid window_slot (some (loc, slot), w) fair aside =
      elim (Option-cases (peek_of cid loc slot w)) [
        | inl bare ↦ rw (bare, offer_place) fair
        | inr ((path, count), seen) ↦
            rw (seen, offer_place)
              (elim (Bool-cases (full_bag items cid path loc slot w)) [
                | inl full ↦ rw full fair
                | inr fine ↦
                    let o : Offer = record {
                      location = loc;
                      slot = slot;
                      item_path = path;
                      count = count;
                    } in
                    rw fine (
                      managed items n w (offer_item cid window_slot o w.trade_manager).1 fair.valid
                        (offer_item-Orderly n cid window_slot o w.trade_manager aside fair.table))
              ])
      ]

  offer_intent-IsFair :
      (cid window_slot : ℕ) (loc : String) (slot : ℕ) (w : WorldState)
      → IsFair items n w
      → IsFair items n (offer_intent items cid window_slot loc slot w)
  unfolding offer_intent
  offer_intent-IsFair cid window_slot loc slot w fair =
      let source = source_of-IsFair cid loc slot w fair in
      let barred =
        not (trading cid w)
        || str_eq loc (bag_location cursor_bag_key)
        || refused_no_drop items (peek_of cid loc slot w) in
      elim (Bool-cases barred) [
        | inl no_offer ↦ rw (no_offer, offer_intent) fair
        | inr fine ↦
            rw (fine, offer_intent)
              (offer_place-IsFair cid window_slot (source_of items cid loc slot w) source.0
                source.1)
      ]

  module _ (reach together : PerConnection → PerConnection → Bool) (lands : PerConnection → Bool)
      (commits : PerConnection → PerConnection → Bool) where
    accept_intent-Orderly :
        (cid : ℕ) (w : WorldState)
        → IsFair items n w
        → Orderly n (accept_intent items together lands commits cid w).1.trade_manager
    unfolding accept_intent
    accept_intent-Orderly cid w fair =
        let pressed = accept-Orderly n cid w.trade_manager fair.table in
        let m = (accept cid w.trade_manager).1 in
        elim (Result-cases (accept cid w.trade_manager).0) [
          | inr (e, no_session) ↦ rw (no_session, accept_intent) pressed
          | inl (both, done) ↦
              rw (done, accept_intent)
                (elim (Bool-cases both) [
                  | inr alone ↦ rw alone pressed
                  | inl agreed ↦ rw agreed (elim (Option-cases (session_of cid m)) [
                    | inl gone ↦ rw gone pressed
                    | inr (s, mine) ↦ rw mine (
                        commit-table (Orderly n) (Orderly-calls n) items together lands commits s
                          (put_manager w m) pressed)
                  ])
                ])
        ]

    accept_intent-IsFair :
        (cid : ℕ) (w : WorldState)
        → IsFair items n w
        → IsFair items n (accept_intent items together lands commits cid w).1
    accept_intent-IsFair cid w fair = record {
      table = accept_intent-Orderly cid w fair;
      valid =
          Accepted-AllValid items cid w (accept_intent items together lands commits cid w)
            (accept_intent-Accepted items together lands commits cid w reg fair.table.consistent
              fair.table.safe fair.valid)
            fair.valid;
    }

    -- One intent takes one session number at most.
    trade_intent-IsFair :
        (i : TradeI) (w : WorldState)
        → n + 1 < u64_mod
        → IsFair items n w
        → IsFair items (n + 1) (trade_intent items reach together lands commits i w)
    unfolding trade_intent request_intent coins_intent
    trade_intent-IsFair (request a b) w room fair =
        let opened =
          managed items (n + 1) w (open_trade a b w.trade_manager).1 fair.valid
            (open_trade-Orderly n a b w.trade_manager room fair.table) in
        elim (Bool-cases (not (is_player_id b))) [
          | inl creature ↦ rw creature (later items n w fair)
          | inr player ↦ rw player (if-IsFair _ opened (later items n w fair))
        ]
    trade_intent-IsFair (offer cid window_slot loc slot) w room fair =
        later items n _ (offer_intent-IsFair cid window_slot loc slot w fair)
    trade_intent-IsFair (retrieve cid window_slot) w room fair = later items n _ (
        managed items n w _ fair.valid
          (retrieve_item-Orderly n cid window_slot w.trade_manager fair.table))
    trade_intent-IsFair (pay cid amount) w room fair =
        let paid =
          managed items n w (offer_coins cid amount w.trade_manager).1 fair.valid
            (offer_coins-Orderly n cid amount w.trade_manager fair.table) in
        if-IsFair _ (later items n _ paid) (later items n w fair)
    trade_intent-IsFair (confirm cid) w room fair =
        later items n _ (accept_intent-IsFair cid w fair)
    trade_intent-IsFair (cancel cid) w room fair =
        later items n _
          (managed items n w _ fair.valid (close-Orderly n cid w.trade_manager fair.table))

-- From a table in order and well-formed inventories, and for a registry with positive stack sizes
-- that fit a u32, any row of trade intents, of any players and with any arguments, as long as the
-- session numbers last, leaves a consistent table, no window that offers the stack in a hand, one
-- session number at most given out for each intent, and every inventory well formed.
pub apply_trade_intents-IsFair :
    (items : Registry) (reg : IsRegistry items)
    (reach together : PerConnection → PerConnection → Bool) (lands : PerConnection → Bool)
    (commits : PerConnection → PerConnection → Bool) (intents : List TradeI) (n : ℕ)
    (w : WorldState)
    → n + length intents < u64_mod
    → IsFair items n w
    → IsFair items
        (n + length intents)
        (apply_trade_intents items reach together lands commits intents w)
unfolding apply_trade_intents
apply_trade_intents-IsFair items reg reach together lands commits [] n w room fair =
    let same : n + 0 ≡ n = omega arith in subst (λ k. IsFair items k w) (sym same) fair
apply_trade_intents-IsFair items reg reach together lands commits (i ∷ intents) n w room fair =
    let next = trade_intent items reach together lands commits i w in
    let one =
      trade_intent-IsFair items reg n reach together lands commits i w (omega (arith, room)) fair in
    let rest =
      apply_trade_intents-IsFair items reg reach together lands commits intents (n + 1) next
        (omega (arith, room)) one in
    let same : n + 1 + length intents ≡ n + suc (length intents) = omega arith in
    subst
      (λ k. IsFair items k (apply_trade_intents items reach together lands commits intents next))
      same rest
