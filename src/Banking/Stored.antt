-- ===== src/Banking/Stored.antt =====
-- Storing a stack neither makes nor loses an item.
use project_dawn_server.Trade.{is_locked, TradeManager}
use project_dawn_server.Ledger.{item_event, ItemEventRow}
use project_dawn_server.Inventory.FillLaws.{tally}
use project_dawn_server.Inventory.RemovalLaws.{destroy_at-Removes, Removes}
use project_dawn_server.Vault.Laws.{deposit-capacity_for, deposit-Deposits, held_in}
use project_dawn_server.Inventory.Cells.{count_of}
use project_dawn_server.Banking.{at_banker, served, unwilling, out_of_range, Service, Banked}
use project_dawn_server.Banking.Store.{
  store_peeked, store_stack, store_item, vault_name, vault_of, debited, credit,
}
use project_dawn_server.Connection.{ledger, PerConnection}
use project_dawn_server.Vault.{deposit, capacity_for, ItemVault}
use project_dawn_server.Inventory.Removal.{destroy_at, nonempty_bag}
use project_dawn_server.Inventory.EquipLaws.{peek_source-ok}
use project_dawn_server.Inventory.Equip.{peek_source}
use project_dawn_server.Inventory.Valid.{IsStack, IsValid}
use project_dawn_server.Inventory.Location.{SlotRefInt, cursor, is_held_bag_slot, parse_slot_ref}
use project_dawn_server.Inventory.State.{cell, slot_bag_size, peek_at, Move, PlayerInventory, ◌>>=◌}
use project_dawn_server.Items.{is_no_drop, bag_num_slots, IsRegistry, Registry}
use project_dawn_server.Ledger.{bank_in, item_event}
use project_dawn_server.Base.{
  Option, min, ap₂, ◌&&◌, Option-cases, pos, none, subst, false, ◌==◌, true, ap, u32_mod, ◌+◌, Bool,
  All, refl, arith, ◌∙◌, sym, Bool-cases, inl, inr, Result-cases, ◌≤◌, ◌<◌, some, ok, ◌≡◌, err,
  String, ℕ,
}

-- A removal of some of the stack that peek_at shows takes that item, and no more than is asked for.
abbrev Peeked : String → ℕ → Move (String × ℕ) → Type 0
Peeked path count (err _, after) = Unit {0}
Peeked path count (ok (taken, n), after) = (taken ≡ path) × (n ≤ count)

destroy_at-Peeked :
    (items : Registry) (inv : PlayerInventory) (loc : String) (slot : ℕ) (path : String)
    (avail count : ℕ)
    → IsValid items inv
    → peek_at loc slot inv ≡ some (path, avail)
    → 0 < count
    → Peeked path count (destroy_at items loc slot count inv)
unfolding destroy_at peek_at
destroy_at-Peeked items inv loc slot path avail count valid seen more =
    elim (Result-cases (parse_slot_ref loc slot)) [
      | inr (e, refused) ↦ rw (refused, ◌>>=◌) tt
      | inl (r, read) ↦
          rw (read, ◌>>=◌)
            (elim (Bool-cases (is_held_bag_slot r)) [
              | inl held ↦ rw held tt
              | inr free ↦ rw free (elim (Bool-cases (nonempty_bag items r inv)) [
                | inl full ↦ rw full tt
                | inr spare ↦ rw spare (elim (Result-cases (peek_source r inv)) [
                  | inr (e, refused) ↦ rw (refused, ◌>>=◌) tt
                  | inl (e, found) ↦
                      rw (found, ◌>>=◌)
                        (let there = peek_source-ok items inv r e valid found in
                          let same : Path (Option (String × ℕ)) (some (e.item_path, e.count))
                              (some (path, avail)) =
                            sym (rw (read, there.1, peek_at) refl) ∙ seen in
                          (cc, ground (arith, more)))
                ])
              ])
            ])
    ]

-- How many of an item a player has, in the inventory and both vaults.
abbrev pub owned : String → PerConnection → ℕ
owned item conn =
    count_of item conn.inventory
    + held_in item conn.bank_items
    + held_in item conn.account_bank_items

pub record IsSound (items : Registry) (conn : PerConnection) : Type 0 where
  pub inventory : IsValid items conn.inventory
  pub bank_items : All IsStack conn.bank_items.slots
  pub account_bank_items : All IsStack conn.account_bank_items.slots

-- A refused request changes nothing; a granted one leaves sound stores with as many of every item.
abbrev pub Stores : Registry → PerConnection → Banked → Type 0
Stores items conn (err _, after) = after ≡ conn
Stores items conn (ok _, after) =
    IsSound items after × ((item : String) → owned item after ≡ owned item conn)

-- A deposit of no more than there is room for is taken whole.
deposit_whole :
    (items : Registry) (path : String) (n : ℕ) (v : ItemVault)
    → IsRegistry items
    → All IsStack v.slots
    → n < u32_mod
    → n ≤ capacity_for items path v
    → let after = (deposit items path n v).1 in
      All IsStack after.slots
      × ((item : String) → held_in item after ≡ held_in item v + tally item path n)
deposit_whole items path n v reg proper low room =
    let d = deposit-Deposits items reg path n v proper low in
    let none_left : (deposit items path n v).0.1 ≡ 0 =
      omega (arith, deposit-capacity_for items path n v low, room) in
    (d.0, λ item. ground (arith, d.2 item, none_left))

credit-Stores :
    (items : Registry) (shared : Bool) (path : String) (n : ℕ) (conn : PerConnection)
    (before : PlayerInventory)
    → IsRegistry items
    → IsSound items conn
    → n < u32_mod
    → n ≤ capacity_for items path (vault_of shared conn)
    → ((item : String) → count_of item conn.inventory + tally item path n ≡ count_of item before)
    → let after = credit items shared path n conn in
      IsSound items after
      × ((item : String) → owned item after ≡ owned item (record conn { inventory = before }))
unfolding credit
credit-Stores items true path n conn before reg sound low room taken =
    let d =
      deposit_whole items path n conn.account_bank_items reg sound.account_bank_items low room in
    (
      record {
        inventory = sound.inventory;
        bank_items = sound.bank_items;
        account_bank_items = d.0;
      },
      λ item. omega (arith, d.1 item, taken item),
    )
credit-Stores items false path n conn before reg sound low room taken =
    let d = deposit_whole items path n conn.bank_items reg sound.bank_items low room in
    (
      record {
        inventory = sound.inventory;
        bank_items = d.0;
        account_bank_items = sound.account_bank_items;
      },
      λ item. omega (arith, d.1 item, taken item),
    )

vault_of-inventory :
    (shared : Bool) (conn : PerConnection) (after : PlayerInventory)
    → vault_of shared (record conn { inventory = after; inventory_dirty = true })
      ≡ vault_of shared conn
vault_of-inventory true conn after = refl
vault_of-inventory false conn after = refl

pub ledger-Stores :
    (items : Registry) (row : ItemEventRow) (conn : PerConnection)
    → IsSound items conn
    → IsSound items (ledger row conn)
      × ((item : String) → owned item (ledger row conn) ≡ owned item conn)
unfolding ledger
ledger-Stores items row conn sound = (
  record {
    inventory = sound.inventory;
    bank_items = sound.bank_items;
    account_bank_items = sound.account_bank_items;
  },
  λ item. refl,
)

debited-Stores :
    (items : Registry) (shared : Bool) (path : String) (take : ℕ) (conn : PerConnection)
    (out : Move (String × ℕ))
    → IsRegistry items
    → IsSound items conn
    → take < u32_mod
    → take ≤ capacity_for items path (vault_of shared conn)
    → Peeked path take out
    → Removes items conn.inventory out
    → Stores items conn (debited items shared path conn out)
unfolding debited
debited-Stores items shared path take conn (err e, after) reg sound low room peeked removes =
    ap (λ i. record conn { inventory = i }) removes
debited-Stores items shared path take conn (ok (taken, n), after) reg sound low room peeked
      removes =
    let emptied : PerConnection = record conn { inventory = after; inventory_dirty = true } in
    let kept : IsSound items emptied = record {
      inventory = removes.0;
      bank_items = sound.bank_items;
      account_bank_items = sound.account_bank_items;
    } in
    let fits : n ≤ capacity_for items path (vault_of shared emptied) =
      rw (vault_of-inventory shared conn after) (omega (arith, room, peeked.1)) in
    let moved =
      credit-Stores items shared path n emptied conn.inventory reg kept
        (omega (arith, low, peeked.1)) fits
        (λ item.
          subst (λ p. count_of item after + tally item p n ≡ count_of item conn.inventory) peeked.0
            (removes.2 item)) in
    let row = item_event bank_in path n (pos 0) (some (vault_name shared)) in
    let booked = ledger-Stores items row (credit items shared path n emptied) moved.0 in
    elim (Bool-cases (n == 0)) [
      | inl nothing ↦ absurd (ground (arith, nothing, removes.1))
      | inr more ↦ rw more (booked.0, λ item. booked.1 item ∙ moved.1 item)
    ]

-- What peek_at shows stands in the slot that the location is read as.
peek_at-cell :
    (inv : PlayerInventory) (loc : String) (slot : ℕ) (path : String) (avail : ℕ)
    → peek_at loc slot inv ≡ some (path, avail)
    → (r : SlotRefInt) × (parse_slot_ref loc slot ≡ ok r)
      × (cell r inv ≡ some (record { item_path = path; count = avail }))
unfolding peek_at
peek_at-cell inv loc slot path avail seen = elim (Result-cases (parse_slot_ref loc slot)) [
  | inr (e, refused) ↦
      (let bad : Path (Option (String × ℕ)) none (some (path, avail)) =
          sym (rw (refused, peek_at) refl) ∙ seen in
        cc)
  | inl (r, read) ↦ elim (Option-cases (cell r inv)) [
    | inl free ↦
        (let bad : Path (Option (String × ℕ)) none (some (path, avail)) =
            sym (rw (read, free, peek_at) refl) ∙ seen in
          cc)
    | inr (e, there) ↦
        let same : Path (Option (String × ℕ)) (some (e.item_path, e.count)) (some (path, avail)) =
          sym (rw (read, there, peek_at) refl) ∙ seen in
        let named : e.item_path ≡ path = cc in
        let counted : e.count ≡ avail = cc in
        (r, read, there ∙ ap₂ (λ p c. some (record { item_path = p; count = c })) named counted)
  ]
]

-- The peeked stack has a proper count and, where it is no bag, may be taken out of the hand too.
peeked_stack :
    (items : Registry) (inv : PlayerInventory) (loc : String) (slot : ℕ) (path : String) (avail : ℕ)
    → IsValid items inv
    → peek_at loc slot inv ≡ some (path, avail)
    → bag_num_slots items path ≡ none
    → (avail < u32_mod)
      × (parse_slot_ref loc slot ≡ ok cursor → slot_bag_size items (cell cursor inv) ≡ none)
peeked_stack items inv loc slot path avail valid seen plain =
    let (r, read, there) = peek_at-cell inv loc slot path avail seen in
    (
      (subst IsStack there (valid.stacks r)).1,
      λ held.
          let hand : r ≡ cursor = cc in
          ap (slot_bag_size items) (ap (λ t. cell t inv) (sym hand) ∙ there) ∙ plain,
    )

store_stack-Stores :
    (items : Registry) (loc : String) (slot : ℕ) (shared : Bool) (path : String) (avail : ℕ)
    (conn : PerConnection)
    → IsRegistry items
    → IsSound items conn
    → peek_at loc slot conn.inventory ≡ some (path, avail)
    → Stores items conn (store_stack items loc slot shared path avail conn)
unfolding store_stack
store_stack-Stores items loc slot shared path avail conn reg sound seen =
    let room = capacity_for items path (vault_of shared conn) in
    elim (Option-cases (bag_num_slots items path)) [
      | inr (size, bag_item) ↦ rw bag_item refl
      | inl plain ↦ rw plain (elim (Bool-cases (shared && is_no_drop items path)) [
        | inl kept ↦ rw kept refl
        | inr free ↦ rw free (elim (Bool-cases (min avail room == 0)) [
          | inl full ↦ rw full refl
          | inr more ↦
              let stack =
                peeked_stack items conn.inventory loc slot path avail sound.inventory seen plain in
              rw more (
                debited-Stores items shared path (min avail room) conn
                  (destroy_at items loc slot (min avail room) conn.inventory) reg sound
                  (omega (arith, stack.0)) (omega arith)
                  (destroy_at-Peeked items conn.inventory loc slot path avail (min avail room)
                    sound.inventory seen (ground (arith, more)))
                  (destroy_at-Removes items conn.inventory sound.inventory loc slot stack.1
                    (min avail room)))
        ])
      ])
    ]

pub at_banker-Stores :
    (items : Registry) (service : Service) (conn : PerConnection) (done : Banked)
    → Stores items conn done
    → Stores items conn (at_banker service conn done)
at_banker-Stores items served conn done stored = stored
at_banker-Stores items out_of_range conn done stored = refl
at_banker-Stores items (unwilling name) conn done stored = refl

-- For a registry with positive stack sizes that fit a u32, a well-formed inventory and vaults of
-- proper stacks, a request to store a stack either is refused and changes nothing, or leaves a
-- well-formed inventory and vaults of proper stacks, which together hold as many of every item as
-- before.
pub store_item-Stores :
    (items : Registry) (trade_manager : TradeManager) (cid : ℕ) (service : Service) (loc : String)
    (slot : ℕ) (shared : Bool) (conn : PerConnection)
    → IsRegistry items
    → IsSound items conn
    → Stores items conn (store_item items trade_manager cid service loc slot shared conn)
unfolding store_item store_peeked
store_item-Stores items trade_manager cid service loc slot shared conn reg sound =
    elim (Bool-cases (is_locked cid loc slot trade_manager)) [
      | inl locked ↦ rw locked refl
      | inr free ↦ rw free (
          at_banker-Stores items service conn
            (store_peeked items loc slot shared conn (peek_at loc slot conn.inventory))
            (elim (Option-cases (peek_at loc slot conn.inventory)) [
              | inl nothing ↦ rw nothing refl
              | inr ((path, avail), seen) ↦
                  rw seen (store_stack-Stores items loc slot shared path avail conn reg sound seen)
            ]))
    ]
