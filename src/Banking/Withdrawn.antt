-- ===== src/Banking/Withdrawn.antt =====
-- Taking a stack out of a vault neither makes nor loses an item.
use project_dawn_server.Inventory.Grant.{add_item_locating}
use project_dawn_server.Ledger.{item_event}
use project_dawn_server.Inventory.Cells.{count_of}
use project_dawn_server.Banking.Store.{vault_name, vault_of}
use project_dawn_server.Inventory.Granted.{add_item_locating-Grants, Grants}
use project_dawn_server.Connection.{PerConnection}
use project_dawn_server.Inventory.State.{Touched, Move, PlayerInventory}
use project_dawn_server.Vault.{peek, ItemVault, restore, take_all}
use project_dawn_server.Banking.{Service}
use project_dawn_server.Banking.Stored.{ledger-Stores, at_banker-Stores, IsSound, Stores, owned}
use project_dawn_server.Banking.Withdraw.{
  placed, withdraw_peeked, withdraw_item, put_vault, credited, refund,
}
use project_dawn_server.Vault.Laws.{held_in}
use project_dawn_server.Inventory.FillLaws.{tally}
use project_dawn_server.Inventory.Entry.{InventoryEntry, slot_at, Slots, count_in}
use project_dawn_server.Inventory.Valid.{IsValid, IsStack}
use project_dawn_server.Ledger.{bank_out, item_event}
use project_dawn_server.Items.{Registry, IsRegistry}
use project_dawn_server.Base.{
  ◌∙◌, pos, ◌-◌, ap, sym, err, refl, ok, is_empty, Option-cases, Bool, get_or-set_self, true, ◌&&◌,
  inl, All-set, inr, ltb, Bool-cases, sum_by-set, sum_by, length-set, set, none, All-get_or, subst,
  false, leb, [], ◌+◌, arith, String, ◌∷◌, ◌≤◌, length, All, ◌<◌, some, ◌≡◌, if◌then◌else◌, ℕ,
}

standing :
    (ss : Slots) (slot : ℕ) (e : InventoryEntry) → slot_at ss slot ≡ some e → slot < length ss
standing [] slot e there = cc
standing (s ∷ ss) ℕ.zero e there = omega arith
standing (s ∷ ss) (ℕ.suc slot) e there = omega (arith, standing ss slot e there)

-- Emptying the slot and putting back a part of what stood there.
refund-held_in :
    (slot : ℕ) (v : ItemVault) (e : InventoryEntry) (n : ℕ)
    → All IsStack v.slots
    → slot_at v.slots slot ≡ some e
    → n ≤ e.count
    → let after = refund slot e.item_path n (take_all slot v).1 in
      All IsStack after.slots
      × ((item : String)
          → held_in item after + tally item e.item_path e.count
            ≡ held_in item v + tally item e.item_path n)
unfolding take_all restore
refund-held_in slot v e n proper there less =
    let low = standing v.slots slot e there in
    let out : leb (length v.slots) slot ≡ false = ground (arith, low) in
    let stack = subst IsStack there (All-get_or IsStack v.slots slot none proper tt) in
    let emptied = set v.slots slot none in
    let inside : slot < length emptied = rw (length-set v.slots slot none) low in
    let emptied_at : slot_at emptied slot ≡ none = get_or-set_self v.slots slot none none low in
    let whole : (item : String)
        → sum_by (count_in item) emptied + count_in item (some e) ≡ sum_by (count_in item) v.slots =
      λ item.
        subst
          (λ s. sum_by (count_in item) emptied + count_in item s ≡ sum_by (count_in item) v.slots)
          there (omega (arith, sum_by-set (count_in item) v.slots slot none none low)) in
    rw out (elim (Bool-cases (ltb 0 n)) [
      | inr nothing ↦
          rw nothing (
            All-set IsStack v.slots slot none proper tt,
            λ item. ground (arith, nothing, whole item),
          )
      | inl more ↦
          let test : (ltb slot (length emptied) && true) ≡ true = ground (arith, inside) in
          let back : InventoryEntry = record { item_path = e.item_path; count = n } in
          rw (more, test)
            (
              All-set IsStack emptied slot (some back) (All-set IsStack v.slots slot none proper tt)
                  (ground (arith, more, less, stack)),
              λ item. omega (
                arith,
                whole item,
                sum_by-set (count_in item) emptied slot (some back) none inside,
                ap (λ s. count_in item s) emptied_at,
              ),
            )
    ])

put_vault-Stores :
    (items : Registry) (shared : Bool) (slot : ℕ) (e : InventoryEntry) (left : ℕ)
    (conn : PerConnection)
    → IsSound items conn
    → slot_at (vault_of shared conn).slots slot ≡ some e
    → left ≤ e.count
    → let after =
        put_vault shared
          (refund slot e.item_path left (take_all slot (vault_of shared conn)).1)
          conn in
      IsSound items after
      × ((item : String)
          → owned item after + tally item e.item_path e.count
            ≡ owned item conn + tally item e.item_path left)
unfolding put_vault
put_vault-Stores items true slot e left conn sound there less =
    let r =
      refund-held_in slot conn.account_bank_items e left sound.account_bank_items there less in
    (
      record {
        inventory = sound.inventory;
        bank_items = sound.bank_items;
        account_bank_items = r.0;
      },
      λ item. omega (arith, r.1 item),
    )
put_vault-Stores items false slot e left conn sound there less =
    let r = refund-held_in slot conn.bank_items e left sound.bank_items there less in
    (
      record {
        inventory = sound.inventory;
        bank_items = r.0;
        account_bank_items = sound.account_bank_items;
      },
      λ item. omega (arith, r.1 item),
    )

put_vault-inventory :
    (shared : Bool) (v : ItemVault) (conn : PerConnection)
    → (put_vault shared v conn).inventory ≡ conn.inventory
unfolding put_vault
put_vault-inventory true v conn = refl
put_vault-inventory false v conn = refl

vault_of-IsStack :
    (items : Registry) (shared : Bool) (conn : PerConnection)
    → IsSound items conn
    → All IsStack (vault_of shared conn).slots
vault_of-IsStack items true conn sound = sound.account_bank_items
vault_of-IsStack items false conn sound = sound.bank_items

-- What the placer answers, read as placed.
placed-Grants :
    (items : Registry) (e : InventoryEntry) (inv : PlayerInventory) (out : Move (Touched × ℕ))
    → IsValid items inv
    → Grants items e.item_path e.count inv out
    → let ((touched, left), after) = placed e.count out in
      IsValid items after
      × (left ≤ e.count)
      × ((item : String)
          → count_of item after + tally item e.item_path left
            ≡ count_of item inv + tally item e.item_path e.count)
placed-Grants items e inv (ok (touched, left), after) valid g = g
placed-Grants items e inv (err reason, after) valid g = (
  subst (IsValid items) (sym g) valid,
  omega arith,
  λ item. ap (λ i. count_of item i + tally item e.item_path e.count) g,
)

credited-Stores :
    (items : Registry) (shared : Bool) (slot : ℕ) (e : InventoryEntry) (conn : PerConnection)
    (out : (Touched × ℕ) × PlayerInventory)
    → IsSound items conn
    → slot_at (vault_of shared conn).slots slot ≡ some e
    → IsValid items out.1
    → out.0.1 ≤ e.count
    → ((item : String)
        → count_of item out.1 + tally item e.item_path out.0.1
          ≡ count_of item conn.inventory + tally item e.item_path e.count)
    → IsSound items (credited shared slot e conn out)
      × ((item : String) → owned item (credited shared slot e conn out) ≡ owned item conn)
unfolding credited
credited-Stores items shared slot e conn ((touched, left), after) sound there valid less counts =
    let refunded =
      put_vault shared (refund slot e.item_path left (take_all slot (vault_of shared conn)).1)
        conn in
    let put = put_vault-Stores items shared slot e left conn sound there less in
    let moved : PerConnection = record refunded {
      inventory = after;
      inventory_dirty = if is_empty touched then refunded.inventory_dirty else true;
    } in
    let kept : IsSound items moved = record {
      inventory = valid;
      bank_items = put.0.bank_items;
      account_bank_items = put.0.account_bank_items;
    } in
    let same : (item : String) → owned item moved ≡ owned item conn = λ item. omega (
      arith,
      put.1 item,
      counts item,
      ap (λ i. count_of item i)
          (put_vault-inventory shared
            (refund slot e.item_path left (take_all slot (vault_of shared conn)).1) conn),
    ) in
    let row = item_event bank_out e.item_path (e.count - left) (pos 0) (some (vault_name shared)) in
    let booked = ledger-Stores items row moved kept in
    elim (Bool-cases (ltb left e.count)) [
      | inl some_placed ↦ rw some_placed (booked.0, λ item. booked.1 item ∙ same item)
      | inr none_placed ↦ rw none_placed (kept, same)
    ]

-- For a registry with positive stack sizes that fit a u32, a well-formed inventory and vaults of
-- proper stacks, a request to take a stack out of a vault either is refused and changes nothing,
-- or leaves a well-formed inventory and vaults of proper stacks, which together hold as many of
-- every item as before.
pub withdraw_item-Stores :
    (items : Registry) (service : Service) (shared : Bool) (slot : ℕ) (conn : PerConnection)
    → IsRegistry items
    → IsSound items conn
    → Stores items conn (withdraw_item items service shared slot conn)
unfolding withdraw_item withdraw_peeked peek
withdraw_item-Stores items service shared slot conn reg sound =
    at_banker-Stores items service conn
      (withdraw_peeked items shared slot conn (peek slot (vault_of shared conn)))
      (elim (Option-cases (slot_at (vault_of shared conn).slots slot)) [
        | inl free ↦ rw free refl
        | inr (e, there) ↦
            let slots = (vault_of shared conn).slots in
            let stack =
              subst IsStack there (
                All-get_or IsStack slots slot none (vault_of-IsStack items shared conn sound) tt) in
            let out = add_item_locating items e.item_path e.count conn.inventory in
            let g = placed-Grants items e conn.inventory out sound.inventory (
              add_item_locating-Grants items e.item_path e.count conn.inventory reg sound.inventory
                stack.1) in
            rw there (
              credited-Stores items shared slot e conn (placed e.count out) sound there g.0 g.1 g.2)
      ])
