-- ===== src/Banking/Store.antt =====
-- crates/projectdawn-server/src/world/tick/banking.rs: a stack stored in the vault of a character or
-- of its account.
use project_dawn_server.Banking.{at_banker, Service, Banked}
use project_dawn_server.Trade.{TradeManager, is_locked}
use project_dawn_server.Inventory.Removal.{destroy_at}
use project_dawn_server.Inventory.State.{Move, peek_at}
use project_dawn_server.Ledger.{item_event, bank_in}
use project_dawn_server.Connection.{PerConnection, ledger}
use project_dawn_server.Vault.{ItemVault, deposit, capacity_for}
use project_dawn_server.Items.{Registry, bag_num_slots, is_no_drop}
use project_dawn_server.Base.{
  pos, ◌&&◌, true, is_some, ◌==◌, if◌then◌else◌, none, some, ok, min, err, Option, String, Bool, ℕ,
}

abbrev pub vault_of : Bool → PerConnection → ItemVault
vault_of shared conn = if shared then conn.account_bank_items else conn.bank_items

abbrev pub vault_name : Bool → String
vault_name shared = if shared then "account vault" else "vault"

module _ (items : Registry) where
  -- The vault that a stack goes into, and its flag.
  unfoldable pub credit : Bool → String → ℕ → PerConnection → PerConnection
  credit shared path removed conn =
      if shared
      then record conn {
        account_bank_items = (deposit items path removed conn.account_bank_items).1;
        account_bank_items_dirty = true;
      }
      else record conn {
        bank_items = (deposit items path removed conn.bank_items).1;
        bank_items_dirty = true;
      }

  -- What was taken from the inventory goes into the vault.
  unfoldable pub debited : Bool → String → PerConnection → Move (String × ℕ) → Banked
  debited shared path conn (err _, after) =
      (err "Couldn't move that item.", record conn { inventory = after })
  debited shared path conn (ok (_, removed), after) =
      if removed == 0 then (ok tt, record conn { inventory = after }) else (
        ok tt,
        ledger (item_event bank_in path removed (pos 0) (some (vault_name shared))) (
            credit shared path removed (record conn { inventory = after; inventory_dirty = true })),
      )

  unfoldable pub store_stack : String → ℕ → Bool → String → ℕ → PerConnection → Banked
  store_stack loc slot shared path avail conn =
      let take = min avail (capacity_for items path (vault_of shared conn)) in
      if is_some (bag_num_slots items path)
      then (err "Bags can't go in the bank vault.", conn)
      else if shared && is_no_drop items path
      then (err "That item is NO DROP: it cannot leave you.", conn)
      else if take == 0
      then (err "Your bank vault is full.", conn)
      else debited shared path conn (destroy_at items loc slot take conn.inventory)

  unfoldable pub store_peeked : String → ℕ → Bool → PerConnection → Option (String × ℕ) → Banked
  store_peeked loc slot shared conn none = (err "Nothing to deposit there.", conn)
  store_peeked loc slot shared conn (some (path, avail)) =
      store_stack loc slot shared path avail conn

  -- One request to store, which a slot that is offered in a trade refuses.
  unfoldable pub store_item :
      TradeManager → ℕ → Service → String → ℕ → Bool → PerConnection → Banked
  store_item trade_manager cid service loc slot shared conn =
      if is_locked cid loc slot trade_manager
      then (err "That item is offered in a trade.", conn)
      else at_banker service conn
          (store_peeked loc slot shared conn (peek_at loc slot conn.inventory))
