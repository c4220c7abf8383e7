-- ===== src/Banking/Withdraw.antt =====
-- crates/projectdawn-server/src/world/tick/banking.rs: a stack taken out of the vault of a character
-- or of its account.
use project_dawn_server.Banking.{Service, Banked, at_banker}
use project_dawn_server.Banking.Store.{vault_of, vault_name}
use project_dawn_server.Inventory.Grant.{add_item_locating}
use project_dawn_server.Inventory.State.{Move, Touched, PlayerInventory}
use project_dawn_server.Inventory.Entry.{InventoryEntry, Slot}
use project_dawn_server.Ledger.{item_event, bank_out}
use project_dawn_server.Connection.{PerConnection, ledger}
use project_dawn_server.Vault.{ItemVault, peek, take_all, restore}
use project_dawn_server.Items.{Registry}
use project_dawn_server.Base.{
  pos, none, ok, ◌-◌, true, some, ltb, is_empty, [], err, String, Bool, if◌then◌else◌, ℕ,
}

-- The vault as it is left, and its flag.
unfoldable pub put_vault : Bool → ItemVault → PerConnection → PerConnection
put_vault shared v conn =
    if shared
    then record conn { account_bank_items = v; account_bank_items_dirty = true }
    else record conn { bank_items = v; bank_items_dirty = true }

-- What was placed: nothing where the placer refuses.
abbrev pub placed : ℕ → Move (Touched × ℕ) → (Touched × ℕ) × PlayerInventory
placed count (err _, after) = (([], count), after)
placed count (ok g, after) = (g, after)

-- What found no room goes back into the slot.
abbrev pub refund : ℕ → String → ℕ → ItemVault → ItemVault
refund slot path leftover v = if ltb 0 leftover then restore slot path leftover v else v

-- What is left of the request once the placer has answered. The notice to the client that all or
-- part of the stack went back is left out.
unfoldable pub credited :
    Bool → ℕ → InventoryEntry → PerConnection → (Touched × ℕ) × PlayerInventory → PerConnection
credited shared slot e conn ((touched, leftover), after) =
    let taken = (take_all slot (vault_of shared conn)).1 in
    let refunded = put_vault shared (refund slot e.item_path leftover taken) conn in
    let moved = record refunded {
      inventory = after;
      inventory_dirty = if is_empty touched then refunded.inventory_dirty else true;
    } in
    if ltb leftover e.count
    then ledger
        (item_event bank_out e.item_path (e.count - leftover) (pos 0) (some (vault_name shared)))
        moved
    else moved

unfoldable pub withdraw_peeked : Registry → Bool → ℕ → PerConnection → Slot → Banked
withdraw_peeked items shared slot conn none = (err "Nothing to withdraw there.", conn)
withdraw_peeked items shared slot conn (some e) = (
  ok tt,
  credited shared slot e conn
      (placed e.count (add_item_locating items e.item_path e.count conn.inventory)),
)

-- One request to take a stack out.
unfoldable pub withdraw_item : Registry → Service → Bool → ℕ → PerConnection → Banked
withdraw_item items service shared slot conn =
    at_banker service conn
      (withdraw_peeked items shared slot conn (peek slot (vault_of shared conn)))
