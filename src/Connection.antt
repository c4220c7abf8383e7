-- ===== src/Connection.antt =====
-- crates/projectdawn-server/src/world/connection.rs and persistence.rs: the stores of one connected
-- player, their dirty flags and the queue of ledger rows. Position, resources, buffs and the rest of
-- a connection are left out, and so is the clock.
use project_dawn_server.Vault.{ItemVault}
use project_dawn_server.Coins.{Purse}
use project_dawn_server.Inventory.State.{PlayerInventory}
use project_dawn_server.Ledger.{ItemEventRow}
use project_dawn_server.Base.{
  false, true, is_empty, ◌∷◌, ◌&&◌, ◌||◌, not, [], ◌++◌, length, List, Bool, ℕ, if◌then◌else◌,
}

pub record PerConnection : Type 0 where
  pub char_id : ℕ
  pub in_world : Bool
  pub death_processed : Bool
  pub inventory : PlayerInventory
  pub coins : Purse
  pub bank_coins : Purse
  pub bank_items : ItemVault
  pub account_bank_items : ItemVault
  pub inventory_dirty : Bool
  pub coins_dirty : Bool
  pub bank_dirty : Bool
  pub bank_items_dirty : Bool
  pub account_bank_items_dirty : Bool
  pub item_events : List ItemEventRow

unfoldable pub any_store_dirty : PerConnection → Bool
any_store_dirty conn =
    conn.inventory_dirty || conn.coins_dirty || conn.bank_dirty || conn.bank_items_dirty
    || conn.account_bank_items_dirty

unfoldable pub ledger : ItemEventRow → PerConnection → PerConnection
ledger row conn = record conn {
  item_events = conn.item_events ++ record row { char_id = conn.char_id } ∷ [];
}

unfoldable pub ledger_mark : PerConnection → ℕ
ledger_mark conn = length conn.item_events

-- `Vec::truncate`
unfoldable pub truncate : {A : Type 0} → ℕ → List A → List A
truncate ℕ.zero xs = []
truncate (ℕ.suc n) [] = []
truncate (ℕ.suc n) (x ∷ xs) = x ∷ truncate n xs

unfoldable pub ledger_rollback : ℕ → PerConnection → PerConnection
ledger_rollback mark conn = record conn { item_events = truncate mark conn.item_events }

-- The store flush. `lands` says whether the transaction that writes the dirty stores and the queued
-- rows commits.
unfoldable pub persist_dirty_stores : (PerConnection → Bool) → PerConnection → Bool × PerConnection
persist_dirty_stores lands conn =
    if not (any_store_dirty conn) && is_empty conn.item_events
    then (true, conn)
    else if lands conn
    then (
      true,
      record conn {
        inventory_dirty = false;
        coins_dirty = false;
        bank_dirty = false;
        bank_items_dirty = false;
        account_bank_items_dirty = false;
        item_events = [];
      },
    )
    else (false, conn)
