-- ===== src/Lib.antt =====
-- The Project Dawn game server: the item registry, the player inventory, coins, the bank's
-- vaults and its counter, trades, the groups, levels and experience.
--
-- The server keeps every player's items in one PlayerInventory
-- (crates/projectdawn-server/src/world/inventory.rs): 8 base slots, 9 worn slots, one held stack
-- (the cursor), and the contents of each bag under the number of the base slot that the bag stands
-- in, or under 255 while the bag is held. The tick handlers turn the messages of clients into calls
-- of its operations, and persistence and deltas are read off it. The bank keeps flat ItemVaults (the
-- same file), which are stored as rows. Two players trade through a TradeManager
-- (crates/projectdawn-server/src/world/trade.rs), whose offers refer into the inventories of their
-- owners and lock what they name until the session closes. The inventory and the vaults ask the item
-- registry (crates/projectdawn-server/src/world/items.rs) what an item is. A GroupManager
-- (crates/projectdawn-server/src/world/groups.rs) keeps the groups of players, the index of their
-- members and the open invites, and gives out the turns of their loot.
--
-- Files:
--   Base and its children: shared names, Boolean tests, lists and indexing, maps, results.
--   Items: the registry, a function from a path to its item. The contents of data/items.toml are a
--     parameter. IsRegistry states what the file keeps: stack sizes that are positive and fit a u32.
--   Inventory/Entry, Location, State: stacks and the capped merge (merge_capped), location names
--     (parse_bag_location, parse_slot_ref), the record with its helpers, and the actions on it.
--   Inventory/Moves: move_base, move_bag, the moves to and from the cursor and bags, move_across.
--   Inventory/Equip, Removal: wearing, taking off, destroy_at, decrement_at, split_base.
--   Inventory/Cells, Valid, Rehost, Settle, Place, BagFacts: reads after writes, the counting of
--     items, well-formedness, and the lemmas of the two kinds of placement.
--   Inventory/HostMoves, BagMoves, MoveAcross, EquipLaws, RemovalLaws, SplitLaws: the theorems.
--   Inventory/Park, ParkLaws: park_cursor_stack. Inventory/WornLaws: restore_worn (in Equip).
--   Inventory/Fill, FillLaws: the two passes that place a number of one item into a row of slots.
--   Inventory/Grant: the placer of new items (add_item_locating, can_accept); Claim, GrantLaws,
--     Placing, Granted, the theorems.
--   Inventory/Strip: corpse_stacks, clear_all, purge_no_rent; StripLaws, Purge, the theorems.
--   Coins: the arithmetic of a purse of four coin stacks (crates/protocol/src/world.rs);
--     Coins/Spending, Tiers: the theorems.
--   Vault: ItemVault, the bank's flat store; Vault/Rows, its database rows; Vault/Laws, RowLaws,
--     Withdrawals, the theorems.
--   Trade: the table and every method of the manager; Trade/Sessions, Edits, Closing, Locks,
--     Reach, Spellings: the theorems.
--   Ledger, Connection: ledger rows (world/ledger.rs), and the stores of a connected player with the
--     store flush (world/connection.rs, persistence.rs).
--   Banking, Banking/Store, Withdraw: the banker's coin counter, and a stack into a vault and out of
--     it (world/tick/banking.rs); Banking/Counter, Stored, Withdrawn: the theorems.
--   Trading: the accept and commit of a trade (world/tick/trading.rs); Trading/Intents, the other
--     intents of a tick and the sweep; Trading/TakeOut, Terms, Swaps, Books, Commit, Outcome, Intent,
--     Accepted, Accepting, Balance, Closed, Tables, Fair, Parking, Steps: the theorems.
--   Progression: levels and experience (world/progression.rs); Progression/Levels, Penalty: the
--     theorems.
--   Groups: the group manager; Groups/Agreement, Leaving, Turns, Reach: the theorems.
--   Tests: one small world, what runs compute there, and the theorems applied to it.
--
-- How the state corresponds. A HashMap is a function from keys to optional values. An operation
-- takes the state and returns its result with the state as it is left, after an error too. The three
-- outcomes of the match on a destination slot (take over, merge, swap) are written out in several
-- methods of the source; they are place_onto here, and exchange where bags' contents ride along.
-- Where the source takes a stack out before it matches, the model reads it, and both slots are
-- written once the match is decided. Numbers are natural numbers: `count -= n` wraps as in a release
-- build, saturating_add stops at 2^32 - 1, `as u8` is a remainder, and the counters of sessions and
-- groups wrap at 2^64. Loops are recursions on a list or on the number of steps that the source's
-- range has, so no fuel is needed.
--
-- A purse has no negative tier here: the tiers are natural numbers, and CoinAmount::try_from lets no
-- other amount in. The sums that the commit of a trade writes with `-=` and `+=` wrap as in a release
-- build, to the 64 bits of the result; a tier of 2^63 or more then stands for a negative number, which
-- the other methods of the purse here do not read as one, so the theorems on the coins of a trade ask
-- that the sums fit an i64. What the database does is a parameter: whether the flush of a connection commits (lands) and whether the
-- transaction of a trade does (commits). What the search for a banker answers is a parameter of the
-- banker's requests. Whether two players are alive and near each other is one too
-- (together, and reach for a request), since health and positions are floating point.
--
-- The curve of experience (char_data::xp_to_next_for) and the share of a bar that a death costs compute
-- in floating point: they are parameters, with the laws that a theorem needs as its conditions. The
-- loops of resolve have as many steps as there are levels to the cap or to the floor.
--
-- An inventory is well formed where contents stand exactly under the keys of slots that hold a bag,
-- at the bag's size, no bag is inside a bag or worn, and every stack is positive and fits a u32.
-- This is stronger than what every path of the server leaves at the key of the held bag: a bag
-- picked up from the ground is held with no contents allocated, and destroying an empty held bag
-- leaves its empty contents behind.
--
-- Not modelled: the database rows of the inventory (those of the vault are), the corpses themselves,
-- most handlers of the tick, the network, persistence, accounts, combat, spells, terrain and content.
-- Much of the rest computes in floating point or rolls random numbers.
pub mod Banking
pub mod Base
pub mod Items
pub mod Inventory
pub mod Coins
pub mod Ledger
pub mod Connection
pub mod Trading
pub mod Progression
pub mod Vault
pub mod Groups
pub mod Trade
pub mod Tests
