-- ===== src/Inventory.antt =====
-- crates/projectdawn-server/src/world/inventory.rs: what a player owns.
pub mod Entry
pub mod Fill
pub mod FillLaws
pub mod Location
pub mod State
pub mod Moves
pub mod Cells
pub mod Valid
pub mod Rehost
pub mod Settle
pub mod Place
pub mod Equip
pub mod Removal
pub mod BagFacts
pub mod EquipLaws
pub mod RemovalLaws
pub mod SplitLaws
pub mod HostMoves
pub mod BagMoves
pub mod MoveAcross
pub mod Park
pub mod ParkLaws
pub mod WornLaws
pub mod Grant
pub mod Seat
pub mod Claim
pub mod GrantLaws
pub mod Placing
pub mod Granted
pub mod Strip
pub mod StripLaws
pub mod Purge
