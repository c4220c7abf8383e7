-- ===== src/Inventory/Place.antt =====
-- A move between two slots that hold no bag, and the steps around a move, keep the inventory well
-- formed and lose nothing.
use project_dawn_server.Base.{ℕ, ◌<◌, ◌≡◌, ap, sym, ◌∙◌, subst, ◌≢◌, none, some, arith, as_u8}
use project_dawn_server.Items.{Registry, IsRegistry, bag_num_slots}
use project_dawn_server.Inventory.Entry.{InventoryEntry, Slot, count_in}
use project_dawn_server.Inventory.Location.{
  SlotRefInt, base, cursor, base_slot_count, cursor_bag_key,
}
use project_dawn_server.Inventory.State.{
  PlayerInventory, cell, write_cell, slot_bag_size, place_onto, ensure_bag_init,
}
use project_dawn_server.Inventory.Moves.{place, rehost}
use project_dawn_server.Inventory.Cells.{host, InRange, count_of-write_cell, cell-write_ne}
use project_dawn_server.Inventory.Valid.{
  IsValid, IsStack, Kept, write_cell-IsValid, InRange-write_cell, Placed, place_onto-Placed,
}
use project_dawn_server.Inventory.Rehost.{ensure_bag_init-IsValid}
use project_dawn_server.Inventory.Settle.{rehost-Kept}

pub place-Kept :
    (items : Registry) (inv : PlayerInventory) (src dst : SlotRefInt) (entry : InventoryEntry)
    → IsRegistry items
    → IsValid items inv
    → InRange src inv
    → InRange dst inv
    → src ≢ dst
    → cell src inv ≡ some entry
    → bag_num_slots items entry.item_path ≡ none
    → slot_bag_size items (cell dst inv) ≡ none
    → Kept items inv (place items src dst entry inv)
unfolding place
place-Kept items inv src dst entry reg valid s d apart holds plain_src plain_dst =
    let out : Slot × Slot = place_onto items (cell dst inv) entry in
    let p : Placed items (cell dst inv) entry out =
      place_onto-Placed items (cell dst inv) entry reg (valid.stacks dst)
        (subst IsStack holds (valid.stacks src)) plain_dst plain_src in
    let lifted : PlayerInventory = write_cell src out.1 inv in
    let still : cell dst lifted ≡ cell dst inv = cell-write_ne src dst out.1 inv apart in
    let d' : InRange dst lifted = InRange-write_cell src dst out.1 inv d in
    let src_like : slot_bag_size items out.1 ≡ slot_bag_size items (cell src inv) =
      p.src_plain ∙ sym plain_src ∙ ap (slot_bag_size items) (sym holds) in
    let dst_like : slot_bag_size items out.0 ≡ slot_bag_size items (cell dst lifted) =
      p.dst_plain ∙ sym plain_dst ∙ ap (slot_bag_size items) (sym still) in
    let lifted_valid = write_cell-IsValid items src out.1 inv s valid p.src_stack src_like in
    (
      write_cell-IsValid items dst out.0 lifted d' lifted_valid p.dst_stack dst_like,
      λ path. omega (
        arith,
        p.counts path,
        ap (count_in path) holds,
        ap (count_in path) still,
        count_of-write_cell path src out.1 inv s,
        count_of-write_cell path dst out.0 lifted d',
      ),
    )

pub ensure_bag_init-Kept :
    (items : Registry) (i : ℕ) (inv after : PlayerInventory)
    → i < base_slot_count
    → Kept items inv after
    → Kept items inv (ensure_bag_init items i after)
ensure_bag_init-Kept items i inv after low kept =
    subst (Kept items inv) (sym (ensure_bag_init-IsValid items i after low kept.0)) kept

pub host_base : (k : ℕ) → k < base_slot_count → host k ≡ base k
host_base k h = ground arith

as_u8_base : (k : ℕ) → k < base_slot_count → as_u8 k ≡ k
as_u8_base k h = omega arith

pub base_there :
    (items : Registry) (inv : PlayerInventory) (k : ℕ)
    → IsValid items inv
    → k < base_slot_count
    → InRange (base k) inv
base_there items inv k valid h = omega (arith, valid.base_len)

pub rehost_base-Kept :
    (items : Registry) (inv : PlayerInventory) (src dst : ℕ) (entry : InventoryEntry)
    → IsRegistry items
    → IsValid items inv
    → src < base_slot_count
    → dst < base_slot_count
    → src ≢ dst
    → cell (base src) inv ≡ some entry
    → Kept items inv (rehost items (base src) (as_u8 src) (base dst) (as_u8 dst) entry inv)
rehost_base-Kept items inv src dst entry reg valid ls ld apart holds =
    rw (as_u8_base src ls, as_u8_base dst ld, ← host_base src ls, ← host_base dst ld)
      (rehost-Kept items inv src dst entry reg valid
        (rw (host_base src ls) (base_there items inv src valid ls))
        (rw (host_base dst ld) (base_there items inv dst valid ld)) apart (omega arith)
        (omega arith) (rw (host_base src ls) holds))

pub rehost_to_cursor-Kept :
    (items : Registry) (inv : PlayerInventory) (src : ℕ) (entry : InventoryEntry)
    → IsRegistry items
    → IsValid items inv
    → src < base_slot_count
    → cell (base src) inv ≡ some entry
    → Kept items inv (rehost items (base src) (as_u8 src) cursor cursor_bag_key entry inv)
rehost_to_cursor-Kept items inv src entry reg valid ls holds =
    rw (as_u8_base src ls, ← host_base src ls)
      (rehost-Kept items inv src cursor_bag_key entry reg valid
        (rw (host_base src ls) (base_there items inv src valid ls)) tt (omega arith) (omega arith)
        (omega arith) (rw (host_base src ls) holds))

pub rehost_from_cursor-Kept :
    (items : Registry) (inv : PlayerInventory) (dst : ℕ) (held : InventoryEntry)
    → IsRegistry items
    → IsValid items inv
    → dst < base_slot_count
    → cell cursor inv ≡ some held
    → Kept items inv (rehost items cursor cursor_bag_key (base dst) (as_u8 dst) held inv)
rehost_from_cursor-Kept items inv dst held reg valid ld holds =
    rw (as_u8_base dst ld, ← host_base dst ld)
      (rehost-Kept items inv cursor_bag_key dst held reg valid tt
        (rw (host_base dst ld) (base_there items inv dst valid ld)) (omega arith) (omega arith)
        (omega arith) holds)
