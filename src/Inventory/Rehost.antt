-- ===== src/Inventory/Rehost.antt =====
-- The match of the moves between hosts (base slots and the cursor), where a bag's contents ride along.
use project_dawn_server.Base.{
  ℕ, ◌+◌, ◌<◌, ◌≡◌, refl, ap, fun_ext, ◌⊎◌, inl, inr, Option, none, some, String, arith, eq_iff,
  update, sum_below-one, as_u8,
}
use project_dawn_server.Items.{Registry, IsRegistry, max_stack-u32, bag_num_slots}
use project_dawn_server.Inventory.Entry.{
  InventoryEntry, Slot, Slots, slot_at, count_in, merge_capped, is_bag_item,
}
use project_dawn_server.Inventory.Location.{base_slot_count}
use project_dawn_server.Inventory.State.{
  PlayerInventory, cell, put_contents, slot_bag_size, exchange, Exchange, ensure_bag_init,
  sync_contents,
}
use project_dawn_server.Inventory.Cells.{host, size_of, count_contents, count_of}
use project_dawn_server.Inventory.Valid.{IsValid, IsStack}

-- What the match keeps. The contents on either side are the other side's old ones, or none.
pub record Exchanged (items : Registry) (existing : Slot) (entry : InventoryEntry)
    (mine theirs : Option Slots) (x : Exchange) : Type 0 where
  pub dst_stack : IsStack x.dst
  pub src_stack : IsStack x.src
  pub dst_size : slot_bag_size items x.dst ≡ size_of x.dst_contents
  pub src_size : slot_bag_size items x.src ≡ size_of x.src_contents
  pub dst_from : (x.dst_contents ≡ none) ⊎ (x.dst_contents ≡ mine)
  pub src_from : (x.src_contents ≡ none) ⊎ (x.src_contents ≡ theirs)
  pub counts :
      (path : String)
      → count_in path x.dst
          + count_in path x.src
          + count_contents path x.dst_contents
          + count_contents path x.src_contents
        ≡ count_in path existing
          + count_in path (some entry)
          + count_contents path mine
          + count_contents path theirs

pub exchange-Exchanged :
    (items : Registry) (existing : Slot) (entry : InventoryEntry) (mine theirs : Option Slots)
    → IsRegistry items
    → IsStack existing
    → IsStack (some entry)
    → slot_bag_size items existing ≡ size_of theirs
    → bag_num_slots items entry.item_path ≡ size_of mine
    → Exchanged items existing entry mine theirs (exchange items existing entry mine theirs)
unfolding exchange merge_capped is_bag_item
exchange-Exchanged items none entry mine theirs reg s t p q = record {
  dst_stack = t;
  src_stack = tt;
  dst_size = q;
  src_size = refl;
  dst_from = inr refl;
  src_from = inl refl;
  counts = λ path. ground arith;
}
exchange-Exchanged items (some x) entry mine theirs reg s t p q =
    let cap = max_stack-u32 items reg x.item_path in
    let same = eq_iff x.item_path entry.item_path in
    record {
      dst_stack = ground (arith, cap);
      src_stack = ground (arith, cap);
      dst_size = ground (arith, same);
      src_size = ground (arith, same);
      dst_from = ground arith;
      src_from = ground arith;
      counts = λ path. ground (arith, cap, same);
    }

module _ (k : ℕ) (contents : Option Slots) (inv : PlayerInventory) where
  pub count_of-put_contents :
      (path : String)
      → k < 256
      → count_of path (put_contents k contents inv) + count_contents path (inv.bags k)
        ≡ count_of path inv + count_contents path contents
  unfolding count_of put_contents
  count_of-put_contents path low =
      let there : (update k contents inv.bags) k ≡ contents = ground arith in
      omega (
        arith,
        ap (count_contents path) there,
        sum_below-one (count_contents path) 256 k (update k contents inv.bags) inv.bags low
            (λ j d. ground arith),
      )

  pub cell-put_contents-host :
      (j : ℕ) → cell (host j) (put_contents k contents inv) ≡ cell (host j) inv
  unfolding cell put_contents
  cell-put_contents-host j = ground arith

sync_contents-fits :
    (size : Option ℕ) (contents : Option Slots)
    → size ≡ size_of contents
    → sync_contents size contents ≡ contents
sync_contents-fits none none h = refl
sync_contents-fits none (some v) h = cc
sync_contents-fits (some n) none h = cc
sync_contents-fits (some n) (some v) h = refl

pub at_base :
    (items : Registry) (i : ℕ) (inv : PlayerInventory)
    → i < base_slot_count
    → IsValid items inv
    → slot_bag_size items (slot_at inv.base i) ≡ size_of (inv.bags i)
unfolding cell
at_base items i inv low valid = ground (arith, valid.hosted i)

abbrev with_bags : PlayerInventory → (ℕ → Option Slots) → PlayerInventory
with_bags inv b = record inv { bags = b }

-- In a well-formed inventory the contents already fit the slot above them.
pub ensure_bag_init-IsValid :
    (items : Registry) (i : ℕ) (inv : PlayerInventory)
    → i < base_slot_count
    → IsValid items inv
    → ensure_bag_init items i inv ≡ inv
unfolding ensure_bag_init
ensure_bag_init-IsValid items i inv low valid =
    let size = slot_bag_size items (slot_at inv.base i) in
    let key : as_u8 i ≡ i = omega arith in
    let fits : sync_contents size (inv.bags i) ≡ inv.bags i =
      sync_contents-fits size (inv.bags i) (at_base items i inv low valid) in
    let kept : (j : ℕ) → update i (inv.bags i) inv.bags j ≡ inv.bags j = λ j. ground arith in
    rw (key, fits) (ap (with_bags inv) (fun_ext kept))

-- The host of a key is the slot of one key only.
pub host-injective : (j k : ℕ) → host j ≡ host k → j ≡ k
host-injective j k e = ground (arith, e)
