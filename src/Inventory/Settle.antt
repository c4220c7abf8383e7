-- ===== src/Inventory/Settle.antt =====
-- A move between two hosts keeps the inventory well formed and loses nothing.
use project_dawn_server.Base.{
  length, ℕ, ◌+◌, ◌<◌, ◌≡◌, ap, sym, ◌∙◌, subst, ◌≢◌, Option, none, some, String, arith, ℕ_discrete,
  ◌==◌, if◌then◌else◌,
}
use project_dawn_server.Items.{IsRegistry, Registry}
use project_dawn_server.Inventory.Entry.{InventoryEntry, Slot, Slots, slot_at, count_in}
use project_dawn_server.Inventory.Location.{SlotRefInt, base, bag, cursor, cursor_bag_key}
use project_dawn_server.Inventory.State.{
  exchange, PlayerInventory, cell, write_cell, put_contents, slot_bag_size, Exchange,
}
use project_dawn_server.Inventory.Moves.{rehost, settle}
use project_dawn_server.Inventory.Cells.{
  length-base-write_cell, equipment-write_cell, host, size_of, InRange, count_of, count_contents,
  count_of-write_cell, cell-write_ne,
}
use project_dawn_server.Inventory.Valid.{Kept, IsValid, IsStack, cell-write_all, InRange-write_cell}
use project_dawn_server.Inventory.Rehost.{
  exchange-Exchanged, Exchanged, host-injective, count_of-put_contents, cell-put_contents-host,
}

abbrev pub content_at : Option Slots → ℕ → Slot
content_at none i = none
content_at (some arr) i = slot_at arr i

cell_bag : (k i : ℕ) (inv : PlayerInventory) → cell (bag k i) inv ≡ content_at (inv.bags k) i
unfolding cell
cell_bag k i inv = ground arith

bags-write_host :
    (k : ℕ) (v : Slot) (inv : PlayerInventory) → (write_cell (host k) v inv).bags ≡ inv.bags
unfolding write_cell
bags-write_host k v inv = elim (ℕ_discrete k cursor_bag_key) [
  | yes e ↦ ground arith
  | no ne ↦ ground arith
]

module _ (items : Registry) (inv : PlayerInventory) (src_key dst_key : ℕ) (entry : InventoryEntry)
    (x : Exchange) (src_there : InRange (host src_key) inv) (dst_there : InRange (host dst_key) inv)
    (apart : src_key ≢ dst_key) where
  hosts_apart : host src_key ≢ host dst_key
  hosts_apart e = apart (host-injective src_key dst_key e)

  abbrev lifted : PlayerInventory
  lifted = write_cell (host src_key) x.src inv

  abbrev written : PlayerInventory
  written = write_cell (host dst_key) x.dst lifted

  abbrev settled : PlayerInventory
  settled = settle (host src_key) src_key (host dst_key) dst_key x inv

  dst_still_there : InRange (host dst_key) lifted
  dst_still_there = InRange-write_cell (host src_key) (host dst_key) x.src inv dst_there

  written_all :
      (P : Slot → Type 0) (r : SlotRefInt)
      → (host src_key ≡ r → P x.src)
      → (host dst_key ≡ r → P x.dst)
      → (host src_key ≢ r → host dst_key ≢ r → P (cell r inv))
      → P (cell r written)
  written_all P r src dst other =
      cell-write_all items (host dst_key) x.dst lifted dst_still_there P r dst
        (λ d. cell-write_all items (host src_key) x.src inv src_there P r src (λ s. other s d))

  bags_written : written.bags ≡ inv.bags
  bags_written = bags-write_host dst_key x.dst lifted ∙ bags-write_host src_key x.src inv

  bags_placed : (put_contents dst_key x.dst_contents written).bags src_key ≡ inv.bags src_key
  unfolding put_contents
  bags_placed = ground (arith, ap (λ b. b src_key) bags_written)

  bags_settled :
      (k : ℕ)
      → settled.bags k ≡ (
          if k == src_key
          then x.src_contents
          else if k == dst_key
          then x.dst_contents
          else inv.bags k)
  unfolding settle put_contents
  bags_settled k =
      ground (arith, bags-write_host dst_key x.dst lifted, bags-write_host src_key x.src inv)

  settled-host : (k : ℕ) → cell (host k) settled ≡ cell (host k) written
  unfolding settle
  settled-host k =
      cell-put_contents-host src_key x.src_contents _ k
      ∙ cell-put_contents-host dst_key x.dst_contents _ k

  count_of-settled :
      (path : String)
      → src_key < 256
      → dst_key < 256
      → count_of path settled
          + count_in path (cell (host src_key) inv)
          + count_in path (cell (host dst_key) inv)
          + count_contents path (inv.bags src_key)
          + count_contents path (inv.bags dst_key)
        ≡ count_of path inv
          + count_in path x.src
          + count_in path x.dst
          + count_contents path x.src_contents
          + count_contents path x.dst_contents
  unfolding settle
  count_of-settled path ls ld = omega (
    arith,
    count_of-put_contents src_key x.src_contents (put_contents dst_key x.dst_contents written) path
        ls,
    count_of-put_contents dst_key x.dst_contents written path ld,
    count_of-write_cell path (host dst_key) x.dst lifted dst_still_there,
    count_of-write_cell path (host src_key) x.src inv src_there,
    ap (count_contents path) bags_placed,
    ap (λ b. count_contents path (b dst_key)) bags_written,
    ap (count_in path) (cell-write_ne (host src_key) (host dst_key) x.src inv hosts_apart),
  )

  module _ (valid : IsValid items inv)
      (kept : Exchanged items
        (cell (host dst_key) inv)
        entry
        (inv.bags src_key)
        (inv.bags dst_key)
        x) where
    content_inner : (k i : ℕ) → slot_bag_size items (content_at (inv.bags k) i) ≡ none
    content_inner k i =
        subst (λ t. slot_bag_size items t ≡ none) (cell_bag k i inv) (valid.inner k i)

    inner_settled : (k i : ℕ) → slot_bag_size items (cell (bag k i) settled) ≡ none
    inner_settled k i =
        rw (cell_bag k i settled, bags_settled k)
          (ground (
            arith,
            kept.dst_from,
            kept.src_from,
            content_inner src_key i,
            content_inner dst_key i,
            content_inner k i,
          ))

    size_settled : (k : ℕ) → slot_bag_size items (cell (host k) settled) ≡ size_of (settled.bags k)
    size_settled k =
        rw (settled-host k, bags_settled k)
          (written_all
            (λ t.
              slot_bag_size items t
              ≡ size_of (
                  if k == src_key
                  then x.src_contents
                  else if k == dst_key
                  then x.dst_contents
                  else inv.bags k))
            (host k) (λ e. ground (arith, host-injective src_key k e, kept.src_size))
            (λ e. ground (arith, host-injective dst_key k e, kept.dst_size))
            (λ not_src not_dst.
              let a : k ≢ src_key = λ e. not_src (ap host (sym e)) in
              let b : k ≢ dst_key = λ e. not_dst (ap host (sym e)) in
              ground (arith, valid.hosted k)))

    content-IsStack : (k i : ℕ) → IsStack (content_at (inv.bags k) i)
    content-IsStack k i = subst IsStack (cell_bag k i inv) (valid.stacks (bag k i))

    bag-IsStack-settled : (k i : ℕ) → IsStack (cell (bag k i) settled)
    bag-IsStack-settled k i =
        rw (cell_bag k i settled, bags_settled k)
          (ground (
            arith,
            kept.dst_from,
            kept.src_from,
            content-IsStack src_key i,
            content-IsStack dst_key i,
            content-IsStack k i,
          ))

    IsStack-settled : (r : SlotRefInt) → IsStack (cell r settled)
    unfolding settle put_contents cell
    IsStack-settled (base i) =
        written_all IsStack (base i) (λ _. kept.src_stack) (λ _. kept.dst_stack)
          (λ _ _. valid.stacks (base i))
    IsStack-settled (bag k i) = bag-IsStack-settled k i
    IsStack-settled cursor =
        written_all IsStack cursor (λ _. kept.src_stack) (λ _. kept.dst_stack)
          (λ _ _. valid.stacks cursor)

    base_settled : length settled.base ≡ length inv.base
    unfolding settle put_contents
    base_settled =
        length-base-write_cell (host dst_key) x.dst lifted
        ∙ length-base-write_cell (host src_key) x.src inv

    equipment_settled : settled.equipment ≡ inv.equipment
    unfolding settle put_contents
    equipment_settled =
        equipment-write_cell (host dst_key) x.dst lifted
        ∙ equipment-write_cell (host src_key) x.src inv

    settled-IsValid : IsValid items settled
    settled-IsValid = record {
      base_len = base_settled ∙ valid.base_len;
      hosted = size_settled;
      inner = inner_settled;
      stacks = IsStack-settled;
      worn_stacks = λ k. rw equipment_settled (valid.worn_stacks k);
      worn_plain = λ k. rw equipment_settled (valid.worn_plain k);
      worn_range = λ k h. rw equipment_settled (valid.worn_range k h);
    }

-- A move between the hosts of two keys, the source occupied.
pub rehost-Kept :
    (items : Registry) (inv : PlayerInventory) (src_key dst_key : ℕ) (entry : InventoryEntry)
    → IsRegistry items
    → IsValid items inv
    → InRange (host src_key) inv
    → InRange (host dst_key) inv
    → src_key ≢ dst_key
    → src_key < 256
    → dst_key < 256
    → cell (host src_key) inv ≡ some entry
    → Kept items inv (rehost items (host src_key) src_key (host dst_key) dst_key entry inv)
unfolding rehost
rehost-Kept items inv src_key dst_key entry reg valid s d apart ls ld holds =
    let kept =
      exchange-Exchanged items (cell (host dst_key) inv) entry (inv.bags src_key) (inv.bags dst_key)
        reg (valid.stacks (host dst_key)) (subst IsStack holds (valid.stacks (host src_key)))
        (valid.hosted dst_key)
        (subst (λ t. slot_bag_size items t ≡ size_of (inv.bags src_key)) holds
          (valid.hosted src_key)) in
    let x : Exchange =
      exchange items (cell (host dst_key) inv) entry (inv.bags src_key) (inv.bags dst_key) in
    (
      settled-IsValid items inv src_key dst_key entry x s d apart valid kept,
      λ path. omega (
        arith,
        kept.counts path,
        ap (count_in path) holds,
        count_of-settled items inv src_key dst_key entry x s d apart path ls ld,
      ),
    )
