-- ===== src/Inventory/SplitLaws.antt =====
-- Splitting a base stack: a rearrangement for a stack of plain items, and the loss of a bag's
-- contents when the bag itself is split off.
use project_dawn_server.Inventory.Rehost.{at_base}
use project_dawn_server.Inventory.Cells.{count_of-write_cell, cell-write_ne}
use project_dawn_server.Inventory.Place.{ensure_bag_init-Kept, base_there}
use project_dawn_server.Inventory.Valid.{
  write_cell-IsValid, InRange-write_cell, Kept, Rearranges, IsValid, IsStack,
}
use project_dawn_server.Inventory.State.{
  ◌>>=◌, ensure_bag_init, write_cell, cell, slot_bag_size, PlayerInventory,
}
use project_dawn_server.Inventory.Removal.{with_split, reduced, split_refusal, split_base}
use project_dawn_server.Inventory.Entry.{slot_at, count_in, InventoryEntry, Slot}
use project_dawn_server.Items.{bag_num_slots, Registry}
use project_dawn_server.Inventory.Location.{base_slot_count, base}
use project_dawn_server.Base.{
  length-set, get_or-set_self, get_or-set_ne, set, false, refl, subst, replicate, ap, [], ◌∷◌, sym,
  Result-cases, ◌∙◌, ltb, Option-cases, ◌==◌, inr, inl, ◌||◌, leb, eq_iff, arith, Bool-cases,
  String, ◌≤◌, ◌≢◌, none, u32_mod, ok, ◌≡◌, ◌<◌, ◌+◌, some, ℕ,
}

-- Two base slots written, both before and after without a bag.
module _ (items : Registry) (inv : PlayerInventory) (src dst : ℕ) (s d : Slot)
    (valid : IsValid items inv) (ls : src < base_slot_count) (ld : dst < base_slot_count)
    (apart : src ≢ dst) (src_plain : slot_bag_size items (cell (base src) inv) ≡ none)
    (dst_plain : slot_bag_size items (cell (base dst) inv) ≡ none) (s_stack : IsStack s)
    (d_stack : IsStack d) (s_plain : slot_bag_size items s ≡ none)
    (d_plain : slot_bag_size items d ≡ none)
    (counts : (path : String)
      → count_in path s + count_in path d
        ≡ count_in path (cell (base src) inv) + count_in path (cell (base dst) inv)) where
  write_two-Kept : Kept items inv (write_cell (base dst) d (write_cell (base src) s inv))
  write_two-Kept =
      let there = base_there items inv src valid ls in
      let there_dst =
        InRange-write_cell (base src) (base dst) s inv (base_there items inv dst valid ld) in
      let still : cell (base dst) (write_cell (base src) s inv) ≡ cell (base dst) inv =
        cell-write_ne (base src) (base dst) s inv (λ e. ground (arith, apart, e)) in
      let one =
        write_cell-IsValid items (base src) s inv there valid s_stack (s_plain ∙ sym src_plain) in
      (
        write_cell-IsValid items (base dst) d (write_cell (base src) s inv) there_dst one d_stack
            (d_plain ∙ sym dst_plain ∙ ap (slot_bag_size items) (sym still)),
        λ path. omega (
          arith,
          counts path,
          ap (count_in path) still,
          count_of-write_cell path (base src) s inv there,
          count_of-write_cell path (base dst) d (write_cell (base src) s inv) there_dst,
        ),
      )

-- The destination's count and the split fit a `u32` together.
abbrev pub Fits : Slot → ℕ → Type 0
Fits none count = Unit {0}
Fits (some existing) count = existing.count + count < u32_mod

-- What the split writes, where the destination accepts it.
record Carves (items : Registry) (e : InventoryEntry) (count : ℕ) (existing : Slot) : Type 0 where
  src_stack : IsStack (reduced e count)
  dst_stack : IsStack (with_split items e count existing)
  src_plain : slot_bag_size items (reduced e count) ≡ none
  dst_plain : slot_bag_size items (with_split items e count existing) ≡ none
  counts :
      (path : String)
      → count_in path (reduced e count) + count_in path (with_split items e count existing)
        ≡ count_in path (some e) + count_in path existing

with_split-Carves :
    (items : Registry) (e : InventoryEntry) (count : ℕ) (existing : Slot)
    → split_refusal items e count existing ≡ ok tt
    → IsStack (some e)
    → IsStack existing
    → 0 < count
    → count ≤ e.count
    → Fits existing count
    → bag_num_slots items e.item_path ≡ none
    → slot_bag_size items existing ≡ none
    → Carves items e count existing
with_split-Carves items e count none h s x p l f q y = record {
  src_stack = ground arith;
  dst_stack = ground arith;
  src_plain = ground arith;
  dst_plain = q;
  counts = λ path. ground arith;
}
with_split-Carves items e count (some o) h s x p l f q y =
    let same : o.item_path ≡ e.item_path = ground (arith, eq_iff o.item_path e.item_path) in
    record {
      src_stack = ground arith;
      dst_stack = ground arith;
      src_plain = ground arith;
      dst_plain = y;
      counts = λ path. ground arith;
    }

-- From a well-formed inventory, splitting a stack that is no bag, to a slot that holds no bag and
-- with the sum of the two counts in a u32, either is refused and leaves the inventory as it was,
-- or leaves a well-formed inventory that holds as many of each item.
pub split_base-Rearranges :
    (items : Registry) (inv : PlayerInventory) (src dst count : ℕ)
    → IsValid items inv
    → slot_bag_size items (cell (base src) inv) ≡ none
    → slot_bag_size items (cell (base dst) inv) ≡ none
    → Fits (cell (base dst) inv) count
    → Rearranges items inv (split_base items src dst count inv)
unfolding split_base
split_base-Rearranges items inv src dst count valid src_plain dst_plain fits =
    elim (Bool-cases (leb base_slot_count src || leb base_slot_count dst)) [
      | inl out ↦ rw out refl
      | inr low ↦ rw low (elim (Bool-cases (src == dst)) [
        | inl same ↦ rw same refl
        | inr apart ↦ rw apart (elim (Bool-cases (count == 0)) [
          | inl nil ↦ rw nil refl
          | inr some_count ↦ rw some_count (elim (Option-cases (cell (base src) inv)) [
            | inl gone ↦ rw gone refl
            | inr (e, holds) ↦ rw holds (elim (Bool-cases (ltb e.count count)) [
              | inl few ↦ rw few refl
              | inr enough ↦
                  rw enough
                    (elim (Result-cases (split_refusal items e count (cell (base dst) inv))) [
                      | inr (x, refused) ↦ rw (refused, ◌>>=◌) refl
                      | inl (_, taken) ↦
                          rw (taken, ◌>>=◌)
                            (let e_plain =
                                subst (λ t. slot_bag_size items t ≡ none) holds src_plain in
                              let w =
                                with_split-Carves items e count (cell (base dst) inv) taken
                                  (subst IsStack holds (valid.stacks (base src)))
                                  (valid.stacks (base dst)) (ground (arith, some_count))
                                  (ground (arith, enough)) fits e_plain dst_plain in
                              ensure_bag_init-Kept items dst inv _ (ground (arith, low)) (
                                ensure_bag_init-Kept items src inv _ (ground (arith, low)) (
                                  write_two-Kept items inv src dst (reduced e count)
                                    (with_split items e count (cell (base dst) inv)) valid
                                    (ground (arith, low)) (ground (arith, low))
                                    (λ x. ground (arith, apart, x)) src_plain dst_plain w.src_stack
                                    w.dst_stack w.src_plain w.dst_plain
                                    (λ path.
                                      omega (arith, w.counts path, ap (count_in path) holds)))))
                    ])
            ])
          ])
        ])
      ])
    ]

pub no_contents :
    (items : Registry) (inv : PlayerInventory) (i : ℕ)
    → IsValid items inv
    → i < base_slot_count
    → cell (base i) inv ≡ none
    → inv.bags i ≡ none
unfolding cell
no_contents items inv i valid low free = ground (arith, at_base items i inv low valid)

-- From a well-formed inventory, splitting one off a bag that stands alone in its base slot, to
-- another and empty base slot, succeeds, drops the contents of the bag and gives the bag at its
-- new slot empty contents, whatever it held.
pub split_base-loses_contents :
    (items : Registry) (inv : PlayerInventory) (src dst n : ℕ) (e : InventoryEntry)
    → IsValid items inv
    → src < base_slot_count
    → dst < base_slot_count
    → src ≢ dst
    → cell (base src) inv ≡ some e
    → e.count ≡ 1
    → bag_num_slots items e.item_path ≡ some n
    → cell (base dst) inv ≡ none
    → let (result, after) = split_base items src dst 1 inv in
      (result ≡ ok (src ∷ dst ∷ []))
      × (after.bags src ≡ none)
      × (after.bags dst ≡ some (replicate n none))
unfolding split_base ensure_bag_init write_cell
split_base-loses_contents items inv src dst n e valid ls ld apart holds one is_bag free =
    let low : (leb base_slot_count src || leb base_slot_count dst) ≡ false = ground arith in
    let ne : (src == dst) ≡ false = ground arith in
    let enough : ltb e.count 1 ≡ false = ground arith in
    let moved : Slot = some (record e { count = 1 }) in
    let gone : reduced e 1 ≡ none = ground arith in
    let at_src : slot_at (set (set inv.base src none) dst moved) src ≡ none =
      get_or-set_ne (set inv.base src none) dst src moved none (λ x. apart (sym x))
      ∙ get_or-set_self inv.base src none none (omega (arith, valid.base_len)) in
    let at_dst : slot_at (set (set inv.base src none) dst moved) dst ≡ moved =
      get_or-set_self (set inv.base src none) dst moved none
        (omega (arith, valid.base_len, length-set inv.base src none)) in
    let bare : inv.bags dst ≡ none = no_contents items inv dst valid ld free in
    rw (low, ne, holds, enough, free, gone)
      (refl, ground (arith, at_src, at_dst, bare), ground (arith, at_src, at_dst, bare))
