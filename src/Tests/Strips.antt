-- ===== src/Tests/Strips.antt =====
-- The theorems on the strip and the purge at the small world.
use project_dawn_server.Inventory.Purge.{purge_no_rent-Parts}
use project_dawn_server.Inventory.Cells.{count_of}
use project_dawn_server.Tests.World.{pack, stock}
use project_dawn_server.Inventory.StripLaws.{corpse_stacks-all_stacks, total, corpse_total}
use project_dawn_server.Items.{is_no_rent}
use project_dawn_server.Base.{refl, true, map, [], ◌+◌, ◌≡◌, ◌∷◌, String}
use project_dawn_server.Inventory.Strip.{
  clear_all, all_stacks, CorpseStack, in_bags, in_slots, worn_stacks, corpse_stacks, purge_no_rent,
}

-- The worn sword comes first, then the base slots, then what is in the pouch.
stripped :
    map (λ (s : CorpseStack). s.entry.item_path) (corpse_stacks pack)
    ≡ "sword" ∷ "pouch" ∷ "bread" ∷ "sword" ∷ "bread" ∷ []
unfolding corpse_stacks worn_stacks in_slots in_bags
stripped = refl

corpse_stacks-all_stacks_example :
    (corpse_total "bread" (corpse_stacks pack) ≡ count_of "bread" pack)
    × (total "bread" (all_stacks pack) ≡ count_of "bread" pack)
    × (count_of "bread" (clear_all pack) ≡ 0)
corpse_stacks-all_stacks_example = corpse_stacks-all_stacks "bread" pack

purge_no_rent-Parts_example :
    let (gone, after) = purge_no_rent stock pack in
    ((item : String) → count_of item after + total item gone ≡ count_of item pack)
    × ((item : String) → is_no_rent stock item ≡ true → count_of item after ≡ 0)
purge_no_rent-Parts_example = purge_no_rent-Parts stock pack
