-- ===== src/Pytree/Walk/Tests.antt =====
-- Runs of the searches on a small tree, and the theorems on them applied to it.
use mathlib.Core.List.{Perm}
use maia.Base.{ℕ, ◌≡◌, refl, List, [], ◌∷◌, some, map, if◌then◌else◌, text, text_eq}
use maia.Pytree.Node.{Node, get_name}
use maia.Pytree.Walk.Options.{forward}
use maia.Pytree.Walk.NodesIterator.{dfs, bfs, range_dfs, range_bfs, dfs_below}
use maia.Pytree.Walk.ShallowIterator.{
  shallow_dfs, shallow_bfs, shallow_range_dfs, shallow_range_bfs,
}
use maia.Pytree.Walk.Places.{places, select}
use maia.Pytree.Walk.DfsLaws.{dfs-select, chosen, range_dfs-select}
use maia.Pytree.Walk.ShallowLaws.{topmost, shallow_dfs-select}
use maia.Pytree.Walk.BfsLaws.{bfs-perm-dfs, range_bfs-perm-range_dfs}
use maia.Pytree.Walk.ShallowBfsLaws.{shallow_bfs-perm}
use maia.Pytree.Sample.{left, tree, is_zone, levels}

dfs_run : map get_name (dfs forward is_zone tree) ≡ text "ZoneA" ∷ text "ZoneB" ∷ text "ZoneC" ∷ []
unfolding dfs text_eq dfs_below
dfs_run = refl

shallow_run : map get_name (shallow_dfs forward is_zone tree) ≡ text "ZoneA" ∷ text "ZoneC" ∷ []
unfolding shallow_dfs text_eq maia.Pytree.Walk.ShallowIterator.shallow_dfs_below
shallow_run = refl

dfs-select_example : dfs forward is_zone tree ≡ select (λ t. is_zone t.1) (places forward tree)
dfs-select_example = dfs-select forward is_zone tree

range_dfs-select_example :
    range_dfs levels forward is_zone tree
    ≡ select (chosen levels forward is_zone) (places forward tree)
range_dfs-select_example = range_dfs-select levels forward is_zone tree

shallow_dfs-select_example :
    shallow_dfs forward is_zone tree ≡ select (topmost forward is_zone) (places forward tree)
shallow_dfs-select_example = shallow_dfs-select forward is_zone tree

bfs-perm-dfs_example :
    (r : List (Node ℕ)) × (bfs forward is_zone tree ≡ some r) × Perm r (dfs forward is_zone tree)
bfs-perm-dfs_example = bfs-perm-dfs forward is_zone tree

range_bfs-perm-range_dfs_example :
    (r : List (Node ℕ)) × (range_bfs levels forward is_zone tree ≡ some r)
    × Perm r (range_dfs levels forward is_zone tree)
range_bfs-perm-range_dfs_example = range_bfs-perm-range_dfs levels forward is_zone tree

shallow_bfs-perm_example :
    (r : List (Node ℕ)) × (shallow_bfs forward is_zone left ≡ some r)
    × Perm r (if is_zone left then left ∷ [] else shallow_dfs forward is_zone left)
shallow_bfs-perm_example = shallow_bfs-perm forward is_zone left
