-- ===== src/Lib.antt =====
-- maia works on CFD meshes stored as CGNS trees. This library models the part of it that needs no
-- numerical library: the tree library, the numbering of structured blocks, and the helpers.
--
-- Parts, and the files of the repository that they model:
--   Base            tests, lists, texts as code points, and Python's exceptions as results
--   Pytree.Node     a node `[name, value, children, label]` of maia/pytree/node/access.py
--   Pytree.Access   the checked setters, creation and copies of maia/pytree/node/{access,check,create}.py
--   Pytree.Walk     the searches of maia/pytree/walk: NodesIterator, ShallowIterator and NodeParser
--                   are the classes of _node_parsers.py; Walker and Finder the classes NodesWalker
--                   and NodeWalker; Chains and ChainWalker the chains of nodes_walkers.py and
--                   node_walkers.py; Api the functions of walkers_api.py, which build a walker and
--                   call it; Predicate what predicate.py makes of names, labels and arrays
--   Pytree.Remove   maia/pytree/walk/remove_nodes.py
--   Pytree.Update   update_child of maia/pytree/node/create.py, and maia/pytree/node/name_utils.py
--   Pytree.Paths    maia/pytree/path_utils.py
--   Pytree.ByPath   the functions on paths of maia/pytree/walk/generate.py
--   Graph           maia/pytree/graph: the search on a stack and its visitors (Stack, Visitors) of
--                   algo.py, build.py (Build), and cgns.py (Cgns, Zip); is_same_tree and
--                   diff_tree of maia/pytree/compare.py (Compare, Diff)
--   Numbering       maia/utils/numbering/s_numbering_funcs.py (Block, Structured), range_to_slab.py
--                   (Slabs)
--                   and maia/io/hdf/hdf_dataspace.py (Dataspace)
--   Utils           maia/utils/py_utils.py, maia/pytree/sids/utils.py, maia/pytree/algo_utils.py and
--                   the distributions of maia/utils/parallel/utils.py
--   Sids            maia/pytree/sids/elements_utils.py (Elements); maia/pytree/sids/node_inspect.py,
--                   one file for each class but Zone, which has two, and Groups for the merging in
--                   Tree; maia/pytree/node/presets.py (Building, Presets, ZonePresets). Arrays is
--                   what these use of numpy
--   Partitioning    karmarkar_karp and homogeneous_repart of
--                   maia/factory/partitioning/load_balancing; the cut trees of split_S beside it
--                   (CutTree, from balancing_cut_tree.py, SplitBlock, from split_cut_tree.py, and
--                   PointRanges, from part_zone.py)
-- The files named Laws state what the definitions beside them do, and the files named Tests run them.
--
-- A search is a list of what the iterator yields. The nodes are values, so that a search cannot
-- change the tree, and a function that changes a node gives the changed node back. A function that
-- may raise gives a Result; a setter that changes its argument before it raises gives both.
-- The depth-first searches are recursive on the tree. The queue loops of the breadth-first searches
-- run on fuel, the number of nodes of the tree, of which each turn of the loop uses one; the
-- theorems on them say that they end.
-- The depth-first search of a graph on its stack runs on fuel too, two turns for each node; a visitor
-- is four functions on a state of its own, and Traversal has the recursion it is compared with.
-- karmarkar_karp runs on fuel, the number of the numbers, of which each merging of two uses one.
-- An insertion in a cut tree runs on fuel too, as many turns as the budget of the tree, which grows
-- with the leaves and with the levels.
-- A predicate is any test of a node; a value is of a type that is a parameter, since values are
-- numpy arrays, which the tree library passes on, and which Sids reads through the interface Arrays.
-- Numbers are natural numbers without a bound, as Python's, but for the numbering of a structured block
-- and the faces of a structured zone, which compute in the integers of the size array: these are the
-- parameter Integers, exact as long as a result is not negative and fits. Exact is the numbering
-- without a bound, which the theorems compare with. The array functions are modelled on one index.
-- `fnmatch`, what numpy says of two arrays, and the floats of the splitting are parameters.
--
-- Not modelled: the graphs stored by adjacency, the functions that are generated, the code on numpy
-- arrays, on MPI, on files and on the ParaDiGM library, and the C++ code.
pub mod Base
pub mod Pytree
pub mod Graph
pub mod Numbering
pub mod Utils
pub mod Sids
pub mod Partitioning
