-- ===== src/Lib.antt =====
-- rustworkx: graphs in Rust with a Python interface, on top of petgraph.
--
-- Parts and files. A program builds graphs through two doors, and both write to petgraph.
-- * The Python class `PyDiGraph` (src/digraph.rs): a petgraph `StableGraph` with flags
--   (`check_cycle`, `multigraph`, `node_removed`) and attributes. DiGraph.antt has its state, a
--   monad of methods that change the state and may raise, and the path by which an edge is added:
--   `add_edge`, `_add_edge` (here `add_edge_checked`), `is_cycle_check_required`,
--   `add_edge_no_cycle_check`, `set_check_cycle`, with `is_directed_acyclic_graph` of
--   src/dag_algo/mod.rs. DiGraph/Methods.antt and DiGraph/Rewire.antt have the other methods under
--   their names in the source (`set_item` and `del_item` are `__setitem__` and `__delitem__`,
--   `contains_node` is `has_node`), DiGraph/Keyed.antt has `remove_node_retain_edges_by_key`,
--   DiGraph/Merge.antt `merge_nodes`, DiGraph/Turn.antt `reverse`, `make_symmetric` and the
--   degrees, DiGraph/Mirror.antt `is_symmetric`, and DiGraph/Listing.antt the lists of edges.
--   DiGraph/Table.antt describes an insertion as a write to a table of edges; DiGraph/Cycles.antt
--   and DiGraph/SelfLoop.antt study the cycle check; DiGraph/Guard.antt,
--   DiGraph/Loops.antt, DiGraph/Methods/ and DiGraph/Turn/Keeps.antt carry its invariant through
--   the methods; DiGraph/Steps.antt has the calls as a step relation; DiGraph/Simple.antt is on parallel edges.
-- * The generators of rustworkx-core/src/generators/: functions that are generic in the graph
--   they build. Generators/Build.antt has what they share, with `get_num_nodes` of utils.rs;
--   Generators/Path.antt has path_graph.rs, cycle_graph.rs, star_graph.rs and complete_graph.rs;
--   Generators/Grid.antt has grid_graph.rs; Generators/Mesh.antt has lollipop_graph.rs and
--   barbell_graph.rs; Generators/Rings.antt has petersen_graph.rs; Generators/Tree.antt has
--   full_rary_tree_graph.rs; Generators/Web.antt has dorogovtsev_goltsev_mendes_graph.rs.
--   Generators/Build/Spec.antt says what a
--   generator promises (`Draws`): node weights, directed edges as a relation, their number, and
--   the weight of every edge.
-- * `TopologicalSorter` (src/toposort.rs) in Toposort.antt: the nodes that are ready, a count for
--   each node some of whose predecessors are done, the state of each node where arguments are
--   checked, and two totals. `mark_done` is `done`; `release` is the body of the loop over
--   successors in `done_single`. Toposort/Tracks.antt and Toposort/Keeps.antt have the invariant,
--   Toposort/Run.antt the calls as a step relation, Toposort/Progress.antt what a user relies on.
-- * Components in Connectivity.antt: `bfs_undirected`, `connected_components` and
--   `number_connected_components` of rustworkx-core/src/connectivity/conn_components.rs (the loops
--   of the last two are `components_from` and `number_from`), `isolates` of isolates.rs, and
--   `node_connected_component`, `is_connected` and `is_weakly_connected` of
--   src/connectivity/mod.rs. Connectivity/Worklist.antt and Connectivity/Component.antt study the
--   search, Connectivity/Parts.antt and Connectivity/Classes.antt all components,
--   Connectivity/Whole.antt those of one node, Connectivity/Hits.antt and Connectivity/Count.antt
--   their number.
-- * petgraph is not part of the repository. Petgraph/Create.antt, Petgraph/Stable.antt and
--   Petgraph/View.antt are interfaces with its documented behaviour: a graph to build, the graph
--   of `PyDiGraph`, and the graphs that an algorithm reads (`View` where edges have a direction,
--   `Adjacency` where that does not matter). Each has an instance (`list_graph`,
--   `finite` in Petgraph/Finite/, `list_view`), so that the laws can hold and runs can be evaluated.
-- * Base/ has lists, ranges and Boolean tests over native numbers.
--
-- Bounds and fuel. Indices and counts are natural numbers. Where a generator multiplies or
-- subtracts what its caller gave it (grid_graph.rs, petersen_graph.rs, lollipop_graph.rs,
-- dorogovtsev_goltsev_mendes_graph.rs), `add`, `mul` and `sub` of Generators/Build.antt are
-- those of a 64-bit `usize`, and the argument `overflow_checks` tells the two kinds of build apart:
-- one panics and one wraps. barbell_graph.rs is modelled in a build with overflow checks. Elsewhere
-- `usize` is unbounded, since the numbers count nodes or edges that the call puts in memory. The
-- loops of the generators run over ranges. Three loops run on fuel: `grow`, the node-adding loop of
-- `extend_from_edge_list`, which gets one round more than the index it grows to, and `tree_loop` of
-- full_rary_tree_graph.rs, which gets one round for each node, since no node is queued twice; to
-- run out of fuel counts as a panic there. The search of `bfs_undirected` gets one round more than
-- there are nodes, since each node but the first is queued when it is discovered; its `none` is the
-- end of the fuel.
--
-- Left out. Python objects are values of an abstract type, and the closures that make default
-- weights return the same value at each call. The scratch space `cycle_state` of the searches and
-- all input and output are left out. `PyGraph`, the other algorithms of rustworkx-core (shortest
-- paths, traversal, colouring) and the Python wrappers are not modelled; random
-- generators, layouts and file formats rest on other crates.
pub mod Base
pub mod Petgraph
pub mod Generators
pub mod DiGraph
pub mod Toposort
pub mod Connectivity
