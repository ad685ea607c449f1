-- ===== src/Generators/Tests.antt =====
-- The generators' theorems at small inputs, and runs on a list graph.
use rustworkx.Base.{ℕ, ◌≡◌, refl, true, false, none, some, [], ◌∷◌, replicate}
use rustworkx.Petgraph.Create.{Create, list_graph}
use rustworkx.Generators.Build.{ok, invalid_input, for_each, add_both, add_nodes, add_edge}
use rustworkx.Generators.Build.Spec.{Draws}
use rustworkx.Generators.Path.{path_graph, cycle_graph, star_graph, complete_graph}
use rustworkx.Generators.Path.Line.{PathEdge, path_graph-Draws}
use rustworkx.Generators.Path.Cycle.{CycleEdge, cycle_graph-Draws}
use rustworkx.Generators.Path.Star.{StarEdge, star_graph-Draws}
use rustworkx.Generators.Path.Complete.{CompleteEdge, complete_graph-Draws}
use rustworkx.Generators.Build.{panic}
use rustworkx.Generators.Mesh.{
  lollipop_graph, barbell_graph, left_mesh, right_mesh, mesh_edges, attach_path, pair_round,
}
use rustworkx.Generators.Mesh.Lollipop.{LollipopEdge, lollipop_graph-Draws}
use rustworkx.Generators.Mesh.Barbell.{BarbellEdge, barbell_graph-Draws}
use rustworkx.Base.{◌-◌, ◌/◌}
use rustworkx.Generators.Web.{dorogovtsev_goltsev_mendes_graph}
use rustworkx.Generators.Web.Growth.{web}
use rustworkx.Generators.Web.Laws.{IsWeb, dorogovtsev_goltsev_mendes_graph-IsWeb}
use rustworkx.Generators.Tree.{full_rary_tree_graph, plant, tree_loop, child_round}
use rustworkx.Generators.Rings.{petersen_graph, petersen_edges}
use rustworkx.Generators.Rings.Laws.{PetersenEdge, petersen_graph-Draws}
use rustworkx.Base.{◌+◌, ◌*◌, ◌^◌, ◌<◌, ◌≤◌, ◌⊎◌, inl, arith, Bool}
use rustworkx.Generators.Build.{collect_nodes}
use rustworkx.Generators.Grid.{grid_graph, fill_weights}
use rustworkx.Generators.Grid.Cells.{GridEdge}
use rustworkx.Generators.Grid.Laws.{grid_graph-Draws}

abbrev digraph : Create ℕ ℕ
digraph = list_graph ℕ ℕ true

path_run :
    path_graph digraph none (some (0 ∷ 1 ∷ 2 ∷ [])) 4 9 true
    ≡ ok (record {
      nodes = 0 ∷ 1 ∷ 2 ∷ [];
      edges = (0, 1, 9) ∷ (1, 0, 9) ∷ (1, 2, 9) ∷ (2, 1, 9) ∷ [];
    })
unfolding path_graph for_each add_both add_nodes add_edge
path_run = refl

cycle_run :
    cycle_graph digraph (some 3) none 4 9 false
    ≡ ok (record { nodes = 4 ∷ 4 ∷ 4 ∷ []; edges = (0, 1, 9) ∷ (1, 2, 9) ∷ (2, 0, 9) ∷ [] })
unfolding cycle_graph for_each add_both add_nodes add_edge
cycle_run = refl

star_missing : star_graph digraph none none 4 9 true false ≡ invalid_input
unfolding star_graph for_each add_both add_nodes add_edge
star_missing = refl

grid_run :
    grid_graph digraph 4 9 true (some 2) (some 2) (some (7 ∷ [])) false
    ≡ ok (record {
      nodes = 7 ∷ 4 ∷ 4 ∷ 4 ∷ [];
      edges = (0, 2, 9) ∷ (0, 1, 9) ∷ (1, 3, 9) ∷ (2, 3, 9) ∷ [];
    })
unfolding grid_graph fill_weights for_each add_both add_nodes add_edge
grid_run = refl

path_graph-Draws_example :
    Draws digraph 9
      (0 ∷ 1 ∷ 2 ∷ [])
      (PathEdge true 3)
      4
      (path_graph digraph none (some (0 ∷ 1 ∷ 2 ∷ [])) 4 9 true)
path_graph-Draws_example = path_graph-Draws digraph none (some (0 ∷ 1 ∷ 2 ∷ [])) 4 9 true 3 refl

cycle_graph-Draws_example :
    Draws digraph 9
      (replicate 5 4)
      (CycleEdge false 5)
      5
      (cycle_graph digraph (some 5) none 4 9 false)
cycle_graph-Draws_example = cycle_graph-Draws digraph (some 5) none 4 9 false 5 refl

star_graph-Draws_example :
    Draws digraph 9
      (replicate 4 4)
      (StarEdge true false 4)
      3
      (star_graph digraph (some 4) none 4 9 true false)
star_graph-Draws_example = star_graph-Draws digraph (some 4) none 4 9 true false 4 refl

complete_graph-Draws_example :
    Draws digraph 9
      (replicate 4 4)
      (CompleteEdge true 4)
      12
      (complete_graph digraph (some 4) none 4 9)
complete_graph-Draws_example = complete_graph-Draws digraph (some 4) none 4 9 4 refl

few_cells : 4 * (2 * 3) < 2 ^ 64
few_cells = omega arith

-- 2 ^ 64 cells wrap to none, or panic.
grid_wraps :
    grid_graph digraph 4 9 false (some (2 ^ 32)) (some (2 ^ 32)) none false
    ≡ ok (record { nodes = []; edges = [] })
unfolding grid_graph
grid_wraps = refl

grid_panics : grid_graph digraph 4 9 true (some (2 ^ 32)) (some (2 ^ 32)) none false ≡ panic
unfolding grid_graph
grid_panics = refl

-- Weights that are more than the cells of no rows are not ignored.
grid_row_run :
    grid_graph digraph 4 9 true (some 0) (some 5) (some (1 ∷ 2 ∷ [])) false
    ≡ ok (record { nodes = 1 ∷ 2 ∷ []; edges = (0, 1, 9) ∷ [] })
unfolding grid_graph fill_weights for_each add_both add_nodes add_edge
grid_row_run = refl

grid_graph-Draws_example :
    Draws digraph 9
      (7 ∷ replicate 5 4)
      (GridEdge true 2 3)
      14
      (grid_graph digraph 4 9 true (some 2) (some 3) (some (7 ∷ [])) true)
grid_graph-Draws_example =
    grid_graph-Draws digraph 4 9 true true (some 2) (some 3) (some (7 ∷ [])) refl few_cells

petersen_run :
    petersen_graph digraph 4 9 true 3 1
    ≡ ok (record {
      nodes = replicate 6 4;
      edges =
          (0, 1, 9)
          ∷ (1, 2, 9)
          ∷ (2, 0, 9)
          ∷ (3, 4, 9)
          ∷ (4, 5, 9)
          ∷ (5, 3, 9)
          ∷ (3, 0, 9)
          ∷ (4, 1, 9)
          ∷ (5, 2, 9)
          ∷ [];
    })
unfolding petersen_graph petersen_edges for_each collect_nodes add_edge
petersen_run = refl

small_step : 2 * 2 < 2 ^ 64
small_step = omega arith

small_ring : 3 * 5 < 2 ^ 64
small_ring = omega arith

-- 2 ^ 64 wraps to 0, which passes the guard: every star node is joined to the one 2 ^ 63 % 5 on.
petersen_wraps :
    petersen_graph digraph 4 9 false 5 (2 ^ 63)
    ≡ ok (record {
      nodes = replicate 10 4;
      edges =
          (0, 3, 9)
          ∷ (1, 4, 9)
          ∷ (2, 0, 9)
          ∷ (3, 1, 9)
          ∷ (4, 2, 9)
          ∷ (5, 6, 9)
          ∷ (6, 7, 9)
          ∷ (7, 8, 9)
          ∷ (8, 9, 9)
          ∷ (9, 5, 9)
          ∷ (5, 0, 9)
          ∷ (6, 1, 9)
          ∷ (7, 2, 9)
          ∷ (8, 3, 9)
          ∷ (9, 4, 9)
          ∷ [];
    })
unfolding petersen_graph petersen_edges for_each collect_nodes add_edge
petersen_wraps = refl

petersen_panics : petersen_graph digraph 4 9 true 5 (2 ^ 63) ≡ panic
unfolding petersen_graph
petersen_panics = refl

petersen_graph-Draws_example :
    ((5 < 3) ⊎ (◌≡◌ {A = ℕ} 2 0) ⊎ (5 ≤ 2 * 2))
      × (petersen_graph digraph 4 9 true 5 2 ≡ invalid_input)
    ⊎ (3 ≤ 5)
      × (0 < 2)
      × (2 * 2 < 5)
      × Draws digraph 9
          (replicate (2 * 5) 4)
          (PetersenEdge 5 2)
          (3 * 5)
          (petersen_graph digraph 4 9 true 5 2)
petersen_graph-Draws_example = petersen_graph-Draws digraph 4 9 true 5 2 small_step small_ring

barbell_run :
    barbell_graph digraph 4 9 (some 2) (some 1) none none
    ≡ ok (record {
      nodes = replicate 5 4;
      edges = (0, 1, 9) ∷ (1, 2, 9) ∷ (2, 3, 9) ∷ (3, 4, 9) ∷ [];
    })
unfolding barbell_graph left_mesh right_mesh mesh_edges attach_path pair_round for_each
    collect_nodes add_edge
barbell_run = refl

small_mesh : 3 * (3 - 1) < 2 ^ 64
small_mesh = omega arith

some_nodes : 0 < 3
some_nodes = omega arith

-- A lollipop of three mesh nodes with weights and two path nodes.
lollipop_graph-Draws_example :
    (◌≡◌ {A = ℕ} 3 0)
      × (◌≡◌ {A = Bool} false true)
      × (lollipop_graph digraph 4 9 false none (some 2) (some (1 ∷ 2 ∷ 3 ∷ [])) none ≡ panic)
    ⊎ ((0 < 3) ⊎ (◌≡◌ {A = Bool} false false))
      × Draws digraph 9
          (1 ∷ 2 ∷ 3 ∷ 4 ∷ 4 ∷ [])
          (LollipopEdge 3 2)
          (3 * (3 - 1) / 2 + 2)
          (lollipop_graph digraph 4 9 false none (some 2) (some (1 ∷ 2 ∷ 3 ∷ [])) none)
lollipop_graph-Draws_example =
    lollipop_graph-Draws digraph 4 9 none (some 2) (some (1 ∷ 2 ∷ 3 ∷ [])) none false 3 refl
      small_mesh (inl some_nodes)

barbell_graph-Draws_example :
    (◌≡◌ {A = ℕ} 4 0) × (barbell_graph digraph 4 9 (some 4) (some 3) none none ≡ panic)
    ⊎ (0 < 4)
      × Draws digraph 9
          (replicate 11 4)
          (BarbellEdge 4 3)
          (2 * (4 * (4 - 1) / 2) + 3 + 1)
          (barbell_graph digraph 4 9 (some 4) (some 3) none none)
barbell_graph-Draws_example = barbell_graph-Draws digraph 4 9 (some 4) (some 3) none none 4 refl

tree_run :
    full_rary_tree_graph digraph 9 2 4 (some (7 ∷ [])) 4
    ≡ ok (record { nodes = 7 ∷ 4 ∷ 4 ∷ 4 ∷ []; edges = (0, 1, 9) ∷ (0, 2, 9) ∷ (1, 3, 9) ∷ [] })
unfolding full_rary_tree_graph plant tree_loop child_round for_each collect_nodes add_edge
tree_run = refl

few_rounds : 2 ≤ 40
few_rounds = omega arith

-- The run in the documentation of the function.
web_run :
    (web 2 (2, (0, 1) ∷ [])).1
    ≡ (0, 1) ∷ (0, 2) ∷ (1, 2) ∷ (0, 3) ∷ (1, 3) ∷ (0, 4) ∷ (2, 4) ∷ (1, 5) ∷ (2, 5) ∷ []
web_run = refl

-- From 41 rounds on the number of edges does not fit.
web_panics : dorogovtsev_goltsev_mendes_graph digraph 4 9 true 41 ≡ panic
unfolding dorogovtsev_goltsev_mendes_graph
web_panics = refl

dorogovtsev_goltsev_mendes_graph-IsWeb_example :
    IsWeb digraph 4 9 2 (dorogovtsev_goltsev_mendes_graph digraph 4 9 false 2)
dorogovtsev_goltsev_mendes_graph-IsWeb_example =
    dorogovtsev_goltsev_mendes_graph-IsWeb digraph 4 9 false 2 few_rounds
