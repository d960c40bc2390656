-- ===== src/Nebula/Traversal.antt =====
-- nebula_graph/core/algorithms.py: the breadth-first search.
pub mod Bound
pub mod Visits
use python_portfolio.Prelude.{
  ℕ, zero, suc, ◌+◌, Option, none, some, List, [], ◌∷◌, ◌++◌, arith, any, and_then, ltb,
  if◌then◌else◌, nat_eq, bytes_eq, string_eq,
}
use python_portfolio.Nebula.Primitives.{Edge}
use python_portfolio.Nebula.Storage.{GraphStorage, iter_out_edges}
use python_portfolio.Nebula.Index.{has_id}

-- A node with its depth.
abbrev pub Queue : Type 0
Queue = List (ℕ × ℕ)

-- The loop over the outgoing edges of a node, whose neighbours get the depth.
unfoldable pub visit : ℕ → List Edge → List ℕ → Queue → List ℕ × Queue
visit depth [] visited queue = (visited, queue)
visit depth (e ∷ es) visited queue =
    let old = has_id visited e.dst in
    visit depth es (if old then visited else visited ++ (e.dst ∷ []))
      (if old then queue else queue ++ ((e.dst, depth) ∷ []))

abbrev pub expand : GraphStorage → ℕ → ℕ → ℕ → List ℕ → Queue → List ℕ × Queue
expand g max_depth current_id depth visited queue =
    if ltb depth max_depth
    then visit (depth + 1) (iter_out_edges current_id none g) visited queue
    else (visited, queue)

-- `while queue`, for at most the given number of rounds, as all that the generator yields; `none` says
-- that these were too few.
unfoldable pub bfs_loop : ℕ → GraphStorage → ℕ → List ℕ → Queue → Option Queue
unfolding visit
bfs_loop fuel g max_depth visited [] = some []
bfs_loop zero g max_depth visited (p ∷ queue) = none
bfs_loop (suc fuel) g max_depth visited ((current_id, depth) ∷ queue) =
    let next = expand g max_depth current_id depth visited queue in
    and_then (bfs_loop fuel g max_depth next.0 next.1) (λ ys. some ((current_id, depth) ∷ ys))

unfoldable pub bfs : ℕ → GraphStorage → ℕ → ℕ → Option Queue
unfolding bfs_loop
bfs fuel g start_node_id max_depth =
    bfs_loop fuel g max_depth (start_node_id ∷ []) ((start_node_id, 0) ∷ [])
