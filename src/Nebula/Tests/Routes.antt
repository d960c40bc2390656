-- ===== src/Nebula/Tests/Routes.antt =====
-- nebula_graph/core/algorithms.py: the search by Dijkstra on concrete stores.
use python_portfolio.Prelude.{
  ℕ, zero, suc, ◌≡◌, refl, ap, none, some, [], ◌∷◌, ◌++◌, arith, and_then, ℤ, pos, negsuc, ◌+ℤ◌,
  nat_eq, bytes_eq, string_eq,
}
use python_portfolio.Prelude.Dict
use python_portfolio.Prelude.Dict.{Dict}
use python_portfolio.Ouroboros.Text.{codes}
use python_portfolio.Nebula.Primitives.{property_eq, Edge}
use python_portfolio.Nebula.Storage.{GraphStorage, empty, iter_out_edges}
use python_portfolio.Nebula.Weights.{ltb_ℤ}
use python_portfolio.Nebula.Paths
use python_portfolio.Nebula.Paths.Answers
use python_portfolio.Nebula.Paths.Walks
use python_portfolio.Nebula.Tests.{knows, friends, friends-Represents}

-- 1 → 2 costs 5, 1 → 3 and 3 → 2 cost 1 and 2.
abbrev road : ℕ → ℕ → ℕ → ℤ → Edge
road id src dst weight = record {
  id = id;
  src = src;
  dst = dst;
  rel_type = codes "ROAD";
  weight = weight;
  properties = [];
}

abbrev roads : GraphStorage
roads = record (empty 10) {
  out_edges =
      (1, road 11 1 2 (pos 5) ∷ road 12 1 3 (pos 1) ∷ []) ∷ (3, road 13 3 2 (pos 2) ∷ []) ∷ [];
}

cheapest_path :
    (Paths.find_shortest_path_dijkstra 9 roads 1 2 ≡ some (Paths.path (12 ∷ 13 ∷ [])))
    × (Paths.find_shortest_path_dijkstra 9 roads 2 1 ≡ some Paths.no_path)
unfolding Paths.find_shortest_path_dijkstra Paths.dijkstra_loop Paths.search_round Paths.heappop
    Paths.least Paths.precedes ltb_ℤ ◌+ℤ◌ Paths.relax Paths.relax_edge Paths.path_back
    iter_out_edges Dict.get Dict.put
cheapest_path = (refl, refl)

dijkstra_path_cheapest_example :
    (r : Paths.Ending) × (Paths.find_shortest_path_dijkstra 3 friends 2 1 ≡ some r)
    × Answers.IsAnswer (λ e. Walks.Among e (knows ∷ [])) 2 1 r
dijkstra_path_cheapest_example =
    Walks.dijkstra_path_cheapest 3 2 1 friends (knows ∷ []) friends-Represents (refl, tt)
      (omega arith)

-- 0 → 1 and 1 → 2 cost 1, 2 → 1 costs -5, 2 → 3 costs 10.
abbrev negative_roads : GraphStorage
negative_roads = record (empty 10) {
  out_edges =
      (0, road 21 0 1 (pos 1) ∷ [])
      ∷ (1, road 22 1 2 (pos 1) ∷ [])
      ∷ (2, road 23 2 1 (negsuc 4) ∷ road 24 2 3 (pos 10) ∷ [])
      ∷ [];
}

-- With a circle of negative weight the walk back does not come to the start.
walk_back_lost : Paths.find_shortest_path_dijkstra 9 negative_roads 0 3 ≡ some Paths.lost
unfolding Paths.find_shortest_path_dijkstra Paths.dijkstra_loop Paths.search_round Paths.heappop
    Paths.least Paths.precedes ltb_ℤ ◌+ℤ◌ Paths.relax Paths.relax_edge Paths.path_back
    iter_out_edges Dict.get Dict.put
walk_back_lost = refl

-- The edges that the search has kept by then: the walk back goes round between 1 and 2 for ever.
abbrev circle : Dict ℕ Edge
circle = (1, road 23 2 1 (negsuc 4)) ∷ (2, road 22 1 2 (pos 1)) ∷ (3, road 24 2 3 (pos 10)) ∷ []

between_1_and_2 :
    (fuel : ℕ) → (Paths.path_back fuel circle 0 1 ≡ none) × (Paths.path_back fuel circle 0 2 ≡ none)
unfolding Paths.path_back Dict.get
between_1_and_2 zero = (refl, refl)
between_1_and_2 (suc fuel) =
    let ih = between_1_and_2 fuel in
    (
      ap (λ o. and_then o (λ ids. some (ids ++ (23 ∷ [])))) ih.1,
      ap (λ o. and_then o (λ ids. some (ids ++ (22 ∷ [])))) ih.0,
    )

walk_back_endless : (fuel : ℕ) → Paths.path_back fuel circle 0 3 ≡ none
unfolding Paths.path_back Dict.get
walk_back_endless zero = refl
walk_back_endless (suc fuel) =
    ap (λ o. and_then o (λ ids. some (ids ++ (24 ∷ [])))) (between_1_and_2 fuel).1
