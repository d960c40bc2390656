-- ===== src/Nebula/Paths.antt =====
-- nebula_graph/core/algorithms.py: find_shortest_path_dijkstra, with weights that are whole numbers.
pub mod Rounds
pub mod Ways
pub mod Sound
pub mod Thorough
pub mod Answers
pub mod Walks
use python_portfolio.Prelude.{
  ℕ, zero, suc, ◌+◌, ◌-◌, ◌≡◌, refl, sym, inl, inr, Bool, true, false, ◌&&◌, ◌||◌, Option, none,
  some, List, [], ◌∷◌, ◌++◌, arith, length, All, any, and_then, ℤ, pos, ◌+ℤ◌, int_beq, ltb,
  if◌then◌else◌, nat_beq, Bool-cases, nat_eq, bytes_eq, string_eq,
}
use mathlib.Core.Path.{subst}
use python_portfolio.Prelude.Dict
use python_portfolio.Prelude.Dict.{Dict}
use python_portfolio.Nebula.Weights.{ltb_ℤ}
use python_portfolio.Nebula.Primitives.{Edge}
use python_portfolio.Nebula.Storage.{GraphStorage, iter_out_edges}
use python_portfolio.Nebula.Index.{has_id}

-- The entries of the priority queue: a cost and a node.
abbrev pub Entries : Type 0
Entries = List (ℤ × ℕ)

-- The order of tuples.
unfoldable pub precedes : ℤ × ℕ → ℤ × ℕ → Bool
precedes a b = ltb_ℤ a.0 b.0 || (int_beq a.0 b.0 && ltb a.1 b.1)

-- The least of an entry and others, and what is left.
unfoldable pub least : ℤ × ℕ → Entries → (ℤ × ℕ) × Entries
unfolding precedes
least p [] = (p, [])
least p (q ∷ qs) =
    let smaller = precedes q p in
    let rest = least (if smaller then q else p) qs in (rest.0, (if smaller then p else q) ∷ rest.1)

-- heapq.heappop
unfoldable pub heappop : Entries → Option ((ℤ × ℕ) × Entries)
unfolding least
heappop [] = none
heappop (p ∷ qs) = some (least p qs)

pub record Search : Type 0 where
  pub pq : Entries
  pub costs : Dict ℕ ℤ
  pub backtrack : Dict ℕ Edge
  pub visited : List ℕ

-- new_cost < costs.get(v, float('inf'))
abbrev pub improves : ℤ → Option ℤ → Bool
improves new_cost none = true
improves new_cost (some old) = ltb_ℤ new_cost old

unfoldable pub relax_edge : ℤ → Edge → Search → Search
relax_edge current_cost edge s =
    let new_cost = current_cost +ℤ edge.weight in
    if improves new_cost (Dict.get s.costs edge.dst)
    then record s {
      costs = Dict.put s.costs edge.dst new_cost;
      backtrack = Dict.put s.backtrack edge.dst edge;
      pq = s.pq ++ ((new_cost, edge.dst) ∷ []);
    }
    else s

-- for edge in graph.iter_out_edges(u)
unfoldable pub relax : ℤ → List Edge → Search → Search
unfolding relax_edge
relax current_cost [] s = s
relax current_cost (edge ∷ edges) s = relax current_cost edges (relax_edge current_cost edge s)

-- The walk from `curr` back to the start, and the reversal: `none` stands for a missing key, and for a
-- walk of more than `fuel` edges.
unfoldable pub path_back : ℕ → Dict ℕ Edge → ℕ → ℕ → Option (List ℕ)
path_back zero backtrack start_id curr = none
path_back (suc fuel) backtrack start_id curr =
    if nat_beq curr start_id
    then some []
    else and_then (Dict.get backtrack curr) (λ edge.
      and_then (path_back fuel backtrack start_id edge.src) (λ ids. some (ids ++ (edge.id ∷ []))))

-- How the search ends: with a path, with None, or with a walk back that does not reach the start.
pub data Ending : Type 0 where
  path : List ℕ → Ending
  no_path : Ending
  lost : Ending

-- What a round of the loop comes to.
pub data Turn : Type 0 where
  returned : Ending → Turn
  again : Search → Turn

abbrev pub found : Option (List ℕ) → Ending
found none = lost
found (some ids) = path ids

-- The body of `while pq`, on what `heapq.heappop` gives.
unfoldable pub search_round : GraphStorage → ℕ → ℕ → Search → Option ((ℤ × ℕ) × Entries) → Turn
unfolding relax path_back
search_round g start_id target_id s none = returned no_path
search_round g start_id target_id s (some ((current_cost, u), rest)) =
    if nat_beq u target_id
    then returned (found (path_back (suc (suc (length s.visited))) s.backtrack start_id target_id))
    else if has_id s.visited u
    then again (record s { pq = rest })
    else again (
        relax current_cost (iter_out_edges u none g)
          (record s { pq = rest; visited = s.visited ++ (u ∷ []) }))

abbrev pub go_on : (Search → Option Ending) → Turn → Option Ending
go_on loop (returned r) = some r
go_on loop (again s) = loop s

-- `while pq`, for at most `fuel` rounds; `none` says that these were too few.
unfoldable pub dijkstra_loop : ℕ → GraphStorage → ℕ → ℕ → Search → Option Ending
unfolding heappop search_round
dijkstra_loop zero g start_id target_id s = none
dijkstra_loop (suc fuel) g start_id target_id s =
    go_on (dijkstra_loop fuel g start_id target_id)
      (search_round g start_id target_id s (heappop s.pq))

unfoldable pub find_shortest_path_dijkstra : ℕ → GraphStorage → ℕ → ℕ → Option Ending
unfolding dijkstra_loop
find_shortest_path_dijkstra fuel g start_id target_id =
    dijkstra_loop fuel g start_id target_id (record {
      pq = (pos 0, start_id) ∷ [];
      costs = (start_id, pos 0) ∷ [];
      backtrack = [];
      visited = [];
    })

-- No entry of a queue precedes `m`.
abbrev IsLeast : ℤ × ℕ → Entries → Type 0
IsLeast m qs = All (λ q. precedes q m ≡ false) qs

least-smaller :
    (p q : ℤ × ℕ) (qs : Entries) → precedes q p ≡ true → (least p (q ∷ qs)).0 ≡ (least q qs).0
unfolding least
least-smaller p q qs h = rw h refl

least-larger :
    (p q : ℤ × ℕ) (qs : Entries) → precedes q p ≡ false → (least p (q ∷ qs)).0 ≡ (least p qs).0
unfolding least
least-larger p q qs h = rw h refl

precedes_trans : (p q m : ℤ × ℕ) → precedes q p ≡ true → precedes q m ≡ false → precedes p m ≡ false
unfolding precedes ltb_ℤ
precedes_trans p q m a b = ground (arith, a, b)

precedes_trans_right :
    (p q m : ℤ × ℕ) → precedes q p ≡ false → precedes p m ≡ false → precedes q m ≡ false
unfolding precedes ltb_ℤ
precedes_trans_right p q m a b = ground (arith, a, b)

-- The entry that `heappop` takes is preceded by none.
least-IsLeast : (p : ℤ × ℕ) (qs : Entries) → IsLeast (least p qs).0 (p ∷ qs)
unfolding least precedes ltb_ℤ
least-IsLeast p [] = (ground arith, tt)
least-IsLeast p (q ∷ qs) = elim (Bool-cases (precedes q p)) [
  | inl smaller ↦
      let ih = least-IsLeast q qs in
      subst (λ m. IsLeast m (p ∷ q ∷ qs)) (sym (least-smaller p q qs smaller))
        (precedes_trans p q (least q qs).0 smaller ih.0, (ih.0, ih.1))
  | inr larger ↦
      let ih = least-IsLeast p qs in
      subst (λ m. IsLeast m (p ∷ q ∷ qs)) (sym (least-larger p q qs larger))
        (ih.0, (precedes_trans_right p q (least p qs).0 larger ih.0, ih.1))
]
