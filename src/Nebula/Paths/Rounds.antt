-- ===== src/Nebula/Paths/Rounds.antt =====
-- nebula_graph/core/algorithms.py: the rounds of the search by Dijkstra.
use python_portfolio.Prelude.{
  ℕ, zero, suc, ◌+◌, ◌≤◌, ◌<◌, ◌≡◌, refl, sym, ap, ◌∙◌, inl, inr, true, false, ◌&&◌, Option, none,
  some, List, [], ◌∷◌, ◌++◌, arith, length, length-append, any, ℤ, ◌+ℤ◌, if◌then◌else◌, nat_beq,
  nat_beq_iff, Bool-cases, ◌==◌, nat_eq, bytes_eq, string_eq,
}
use mathlib.Core.Path.{subst}
use python_portfolio.Prelude.Dict
use python_portfolio.Nebula.Primitives.{Edge}
use python_portfolio.Nebula.Storage.{GraphStorage, iter_out_edges, matches, filter}
use python_portfolio.Nebula.Storage.Insertion.{Represents, iter_out_edges-Represents}
use python_portfolio.Nebula.Index.{has_id}
use python_portfolio.Nebula.Traversal.Bound.{has_id-append}
use python_portfolio.Nebula.Paths.{
  Entries, precedes, least, heappop, Search, improves, relax_edge, relax, search_round, Ending,
  Turn, returned, again, go_on, dijkstra_loop, find_shortest_path_dijkstra,
}

length-least : (p : ℤ × ℕ) (qs : Entries) → length (least p qs).1 ≡ length qs
unfolding least
length-least p [] = refl
length-least p (q ∷ qs) = ap suc (length-least (if precedes q p then q else p) qs)

-- The relaxation of an edge adds at most one entry, and leaves the nodes visited as they are.
pub length-relax_edge :
    (c : ℤ) (e : Edge) (s : Search)
    → (length (relax_edge c e s).pq ≤ length s.pq + 1) × ((relax_edge c e s).visited ≡ s.visited)
unfolding relax_edge
length-relax_edge c e s = elim (Bool-cases (improves (c +ℤ e.weight) (Dict.get s.costs e.dst))) [
  | inl better ↦
      rw (better, any) (omega (arith, length-append s.pq ((c +ℤ e.weight, e.dst) ∷ [])), refl)
  | inr worse ↦ rw (worse, any) (omega arith, refl)
]

pub length-relax :
    (c : ℤ) (es : List Edge) (s : Search)
    → (length (relax c es s).pq ≤ length s.pq + length es) × ((relax c es s).visited ≡ s.visited)
unfolding relax
length-relax c [] s = (omega arith, refl)
length-relax c (e ∷ es) s =
    let one = length-relax_edge c e s in
    let rest = length-relax c es (relax_edge c e s) in
    (omega (arith, one.0, rest.0), rest.1 ∙ one.1)

-- The edges out of nodes not visited.
pub unvisited : List Edge → List ℕ → ℕ
unvisited [] v = 0
unvisited (e ∷ es) v = let rest = unvisited es v in if has_id v e.src then rest else rest + 1

unvisited-le : (es : List Edge) (v : List ℕ) → unvisited es v ≤ length es
unfolding unvisited
unvisited-le [] v = omega arith
unvisited-le (e ∷ es) v = ground (arith, unvisited-le es v)

-- A visit to a new node takes the edges out of it from the count.
unvisited-append :
    (es : List Edge) (v : List ℕ) (u : ℕ)
    → has_id v u ≡ false
    → unvisited es (v ++ (u ∷ [])) + length (filter (λ e. (e.src == u) && matches none e) es)
      ≤ unvisited es v
unfolding unvisited
unvisited-append [] v u n = omega arith
unvisited-append (e ∷ es) v u n = elim (Bool-cases (e.src == u)) [
  | inl same ↦
      let s : e.src ≡ u = (nat_beq_iff e.src u).0 same in
      let hit : has_id (v ++ (u ∷ [])) e.src ≡ true = has_id-append v u e.src ∙ ground (arith, s) in
      let miss : has_id v e.src ≡ false = ap (has_id v) s ∙ n in
      rw (hit, miss, same, any) (omega (arith, unvisited-append es v u n))
  | inr apart ↦
      let keep : has_id (v ++ (u ∷ [])) e.src ≡ has_id v e.src =
        has_id-append v u e.src ∙ ground (arith, apart) in
      rw (keep, apart, any) (ground (arith, unvisited-append es v u n))
]

length-iter_out_edges :
    (u : ℕ) (g : GraphStorage) (es : List Edge) (v : List ℕ)
    → Represents g es
    → has_id v u ≡ false
    → unvisited es (v ++ (u ∷ [])) + length (iter_out_edges u none g) ≤ unvisited es v
length-iter_out_edges u g es v r n =
    subst (λ out. unvisited es (v ++ (u ∷ [])) + length out ≤ unvisited es v)
      (sym (iter_out_edges-Represents u none g es r)) (unvisited-append es v u n)

-- What is left to do: the entries of the queue, and the edges that may still add one.
pub work : List Edge → Search → ℕ
work es s = length s.pq + unvisited es s.visited

-- A round ends the search or leaves less to do.
data Progress (es : List Edge) (s : Search) : Turn → Type 0 where
  ends : (r : Ending) → Progress es s (returned r)
  goes_on : (s' : Search) → work es s' < work es s → Progress es s (again s')

-- A round on the entry popped.
popped-Progress :
    (g : GraphStorage) (es : List Edge) (start_id target_id : ℕ) (c : ℤ) (u : ℕ) (rest : Entries)
    (s : Search)
    → Represents g es
    → length rest < length s.pq
    → Progress es s (search_round g start_id target_id s (some ((c, u), rest)))
unfolding search_round work
popped-Progress g es start_id target_id c u rest s r less =
    elim (Bool-cases (nat_beq u target_id)) [
      | inl there ↦ rw (there, any) (ends _)
      | inr not_there ↦ elim (Bool-cases (has_id s.visited u)) [
        | inl old ↦ rw (not_there, old, any) (goes_on _ (omega (arith, less)))
        | inr new ↦
            let s' : Search = record s { pq = rest; visited = s.visited ++ (u ∷ []) } in
            let added = length-relax c (iter_out_edges u none g) s' in
            let taken = length-iter_out_edges u g es s.visited r new in
            rw (not_there, new, any)
              (goes_on (relax c (iter_out_edges u none g) s')
                (omega (arith, less, added.0, taken, ap (unvisited es) added.1)))
      ]
    ]

heappop-Progress :
    (g : GraphStorage) (es : List Edge) (start_id target_id : ℕ) (pq : Entries) (s : Search)
    → Represents g es
    → s.pq ≡ pq
    → Progress es s (search_round g start_id target_id s (heappop pq))
unfolding search_round heappop
heappop-Progress g es start_id target_id [] s r e = ends _
heappop-Progress g es start_id target_id (p ∷ qs) s r e =
    let l = least p qs in
    popped-Progress g es start_id target_id l.0.0 l.0.1 l.1 s r
      (omega (arith, length-least p qs, ap length e))

go_on-Ends :
    (fuel : ℕ) (es : List Edge) (s : Search) (t : Turn) (loop : Search → Option Ending)
    → Progress es s t
    → work es s < suc fuel
    → ((s' : Search) → work es s' < fuel → (r : Ending) × (loop s' ≡ some r))
    → (r : Ending) × (go_on loop t ≡ some r)
go_on-Ends fuel es s t loop (ends r) enough h = (r, refl)
go_on-Ends fuel es s t loop (goes_on s' less) enough h = h s' (omega (arith, less, enough))

dijkstra_loop-Ends :
    (fuel start_id target_id : ℕ) (g : GraphStorage) (es : List Edge) (s : Search)
    → Represents g es
    → work es s < fuel
    → (r : Ending) × (dijkstra_loop fuel g start_id target_id s ≡ some r)
unfolding dijkstra_loop
dijkstra_loop-Ends zero start_id target_id g es s r enough = absurd (omega (arith, enough))
dijkstra_loop-Ends (suc fuel) start_id target_id g es s r enough =
    go_on-Ends fuel es s (search_round g start_id target_id s (heappop s.pq))
      (dijkstra_loop fuel g start_id target_id)
      (heappop-Progress g es start_id target_id s.pq s r refl) enough
      (λ s'. dijkstra_loop-Ends fuel start_id target_id g es s' r)

-- Over a store of the edges `es` the search ends within a round for each edge and two more.
pub dijkstra_ends :
    (fuel start_id target_id : ℕ) (g : GraphStorage) (es : List Edge)
    → Represents g es
    → length es + 1 < fuel
    → (r : Ending) × (find_shortest_path_dijkstra fuel g start_id target_id ≡ some r)
unfolding find_shortest_path_dijkstra work
dijkstra_ends fuel start_id target_id g es r enough =
    dijkstra_loop-Ends fuel start_id target_id g es _ r (omega (arith, enough, unvisited-le es []))
