-- ===== src/Nebula/Traversal/Visits.antt =====
-- nebula_graph/core/algorithms.py: the rounds of the breadth-first search and the nodes it yields.
use python_portfolio.Prelude.{
  ℕ, zero, suc, ◌+◌, ◌≤◌, ◌<◌, ◌≡◌, refl, sym, ap, ◌∙◌, inl, inr, false, ◌&&◌, none, some, List, [],
  ◌∷◌, ◌++◌, append_assoc, arith, length, All, All-append, ltb, Bool-cases, ◌==◌, nat_eq, bytes_eq,
  string_eq,
}
use mathlib.Core.Path.{subst}
use python_portfolio.Nebula.Primitives.{Edge}
use python_portfolio.Nebula.Storage.{GraphStorage, iter_out_edges, matches}
use python_portfolio.Nebula.Storage.Insertion.{Represents, iter_out_edges-Represents}
use python_portfolio.Nebula.Storage.Adjacency.{All-filter}
use python_portfolio.Nebula.Index.{has_id}
use python_portfolio.Nebula.Traversal.{Queue, visit, expand, bfs_loop, bfs}
use python_portfolio.Nebula.Traversal.Bound.{
  visit-old, visit-new, expand-count, dsts, dsts-All, count-le, length-dsts, count, InList,
}

-- No identifier stands twice.
abbrev pub Distinct : List ℕ → Type 0
Distinct [] = Unit
Distinct (i ∷ is) = All (λ j. (j == i) ≡ false) is × Distinct is

abbrev pub ids : Queue → List ℕ
ids [] = []
ids ((i, d) ∷ q) = i ∷ ids q

ids-append : (q r : Queue) → ids (q ++ r) ≡ ids q ++ ids r
ids-append [] r = refl
ids-append (p ∷ q) r = ap (λ l. p.0 ∷ l) (ids-append q r)

Distinct-append : (v : List ℕ) (x : ℕ) → Distinct v → has_id v x ≡ false → Distinct (v ++ (x ∷ []))
Distinct-append [] x d h = (tt, tt)
Distinct-append (i ∷ v) x d h = (
  All-append (λ j. (j == i) ≡ false) v (x ∷ []) d.0 (ground (arith, h), tt),
  Distinct-append v x d.1 (ground (arith, h)),
)

-- The nodes that are done, then those in the queue, are the nodes visited, in order; and no depth exceeds
-- the bound.
record IsOrdered (max_depth : ℕ) (done visited : List ℕ) (queue : Queue) : Type 0 where
  order : visited ≡ done ++ ids queue
  distinct : Distinct visited
  depths : All (λ (p : ℕ × ℕ). p.1 ≤ max_depth) queue

visit-IsOrdered :
    (max_depth depth : ℕ) (es : List Edge) (done visited : List ℕ) (queue : Queue)
    → depth ≤ max_depth
    → IsOrdered max_depth done visited queue
    → IsOrdered max_depth done (visit depth es visited queue).0 (visit depth es visited queue).1
unfolding visit
visit-IsOrdered m depth [] done v q h o = o
visit-IsOrdered m depth (e ∷ es) done v q h o = elim (Bool-cases (has_id v e.dst)) [
  | inl old ↦
      subst (λ (r : List ℕ × Queue). IsOrdered m done r.0 r.1) (sym (visit-old depth e es v q old))
        (visit-IsOrdered m depth es done v q h o)
  | inr new ↦
      subst (λ (r : List ℕ × Queue). IsOrdered m done r.0 r.1) (sym (visit-new depth e es v q new))
        (visit-IsOrdered m depth es done (v ++ (e.dst ∷ [])) (q ++ ((e.dst, depth) ∷ [])) h
          (record {
            order =
                ap (λ l. l ++ (e.dst ∷ [])) o.order
                ∙ append_assoc done (ids q) (e.dst ∷ [])
                ∙ ap (λ l. done ++ l) (sym (ids-append q ((e.dst, depth) ∷ [])));
            distinct = Distinct-append v e.dst o.distinct new;
            depths = All-append (λ (p : ℕ × ℕ). p.1 ≤ m) q ((e.dst, depth) ∷ []) o.depths (h, tt);
          }))
]

expand-IsOrdered :
    (g : GraphStorage) (m i d : ℕ) (done visited : List ℕ) (queue : Queue)
    → IsOrdered m done visited queue
    → IsOrdered m done (expand g m i d visited queue).0 (expand g m i d visited queue).1
expand-IsOrdered g m i d done v q o = elim (Bool-cases (ltb d m)) [
  | inl deeper ↦
      rw deeper
        (visit-IsOrdered m (d + 1) (iter_out_edges i none g) done v q (ground (arith, deeper)) o)
  | inr deep ↦ rw deep o
]

pop-IsOrdered :
    (m i d : ℕ) (done visited : List ℕ) (queue : Queue)
    → IsOrdered m done visited ((i, d) ∷ queue)
    → IsOrdered m (done ++ (i ∷ [])) visited queue
pop-IsOrdered m i d done v q o = record {
  order = o.order ∙ sym (append_assoc done (i ∷ []) (ids q));
  distinct = o.distinct;
  depths = o.depths.1;
}

-- What the loop yields, with what was done before it, are the nodes visited in the end, each once.
IsResult : ℕ → List ℕ → Queue → Type 0
IsResult m done ys = Distinct (done ++ ids ys) × All (λ (p : ℕ × ℕ). p.1 ≤ m) ys

bfs_loop-IsResult :
    (fuel : ℕ) (g : GraphStorage) (m : ℕ) (us done v : List ℕ) (q : Queue)
    → ((i : ℕ) → All (InList us) (iter_out_edges i none g))
    → IsOrdered m done v q
    → length q + count us v ≤ fuel
    → (ys : Queue) × (bfs_loop fuel g m v q ≡ some ys) × IsResult m done ys
unfolding bfs_loop IsResult
bfs_loop-IsResult fuel g m us done v [] closed o enough =
    ([], refl, (subst Distinct o.order o.distinct, tt))
bfs_loop-IsResult zero g m us done v (p ∷ q) closed o enough = absurd (omega arith)
bfs_loop-IsResult (suc fuel) g m us done v ((i, d) ∷ q) closed o enough =
    let next = expand g m i d v q in
    let o' = expand-IsOrdered g m i d (done ++ (i ∷ [])) v q (pop-IsOrdered m i d done v q o) in
    let (ys, e, r) =
      bfs_loop-IsResult fuel g m us (done ++ (i ∷ [])) next.0 next.1 closed o'
        (omega (arith, enough, expand-count us g m i d v q (closed i))) in
    (
      (i, d) ∷ ys,
      rw e,
      (subst Distinct (append_assoc done (i ∷ []) (ids ys)) r.0, (o.depths.0, r.1)),
    )

-- The search over a store ends, with a round for each edge and one more, and yields no node twice and no
-- node deeper than the bound.
pub bfs_visits_once :
    (fuel start max_depth : ℕ) (g : GraphStorage) (es : List Edge)
    → Represents g es
    → length es < fuel
    → (ys : Queue) × (bfs fuel g start max_depth ≡ some ys)
      × Distinct (ids ys)
      × All (λ (p : ℕ × ℕ). p.1 ≤ max_depth) ys
unfolding bfs IsResult
bfs_visits_once fuel start m g es r enough =
    let closed : (i : ℕ) → All (InList (dsts es)) (iter_out_edges i none g) = λ i.
      subst (All (InList (dsts es))) (sym (iter_out_edges-Represents i none g es r))
        (All-filter (InList (dsts es)) (λ e. (e.src == i) && matches none e) es (dsts-All es)) in
    let (ys, e, once) =
      bfs_loop-IsResult fuel g m (dsts es) [] (start ∷ []) ((start, 0) ∷ []) closed
        (record { order = refl; distinct = (tt, tt); depths = (omega arith, tt) })
        (omega (arith, enough, count-le (dsts es) (start ∷ []), length-dsts es)) in
    (ys, e, once.0, once.1)
