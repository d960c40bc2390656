-- ===== src/Nebula/Traversal/Bound.antt =====
-- nebula_graph/core/algorithms.py: how many nodes the breadth-first search may still visit.
use python_portfolio.Prelude.{
  ℕ, suc, ◌+◌, ◌≤◌, ◌<◌, ◌≡◌, refl, ap, ◌∙◌, inl, inr, true, false, ◌||◌, none, List, [], ◌∷◌, ◌++◌,
  arith, length, length-append, All, any, ltb, if◌then◌else◌, nat_beq_iff, Bool-cases, ◌==◌, nat_eq,
  bytes_eq, string_eq,
}
use python_portfolio.Nebula.Primitives.{Edge}
use python_portfolio.Nebula.Storage.{GraphStorage, iter_out_edges}
use python_portfolio.Nebula.Index.{has_id}
use python_portfolio.Nebula.Traversal.{Queue, visit, expand}

pub visit-old :
    (depth : ℕ) (e : Edge) (es : List Edge) (v : List ℕ) (q : Queue)
    → has_id v e.dst ≡ true
    → visit depth (e ∷ es) v q ≡ visit depth es v q
unfolding visit
visit-old depth e es v q h =
    ap
      (λ b.
        visit depth es (if b then v else v ++ (e.dst ∷ []))
          (if b then q else q ++ ((e.dst, depth) ∷ [])))
      h

pub visit-new :
    (depth : ℕ) (e : Edge) (es : List Edge) (v : List ℕ) (q : Queue)
    → has_id v e.dst ≡ false
    → visit depth (e ∷ es) v q ≡ visit depth es (v ++ (e.dst ∷ [])) (q ++ ((e.dst, depth) ∷ []))
unfolding visit
visit-new depth e es v q h =
    ap
      (λ b.
        visit depth es (if b then v else v ++ (e.dst ∷ []))
          (if b then q else q ++ ((e.dst, depth) ∷ [])))
      h

-- Nodes that may still be visited.
pub count : List ℕ → List ℕ → ℕ
count [] v = 0
count (u ∷ us) v = let rest = count us v in if has_id v u then rest else rest + 1

pub has_id-append : (v : List ℕ) (x u : ℕ) → has_id (v ++ (x ∷ [])) u ≡ (has_id v u || x == u)
has_id-append [] x u = ground arith
has_id-append (i ∷ v) x u = ground (arith, has_id-append v x u)

count-append : (us v : List ℕ) (x : ℕ) → count us (v ++ (x ∷ [])) ≤ count us v
unfolding count
count-append [] v x = omega arith
count-append (u ∷ us) v x = ground (arith, count-append us v x, has_id-append v x u)

count-new :
    (us v : List ℕ) (x : ℕ)
    → has_id us x ≡ true
    → has_id v x ≡ false
    → count us (v ++ (x ∷ [])) < count us v
unfolding count
count-new [] v x h n = ground (arith, h)
count-new (u ∷ us) v x h n = elim (Bool-cases (u == x)) [
  | inl same ↦
      let e : u ≡ x = (nat_beq_iff u x).0 same in
      let hit : has_id (v ++ (x ∷ [])) u ≡ true = has_id-append v x u ∙ ground (arith, e) in
      let miss : has_id v u ≡ false = ap (has_id v) e ∙ n in
      rw (hit, miss) (omega (arith, count-append us v x))
  | inr apart ↦
      ground (arith, count-new us v x (rw (apart, any) at h) n, has_id-append v x u, apart)
]

-- All targets of the edges are in the list `us`.
abbrev pub InList : List ℕ → Edge → Type 0
InList us e = has_id us e.dst ≡ true

visit-count :
    (us : List ℕ) (depth : ℕ) (es : List Edge) (v : List ℕ) (q : Queue)
    → All (InList us) es
    → let next = visit depth es v q in length next.1 + count us next.0 ≤ length q + count us v
unfolding visit
visit-count us depth [] v q h = omega arith
visit-count us depth (e ∷ es) v q (h, hs) = elim (Bool-cases (has_id v e.dst)) [
  | inl old ↦
      let same = visit-old depth e es v q old in
      omega (
        arith,
        visit-count us depth es v q hs,
        ap (λ (r : List ℕ × Queue). length r.1 + count us r.0) same,
      )
  | inr new ↦
      let same = visit-new depth e es v q new in
      omega (
        arith,
        visit-count us depth es (v ++ (e.dst ∷ [])) (q ++ ((e.dst, depth) ∷ [])) hs,
        ap (λ (r : List ℕ × Queue). length r.1 + count us r.0) same,
        length-append q ((e.dst, depth) ∷ []),
        count-new us v e.dst h new,
      )
]

pub expand-count :
    (us : List ℕ) (g : GraphStorage) (m i d : ℕ) (v : List ℕ) (q : Queue)
    → All (InList us) (iter_out_edges i none g)
    → let next = expand g m i d v q in length next.1 + count us next.0 ≤ length q + count us v
expand-count us g m i d v q h = elim (Bool-cases (ltb d m)) [
  | inl deeper ↦ omega (
    arith,
    visit-count us (d + 1) (iter_out_edges i none g) v q h,
    ap
        (λ b.
          length (if b then visit (d + 1) (iter_out_edges i none g) v q else (v, q)).1
          + count us (if b then visit (d + 1) (iter_out_edges i none g) v q else (v, q)).0)
        deeper,
  )
  | inr deep ↦ omega (
    arith,
    ap
        (λ b.
          length (if b then visit (d + 1) (iter_out_edges i none g) v q else (v, q)).1
          + count us (if b then visit (d + 1) (iter_out_edges i none g) v q else (v, q)).0)
        deep,
  )
]

-- The targets of the edges.
pub dsts : List Edge → List ℕ
dsts [] = []
dsts (e ∷ es) = e.dst ∷ dsts es

All-more : (x : ℕ) (us : List ℕ) (es : List Edge) → All (InList us) es → All (InList (x ∷ us)) es
All-more x us [] h = tt
All-more x us (e ∷ es) (h, hs) = (ground (arith, h), All-more x us es hs)

pub dsts-All : (es : List Edge) → All (InList (dsts es)) es
unfolding dsts
dsts-All [] = tt
dsts-All (e ∷ es) = (ground arith, All-more e.dst (dsts es) es (dsts-All es))

pub count-le : (us v : List ℕ) → count us v ≤ length us
unfolding count
count-le [] v = omega arith
count-le (u ∷ us) v = ground (arith, count-le us v)

pub length-dsts : (es : List Edge) → length (dsts es) ≡ length es
unfolding dsts
length-dsts [] = refl
length-dsts (e ∷ es) = ap suc (length-dsts es)
