-- ===== src/Nebula/Paths/Ways.antt =====
-- nebula_graph/core/algorithms.py: the walk back over the edges that the search by Dijkstra has kept.
use python_portfolio.Prelude.{
  ℕ, zero, suc, ◌<◌, ◌≡◌, refl, sym, ap, ◌∙◌, inl, inr, true, false, Option, some, List, [], ◌∷◌,
  ◌++◌, map, arith, All, All-append, ℤ, pos, ◌+ℤ◌, nat_beq, nat_beq_iff, nat_beq_refl, Bool-cases,
  ◌==◌, nat_eq, bytes_eq, string_eq,
}
use mathlib.Core.Path.{subst}
use python_portfolio.Prelude.Dict
use python_portfolio.Prelude.Dict.{Dict}
use python_portfolio.Nebula.Weights.{◌≤ℤ◌, leb_trans, leb-plus, plus-leb}
use python_portfolio.Nebula.Primitives.{Edge}
use python_portfolio.Nebula.Index.{has_id}
use python_portfolio.Nebula.Traversal.Bound.{has_id-append}
use python_portfolio.Nebula.Paths.{path_back}

-- The edges lead from one node to the other.
abbrev pub Joins : ℕ → List Edge → ℕ → Type 0
Joins a [] b = a ≡ b
Joins a (e ∷ es) b = (e.src ≡ a) × Joins e.dst es b

Joins-append :
    (a b : ℕ) (es : List Edge) (e : Edge)
    → Joins a es b
    → e.src ≡ b
    → Joins a (es ++ (e ∷ [])) e.dst
Joins-append a b [] e j h = (h ∙ sym j, refl)
Joins-append a b (f ∷ es) e j h = (j.0, Joins-append f.dst b es e j.1 h)

pub ids_of : List Edge → List ℕ
ids_of es = map (λ e. e.id) es

ids_of-append : (es : List Edge) (e : Edge) → ids_of (es ++ (e ∷ [])) ≡ ids_of es ++ (e.id ∷ [])
unfolding ids_of
ids_of-append [] e = refl
ids_of-append (f ∷ es) e = ap (λ l. f.id ∷ l) (ids_of-append es e)

-- The cost of a walk on from a cost, added up as the search does.
unfoldable pub cost_from : ℤ → List Edge → ℤ
cost_from c [] = c
cost_from c (e ∷ es) = cost_from (c +ℤ e.weight) es

cost_from-append :
    (c : ℤ) (es : List Edge) (e : Edge) → cost_from c (es ++ (e ∷ [])) ≡ cost_from c es +ℤ e.weight
unfolding cost_from
cost_from-append c [] e = refl
cost_from-append c (f ∷ es) e = cost_from-append (c +ℤ f.weight) es e

pub visited_apart :
    (v : List ℕ) (x y : ℕ) → has_id v x ≡ true → has_id v y ≡ false → (y == x) ≡ false
visited_apart v x y old new = elim (Bool-cases (y == x)) [
  | inl same ↦ absurd (cc (old, new, (nat_beq_iff y x).0 same))
  | inr apart ↦ apart
]

-- The edges satisfy P, and the walk back ends at the start.
module _ (P : Edge → Type 0) (start : ℕ) where
  -- A walk back of at most n edges that cost at most k, over nodes that have been visited.
  pub data Settled (b : Dict ℕ Edge) (v : List ℕ) : ℕ → ℕ → ℤ → Type 0 where
    at_start : (n : ℕ) (k : ℤ) → pos 0 ≤ℤ k → Settled b v n start k
    over :
        (n : ℕ) (e : Edge) (j k : ℤ)
        → P e
        → Dict.get b e.dst ≡ some e
        → has_id v e.dst ≡ true
        → Settled b v n e.src j
        → (j +ℤ e.weight) ≤ℤ k
        → Settled b v (suc n) e.dst k

  -- A node that is the start, or that an edge from such a node leads to.
  pub data Known (b : Dict ℕ Edge) (v : List ℕ) (n : ℕ) : ℕ → ℤ → Type 0 where
    source : (k : ℤ) → pos 0 ≤ℤ k → Known b v n start k
    by_edge :
        (e : Edge) (j k : ℤ)
        → P e
        → Dict.get b e.dst ≡ some e
        → Settled b v n e.src j
        → (j +ℤ e.weight) ≤ℤ k
        → Known b v n e.dst k

  pub Settled-le :
      (b : Dict ℕ Edge) (v : List ℕ) (n x : ℕ) (k c : ℤ)
      → k ≤ℤ c
      → Settled b v n x k
      → Settled b v n x c
  Settled-le b v n x k c l (at_start _ _ h) = at_start n c (leb_trans (pos 0) k c h l)
  Settled-le b v n x k c l (over m e j _ p g old w h) =
      over m e j c p g old w (leb_trans (j +ℤ e.weight) k c h l)

  pub Settled-put :
      (b : Dict ℕ Edge) (v : List ℕ) (n x : ℕ) (k : ℤ) (y : ℕ) (f : Edge)
      → has_id v y ≡ false
      → Settled b v n x k
      → Settled (Dict.put b y f) v n x k
  Settled-put b v n x k y f new (at_start _ _ h) = at_start n k h
  Settled-put b v n x k y f new (over m e j _ p g old w h) =
      over m e j k p (Dict.get-put b y f e.dst ∙ rw (visited_apart v e.dst y old new) g) old
        (Settled-put b v m e.src j y f new w) h

  pub Settled-suc :
      (b : Dict ℕ Edge) (v : List ℕ) (n x : ℕ) (k : ℤ) → Settled b v n x k → Settled b v (suc n) x k
  Settled-suc b v n x k (at_start _ _ h) = at_start (suc n) k h
  Settled-suc b v n x k (over m e j _ p g old w h) =
      over n e j k p g old (Settled-suc b v m e.src j w) h

  pub Settled-visit :
      (b : Dict ℕ Edge) (v : List ℕ) (n x : ℕ) (k : ℤ) (u : ℕ)
      → Settled b v n x k
      → Settled b (v ++ (u ∷ [])) n x k
  Settled-visit b v n x k u (at_start _ _ h) = at_start n k h
  Settled-visit b v n x k u (over m e j _ p g old w h) =
      over m e j k p g (has_id-append v u e.dst ∙ rw old refl) (Settled-visit b v m e.src j u w) h

  pub Known-visit :
      (b : Dict ℕ Edge) (v : List ℕ) (n x : ℕ) (k : ℤ) (u : ℕ)
      → Known b v n x k
      → Known b (v ++ (u ∷ [])) (suc n) x k
  Known-visit b v n x k u (source _ h) = source k h
  Known-visit b v n x k u (by_edge e j _ p g w h) =
      by_edge e j k p g (Settled-suc b (v ++ (u ∷ [])) n e.src j (Settled-visit b v n e.src j u w))
        h

  pub Known-put :
      (b : Dict ℕ Edge) (v : List ℕ) (n x : ℕ) (k : ℤ) (y : ℕ) (f : Edge)
      → has_id v y ≡ false
      → (y == x) ≡ false
      → Known b v n x k
      → Known (Dict.put b y f) v n x k
  Known-put b v n x k y f new apart (source _ h) = source k h
  Known-put b v n x k y f new apart (by_edge e j _ p g w h) =
      by_edge e j k p (Dict.get-put b y f e.dst ∙ rw apart g) (Settled-put b v n e.src j y f new w)
        h

  -- A known node is settled as soon as it is visited.
  pub Known-Settled :
      (b : Dict ℕ Edge) (v : List ℕ) (n x : ℕ) (k : ℤ)
      → Known b v n x k
      → Settled b (v ++ (x ∷ [])) (suc n) x k
  Known-Settled b v n x k (source _ h) = at_start (suc n) k h
  Known-Settled b v n x k (by_edge e j _ p g w h) =
      over n e j k p g (has_id-append v e.dst e.dst ∙ ground arith)
        (Settled-visit b v n e.src j e.dst w) h

  -- What the walk back returns: the identifiers of edges that lead to the node and cost at most k.
  abbrev pub IsWay : Option (List ℕ) → ℕ → ℤ → Type 0
  IsWay r x k =
      (es : List Edge) × (r ≡ some (ids_of es))
      × All P es
      × Joins start es x
      × (cost_from (pos 0) es ≤ℤ k)

  module _ (light : (e : Edge) → P e → pos 0 ≤ℤ e.weight) where
    Settled-nonnegative :
        (b : Dict ℕ Edge) (v : List ℕ) (n x : ℕ) (k : ℤ) → Settled b v n x k → pos 0 ≤ℤ k
    Settled-nonnegative b v n x k (at_start _ _ h) = h
    Settled-nonnegative b v n x k (over m e j _ p g old w h) =
        leb_trans (pos 0) j k (Settled-nonnegative b v m e.src j w)
          (leb_trans j (j +ℤ e.weight) k (leb-plus j e.weight (light e p)) h)

    IsWay-back :
        (fuel : ℕ) (b : Dict ℕ Edge) (e : Edge) (j k : ℤ)
        → P e
        → Dict.get b e.dst ≡ some e
        → pos 0 ≤ℤ j
        → IsWay (path_back fuel b start e.src) e.src j
        → (j +ℤ e.weight) ≤ℤ k
        → IsWay (path_back (suc fuel) b start e.dst) e.dst k
    unfolding path_back ids_of cost_from
    IsWay-back fuel b e j k p g nonnegative w h = elim (Bool-cases (nat_beq e.dst start)) [
      | inl there ↦ (
        [],
        rw there refl,
        tt,
        sym ((nat_beq_iff e.dst start).0 there),
        leb_trans (pos 0) j k nonnegative
            (leb_trans j (j +ℤ e.weight) k (leb-plus j e.weight (light e p)) h),
      )
      | inr away ↦
          let (es, r, ps, joins, cost) = w in
          (
            es ++ (e ∷ []),
            rw (away, g, r) (ap some (sym (ids_of-append es e))),
            All-append P es (e ∷ []) ps (p, tt),
            Joins-append start e.src es e joins refl,
            subst (λ t. t ≤ℤ k) (sym (cost_from-append (pos 0) es e))
                (leb_trans (cost_from (pos 0) es +ℤ e.weight) (j +ℤ e.weight) k
                  (plus-leb (cost_from (pos 0) es) j e.weight cost) h),
          )
    ]

    path_back-Settled :
        (fuel n x : ℕ) (k : ℤ) (b : Dict ℕ Edge) (v : List ℕ)
        → n < fuel
        → Settled b v n x k
        → IsWay (path_back fuel b start x) x k
    unfolding path_back ids_of cost_from
    path_back-Settled zero n x k b v enough w = absurd (omega (arith, enough))
    path_back-Settled (suc fuel) n x k b v enough (at_start _ _ h) =
        ([], rw (nat_beq_refl start) refl, tt, refl, h)
    path_back-Settled (suc fuel) n x k b v enough (over m e j _ p g old w h) =
        IsWay-back fuel b e j k p g (Settled-nonnegative b v m e.src j w)
          (path_back-Settled fuel m e.src j b v (omega (arith, enough)) w) h

    -- The walk back from a known node succeeds.
    pub path_back-Known :
        (fuel n x : ℕ) (k : ℤ) (b : Dict ℕ Edge) (v : List ℕ)
        → n < fuel
        → Known b v n x k
        → IsWay (path_back (suc fuel) b start x) x k
    unfolding path_back ids_of cost_from
    path_back-Known fuel n x k b v enough (source _ h) =
        ([], rw (nat_beq_refl start) refl, tt, refl, h)
    path_back-Known fuel n x k b v enough (by_edge e j _ p g w h) =
        IsWay-back fuel b e j k p g (Settled-nonnegative b v n e.src j w)
          (path_back-Settled fuel n e.src j b v enough w) h
