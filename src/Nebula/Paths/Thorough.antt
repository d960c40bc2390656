-- ===== src/Nebula/Paths/Thorough.antt =====
-- nebula_graph/core/algorithms.py: why the search by Dijkstra misses no path, and none that is cheaper.
use python_portfolio.Prelude.{
  ℕ, ◌≡◌, refl, sym, ap, ◌∙◌, ◌⊎◌, inl, inr, true, false, Option, none, some, List, [], ◌∷◌, ◌++◌,
  All, any, ℤ, pos, ◌+ℤ◌, nat_beq_iff, nat_beq_refl, Bool-cases, ◌==◌, nat_eq, bytes_eq, string_eq,
}
use mathlib.Core.Path.{subst}
use python_portfolio.Prelude.Dict
use python_portfolio.Prelude.Dict.{Dict}
use python_portfolio.Nebula.Weights.{◌≤ℤ◌, leb_refl, leb_trans, not_ltb→leb, leb-plus, plus-leb}
use python_portfolio.Nebula.Primitives.{Edge}
use python_portfolio.Nebula.Index.{has_id}
use python_portfolio.Nebula.Paths.{Entries, precedes, least, Search, improves, relax_edge, relax}
use python_portfolio.Nebula.Paths.Rounds.{length-relax_edge}
use python_portfolio.Nebula.Paths.Ways.{Joins, cost_from, visited_apart}
use python_portfolio.Nebula.Paths.Sound.{
  Within, Within-le, Within-put, Sound, improved_unvisited, relax_edge-Sound,
}

-- The queue has the entry.
pub data Held (q : ℤ × ℕ) : Entries → Type 0 where
  at_front : (qs : Entries) → Held q (q ∷ qs)
  further : (p : ℤ × ℕ) (qs : Entries) → Held q qs → Held q (p ∷ qs)

pub Held-All : (Q : ℤ × ℕ → Type 0) (q : ℤ × ℕ) (qs : Entries) → All Q qs → Held q qs → Q q
Held-All Q q _ hs (at_front qs) = hs.0
Held-All Q q _ hs (further p qs h) = Held-All Q q qs hs.1 h

Held-append : (q : ℤ × ℕ) (qs rs : Entries) → Held q qs → Held q (qs ++ rs)
Held-append q _ rs (at_front qs) = at_front (qs ++ rs)
Held-append q _ rs (further p qs h) = further p (qs ++ rs) (Held-append q qs rs h)

Held-last : (q : ℤ × ℕ) (qs : Entries) → Held q (qs ++ (q ∷ []))
Held-last q [] = at_front []
Held-last q (p ∷ qs) = further p (qs ++ (q ∷ [])) (Held-last q qs)

first_or : (q p : ℤ × ℕ) (rs : Entries) → Held q (p ∷ rs) → (q ≡ p) ⊎ Held q rs
first_or q _ _ (at_front rs) = inl refl
first_or q _ _ (further p rs h) = inr h

second_or : (q p r : ℤ × ℕ) (qs : Entries) → Held q (p ∷ r ∷ qs) → (q ≡ r) ⊎ Held q (p ∷ qs)
second_or q p r qs h = elim (first_or q p (r ∷ qs) h) [
  | inl e ↦ inr (subst (λ t. Held q (t ∷ qs)) e (at_front qs))
  | inr h' ↦ elim (first_or q r qs h') [ inl e ↦ inl e | inr h'' ↦ inr (further p qs h'') ]
]

left_behind : (q m b : ℤ × ℕ) (rest : Entries) → (q ≡ m) ⊎ Held q rest → (q ≡ m) ⊎ Held q (b ∷ rest)
left_behind q m b rest (inl e) = inl e
left_behind q m b rest (inr h) = inr (further b rest h)

put_back : (q m b : ℤ × ℕ) (rest : Entries) → q ≡ b → (q ≡ m) ⊎ Held q (b ∷ rest)
put_back q m b rest e = inr (subst (λ t. Held q (t ∷ rest)) e (at_front rest))

-- An entry is the one popped or is left.
pub Held-least :
    (q p : ℤ × ℕ) (qs : Entries) → Held q (p ∷ qs) → (q ≡ (least p qs).0) ⊎ Held q (least p qs).1
unfolding least
Held-least q p [] h = first_or q p [] h
Held-least q p (r ∷ qs) h = elim (Bool-cases (precedes r p)) [
  | inl smaller ↦
      rw (smaller, any)
        (elim (first_or q p (r ∷ qs) h) [
          | inl e ↦ put_back q (least r qs).0 p (least r qs).1 e
          | inr h' ↦ left_behind q (least r qs).0 p (least r qs).1 (Held-least q r qs h')
        ])
  | inr larger ↦
      rw (larger, any)
        (elim (second_or q p r qs h) [
          | inl e ↦ put_back q (least p qs).0 r (least p qs).1 e
          | inr h' ↦ left_behind q (least p qs).0 r (least p qs).1 (Held-least q p qs h')
        ])
]

-- A node that is not improved is within the cost.
not_improved-Within :
    (costs : Dict ℕ ℤ) (n : ℤ) (x : ℕ) (o : Option ℤ)
    → Dict.get costs x ≡ o
    → improves n o ≡ false
    → Within costs n x
not_improved-Within costs n x none e h = absurd (cc h)
not_improved-Within costs n x (some old) e h = (old, e, not_ltb→leb n old h)

module _ (P : Edge → Type 0) (start target : ℕ) where
  -- Every node with a cost is in the queue until it is visited, and the edges out of the nodes `closed`
  -- have been taken into account.
  pub record Thorough (closed : List ℕ) (s : Search) : Type 0 where
    pub begins : Within s.costs (pos 0) start
    pub pending :
        (x : ℕ) (k : ℤ)
        → Dict.get s.costs x ≡ some k
        → has_id s.visited x ≡ false
        → Held (k, x) s.pq
    pub relaxed :
        (e : Edge) (k : ℤ)
        → P e
        → has_id closed e.src ≡ true
        → Dict.get s.costs e.src ≡ some k
        → Within s.costs (k +ℤ e.weight) e.dst
    pub unreached : has_id s.visited target ≡ false

  module _ (light : (e : Edge) → P e → pos 0 ≤ℤ e.weight) where
    -- What the relaxation of an edge does to the costs.
    relax_edge-costs :
        (c : ℤ) (e : Edge) (s : Search)
        → P e
        → Sound P start c s
        → ((x : ℕ)
            → has_id s.visited x ≡ true
            → Dict.get (relax_edge c e s).costs x ≡ Dict.get s.costs x)
          × ((k : ℤ) (x : ℕ) → Within s.costs k x → Within (relax_edge c e s).costs k x)
          × Within (relax_edge c e s).costs (c +ℤ e.weight) e.dst
    unfolding relax_edge
    relax_edge-costs c e s p h =
        let n : ℤ = c +ℤ e.weight in
        elim (Bool-cases (improves n (Dict.get s.costs e.dst))) [
          | inl better ↦
              let new = improved_unvisited P start light c e s p h better in
              rw (better, any)
                (
                  λ x old.
                      Dict.get-put s.costs e.dst n x
                      ∙ rw (visited_apart s.visited x e.dst old new) refl,
                  λ k x. Within-put s.costs e.dst n k x better,
                  (
                    n,
                    Dict.get-put s.costs e.dst n e.dst ∙ rw (nat_beq_refl e.dst) refl,
                    leb_refl n,
                  ),
                )
          | inr worse ↦
              rw (worse, any)
                (
                  λ x old. refl,
                  λ k x w. w,
                  not_improved-Within s.costs n e.dst (Dict.get s.costs e.dst) refl worse,
                )
        ]

    relax_edge-pending :
        (c : ℤ) (e : Edge) (s : Search) (x : ℕ) (k : ℤ)
        → ((y : ℕ) (j : ℤ)
            → Dict.get s.costs y ≡ some j
            → has_id s.visited y ≡ false
            → Held (j, y) s.pq)
        → Dict.get (relax_edge c e s).costs x ≡ some k
        → has_id s.visited x ≡ false
        → Held (k, x) (relax_edge c e s).pq
    unfolding relax_edge
    relax_edge-pending c e s x k t =
        let n : ℤ = c +ℤ e.weight in
        elim (Bool-cases (improves n (Dict.get s.costs e.dst))) [
          | inl better ↦
              rw (better, any)
                (λ g new. elim (Bool-cases (e.dst == x)) [
                  | inl same ↦
                      let cost : some n ≡ some k =
                        sym (Dict.get-put s.costs e.dst n x ∙ rw same refl) ∙ g in
                      let y : e.dst ≡ x = (nat_beq_iff e.dst x).0 same in
                      subst (λ (q : ℤ × ℕ). Held q (s.pq ++ ((n, e.dst) ∷ []))) (cc (cost, y))
                        (Held-last (n, e.dst) s.pq)
                  | inr apart ↦
                      Held-append (k, x) s.pq ((n, e.dst) ∷ [])
                        (t x k (sym (Dict.get-put s.costs e.dst n x ∙ rw apart refl) ∙ g) new)
                ])
          | inr worse ↦ rw (worse, any) (t x k)
        ]

    relax_edge-Thorough :
        (c : ℤ) (e : Edge) (closed : List ℕ) (s : Search)
        → P e
        → ((x : ℕ) → has_id closed x ≡ true → has_id s.visited x ≡ true)
        → Sound P start c s
        → Thorough closed s
        → Thorough closed (relax_edge c e s)
    relax_edge-Thorough c e closed s p inside h t =
        let costs = relax_edge-costs c e s p h in
        record {
          begins = costs.1 (pos 0) start t.begins;
          pending = λ x k g new.
              relax_edge-pending c e s x k t.pending g
                (sym (ap (λ v. has_id v x) (length-relax_edge c e s).1) ∙ new);
          relaxed = λ f k q old g.
              costs.1 (k +ℤ f.weight) f.dst
                (t.relaxed f k q old (sym (costs.0 f.src (inside f.src old)) ∙ g));
          unreached = ap (λ v. has_id v target) (length-relax_edge c e s).1 ∙ t.unreached;
        }

    -- What the relaxation of edges does to the costs, and that it keeps the rest.
    pub relax-Thorough :
        (c : ℤ) (es : List Edge) (closed : List ℕ) (s : Search)
        → All (λ e. P e × (has_id s.visited e.src ≡ true)) es
        → ((x : ℕ) → has_id closed x ≡ true → has_id s.visited x ≡ true)
        → Sound P start c s
        → Thorough closed s
        → Thorough closed (relax c es s)
          × ((x : ℕ)
              → has_id s.visited x ≡ true
              → Dict.get (relax c es s).costs x ≡ Dict.get s.costs x)
          × ((k : ℤ) (x : ℕ) → Within s.costs k x → Within (relax c es s).costs k x)
          × All (λ e. Within (relax c es s).costs (c +ℤ e.weight) e.dst) es
    unfolding relax
    relax-Thorough c [] closed s hs inside h t = (t, λ x old. refl, λ k x w. w, tt)
    relax-Thorough c (e ∷ es) closed s hs inside h t =
        let s' = relax_edge c e s in
        let same : s'.visited ≡ s.visited = (length-relax_edge c e s).1 in
        let costs = relax_edge-costs c e s hs.0.0 h in
        let rest =
          relax-Thorough c es closed s'
            (subst (λ v. All (λ f. P f × (has_id v f.src ≡ true)) es) (sym same) hs.1)
            (λ x old. ap (λ v. has_id v x) same ∙ inside x old)
            (relax_edge-Sound P start light c e s hs.0.0 hs.0.1 h)
            (relax_edge-Thorough c e closed s hs.0.0 inside h t) in
        (
          rest.0,
          λ x old. rest.1 x (ap (λ v. has_id v x) same ∙ old) ∙ costs.0 x old,
          λ k x w. rest.2 k x (costs.1 k x w),
          (rest.2 (c +ℤ e.weight) e.dst costs.2, rest.3),
        )

    cost_from-le : (c : ℤ) (ws : List Edge) → All P ws → c ≤ℤ cost_from c ws
    unfolding cost_from
    cost_from-le c [] ps = leb_refl c
    cost_from-le c (e ∷ ws) ps =
        leb_trans c (c +ℤ e.weight) (cost_from (c +ℤ e.weight) ws)
          (leb-plus c e.weight (light e ps.0)) (cost_from-le (c +ℤ e.weight) ws ps.1)

    -- No walk on from a node to the target is below the entries of the queue.
    walk_above :
        (d : ℤ) (s : Search) (ws : List Edge) (a : ℕ) (c : ℤ)
        → Thorough s.visited s
        → ((q : ℤ × ℕ) → Held q s.pq → d ≤ℤ q.0)
        → Within s.costs c a
        → All P ws
        → Joins a ws target
        → d ≤ℤ cost_from c ws
    unfolding cost_from
    walk_above d s [] a c t low (k, g, l) ps e =
        leb_trans d k c (low (k, a) (t.pending a k g (ap (has_id s.visited) e ∙ t.unreached))) l
    walk_above d s (e ∷ ws) a c t low (k, g, l) ps (src, j) =
        elim (Bool-cases (has_id s.visited a)) [
          | inl old ↦
              let next : Within s.costs (k +ℤ e.weight) e.dst =
                t.relaxed e k ps.0 (ap (has_id s.visited) src ∙ old)
                  (ap (Dict.get s.costs) src ∙ g) in
              walk_above d s ws e.dst (c +ℤ e.weight) t low
                (Within-le s.costs (k +ℤ e.weight) (c +ℤ e.weight) e.dst (plus-leb k c e.weight l)
                  next)
                ps.1 j
          | inr new ↦
              leb_trans d c (cost_from c (e ∷ ws))
                (leb_trans d k c (low (k, a) (t.pending a k g new)) l) (cost_from-le c (e ∷ ws) ps)
        ]

    -- No walk from the start to the target is below the entries of the queue.
    pub walks_above :
        (d : ℤ) (s : Search) (ws : List Edge)
        → Thorough s.visited s
        → ((q : ℤ × ℕ) → Held q s.pq → d ≤ℤ q.0)
        → All P ws
        → Joins start ws target
        → d ≤ℤ cost_from (pos 0) ws
    walks_above d s ws t low = walk_above d s ws start (pos 0) t low t.begins
