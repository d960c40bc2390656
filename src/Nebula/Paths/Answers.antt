-- ===== src/Nebula/Paths/Answers.antt =====
-- nebula_graph/core/algorithms.py: what the rounds of the search by Dijkstra come to.
use python_portfolio.Prelude.{
  ℕ, zero, suc, ◌≡◌, refl, sym, ap, ◌∙◌, ◌≢◌, ◌⊎◌, inl, inr, true, false, ◌||◌, Option, none, some,
  List, [], ◌∷◌, ◌++◌, arith, length, All, any, ℤ, pos, ◌+ℤ◌, nat_beq, nat_beq_iff, Bool-cases,
  ◌==◌, nat_eq, bytes_eq, string_eq,
}
use mathlib.Core.Path.{subst}
use python_portfolio.Nebula.Weights.{◌≤ℤ◌, leb_trans, plus-leb, plus_one}
use python_portfolio.Prelude.Dict
use python_portfolio.Nebula.Primitives.{Edge}
use python_portfolio.Nebula.Storage.{GraphStorage, iter_out_edges}
use python_portfolio.Nebula.Index.{has_id}
use python_portfolio.Nebula.Traversal.Bound.{has_id-append}
use python_portfolio.Nebula.Paths.{
  Entries, least, least-IsLeast, heappop, Search, relax, search_round, Ending, path, no_path, lost,
  Turn, returned, again, go_on, found, dijkstra_loop,
}
use python_portfolio.Nebula.Paths.Rounds.{length-relax}
use python_portfolio.Nebula.Paths.Ways.{Joins, ids_of, cost_from, Known, IsWay, path_back-Known}
use python_portfolio.Nebula.Paths.Sound.{
  All-weaken, All-least, not_precedes, IsEntry, Within, Within-le, Sound, relax-Sound, popped-Sound,
  visited-Sound,
}
use python_portfolio.Nebula.Paths.Thorough.{
  Held, Held-All, Held-least, Thorough, relax-Thorough, walks_above,
}

not_added :
    (v : List ℕ) (u x : ℕ) → has_id (v ++ (u ∷ [])) x ≡ false → (has_id v x ≡ false) × (u ≢ x)
not_added v u x n =
    let both : (has_id v x || u == x) ≡ false = sym (has_id-append v u x) ∙ n in
    (ground (arith, both), λ e. absurd (ground (arith, both, e)))

module _ (P : Edge → Type 0) (start : ℕ) where
  -- The edges lead from the start to the target, and no walk of edges from one to the other costs less.
  pub record IsCheapest (target : ℕ) (es : List Edge) : Type 0 where
    pub all_edges : All P es
    pub leads : Joins start es target
    pub least_cost :
        (ws : List Edge)
        → All P ws
        → Joins start ws target
        → cost_from (pos 0) es ≤ℤ cost_from (pos 0) ws

  -- What the search is to end with: the identifiers of a cheapest path, or nothing if there is no walk.
  abbrev pub IsAnswer : ℕ → Ending → Type 0
  IsAnswer target (path ids) = (es : List Edge) × (ids ≡ ids_of es) × IsCheapest target es
  IsAnswer target no_path = (ws : List Edge) → All P ws → ¬ Joins start ws target
  IsAnswer target lost = ⊥

  IsWay-found :
      (r : Option (List ℕ)) (target : ℕ) (k : ℤ)
      → IsWay P start r target k
      → ((ws : List Edge) → All P ws → Joins start ws target → k ≤ℤ cost_from (pos 0) ws)
      → IsAnswer target (found r)
  IsWay-found none x k (es, r, ps, j, cost) low = absurd (cc r)
  IsWay-found (some ids) x k (es, r, ps, j, cost) low = (
    es,
    cc r,
    record {
      all_edges = ps;
      leads = j;
      least_cost = λ ws qs walk.
          leb_trans (cost_from (pos 0) es) k (cost_from (pos 0) ws) cost (low ws qs walk);
    },
  )

  data SoundTurn (target : ℕ) : Turn → Type 0 where
    answers : (r : Ending) → IsAnswer target r → SoundTurn target (returned r)
    stays :
        (c : ℤ) (s : Search)
        → Sound P start c s
        → Thorough P start target s.visited s
        → SoundTurn target (again s)

  -- The iterator over outgoing edges gives all edges out of a node, and only those.
  pub record IsOut (g : GraphStorage) : Type 1 where
    pub only : (i : ℕ) → All (λ e. P e × (e.src ≡ i)) (iter_out_edges i none g)
    pub every : (Q : Edge → Type 0) (e : Edge) → P e → All Q (iter_out_edges e.src none g) → Q e

  -- What is known of the entry popped and those left.
  record Popped (s : Search) (c d : ℤ) (u : ℕ) (rest : Entries) : Type 0 where
    rising : c ≤ℤ d
    entry : IsEntry s.costs (d, u)
    entries : All (IsEntry s.costs) rest
    above : All (λ (p : ℤ × ℕ). d ≤ℤ p.0) rest
    low : (q : ℤ × ℕ) → Held q s.pq → d ≤ℤ q.0
    left : (q : ℤ × ℕ) → Held q s.pq → (q ≡ (d, u)) ⊎ Held q rest

  Thorough-Popped :
      (target : ℕ) (s : Search) (c d : ℤ) (u : ℕ) (rest : Entries) (v : List ℕ)
      → Popped s c d u rest
      → Thorough P start target s.visited s
      → ((x : ℕ) → has_id v x ≡ false → (has_id s.visited x ≡ false) × (u ≢ x))
      → has_id v target ≡ false
      → Thorough P start target s.visited (record s { pq = rest; visited = v })
  Thorough-Popped target s c d u rest v p t newer away = record {
    begins = t.begins;
    pending = λ x k g new.
        let (before, other) = newer x new in
        elim (p.left (k, x) (t.pending x k g before)) [
          | inl e ↦ absurd (other (sym (ap (λ q. q.1) e)))
          | inr h ↦ h
        ];
    relaxed = t.relaxed;
    unreached = away;
  }

  module _ (light : (e : Edge) → P e → pos 0 ≤ℤ e.weight) (g : GraphStorage) (out : IsOut g)
      (target : ℕ) where
    -- A new node has been popped, and its edges have been relaxed.
    visit-Thorough :
        (s : Search) (c d : ℤ) (u : ℕ) (rest : Entries)
        → Popped s c d u rest
        → has_id s.visited u ≡ false
        → nat_beq u target ≡ false
        → Sound P start c s
        → Thorough P start target s.visited s
        → SoundTurn target (
            again (
              relax d
                (iter_out_edges u none g)
                (record s { pq = rest; visited = s.visited ++ (u ∷ []) })))
    visit-Thorough s c d u rest p new other h t =
        let v = s.visited ++ (u ∷ []) in
        let s' : Search = record s { pq = rest; visited = v } in
        let es = iter_out_edges u none g in
        let seen : has_id v u ≡ true = has_id-append s.visited u u ∙ ground arith in
        let outs : All (λ e. P e × (has_id v e.src ≡ true)) es =
          All-weaken es (λ e q. (q.0, ap (has_id v) q.1 ∙ seen)) (out.only u) in
        let popped = popped-Sound P start c d rest s p.rising p.entries p.above h in
        let sound : Sound P start d s' =
          visited-Sound P start d u (record s { pq = rest }) p.entry popped in
        let thorough : Thorough P start target s.visited s' =
          Thorough-Popped target s c d u rest v p t (λ x. not_added s.visited u x)
            (has_id-append s.visited u target ∙ ground (arith, other, t.unreached)) in
        let inside : (x : ℕ) → has_id s.visited x ≡ true → has_id v x ≡ true =
          λ x old. has_id-append s.visited u x ∙ rw old refl in
        let r = relax-Thorough P start target light d es s.visited s' outs inside sound thorough in
        let final = relax d es s' in
        let same : final.visited ≡ v = (length-relax d es s').1 in
        let cost_of_u : (k : ℤ) → Dict.get final.costs u ≡ some k → d ≤ℤ k =
          λ k q. p.low (k, u) (t.pending u k (sym (r.1 u seen) ∙ q) new) in
        stays d final (relax-Sound P start light d es s' outs sound) (record {
          begins = r.0.begins;
          pending = r.0.pending;
          relaxed = λ e k q old at_src. elim (Bool-cases (u == e.src)) [
            | inl same_src ↦
                let src : e.src ≡ u = sym ((nat_beq_iff u e.src).0 same_src) in
                Within-le final.costs (d +ℤ e.weight) (k +ℤ e.weight) e.dst
                  (plus-leb d k e.weight
                    (cost_of_u k (sym (ap (Dict.get final.costs) src) ∙ at_src)))
                  (out.every (λ f. Within final.costs (d +ℤ f.weight) f.dst) e q
                    (subst
                      (λ i.
                        All (λ f. Within final.costs (d +ℤ f.weight) f.dst)
                          (iter_out_edges i none g))
                      (sym src) r.3))
            | inr apart ↦
                r.0.relaxed e k q
                  (ground (
                    arith,
                    ap (λ w. has_id w e.src) same ∙ has_id-append s.visited u e.src,
                    old,
                    apart,
                  ))
                  at_src
          ];
          unreached = r.0.unreached;
        })

    round-Sound :
        (s : Search) (c d : ℤ) (u : ℕ) (rest : Entries)
        → Popped s c d u rest
        → Sound P start c s
        → Thorough P start target s.visited s
        → SoundTurn target (search_round g start target s (some ((d, u), rest)))
    unfolding search_round
    round-Sound s c d u rest p h t = elim (Bool-cases (nat_beq u target)) [
      | inl there ↦
          let (k, at_u, low) = p.entry in
          let known : Known P start s.backtrack s.visited (length s.visited) target k =
            subst (λ y. Known P start s.backtrack s.visited (length s.visited) y k)
              ((nat_beq_iff u target).0 there) (h.ways u k at_u) in
          let way =
            path_back-Known P start light (suc (length s.visited)) (length s.visited) target k
              s.backtrack s.visited (omega arith) known in
          rw (there, any)
            (answers _ (
              IsWay-found _ target k way (λ ws ps j.
                leb_trans k d (cost_from (pos 0) ws) low
                  (walks_above P start target light d s ws t p.low ps j))))
      | inr not_there ↦ elim (Bool-cases (has_id s.visited u)) [
        | inl old ↦
            rw (not_there, old, any)
              (stays d _ (popped-Sound P start c d rest s p.rising p.entries p.above h) (
                Thorough-Popped target s c d u rest s.visited p t
                  (λ x new. (new, λ e. absurd (cc (old, new, e)))) t.unreached))
        | inr new ↦ rw (not_there, new, any) (visit-Thorough s c d u rest p new not_there h t)
      ]
    ]

    heappop-Sound :
        (c : ℤ) (pq : Entries) (s : Search)
        → Sound P start c s
        → Thorough P start target s.visited s
        → s.pq ≡ pq
        → SoundTurn target (search_round g start target s (heappop pq))
    unfolding search_round heappop
    heappop-Sound c [] s h t e = answers no_path (λ ws ps j.
        let cost = cost_from (pos 0) ws in
        plus_one cost (
          walks_above P start target light (cost +ℤ pos 1) s ws t
            (λ q held.
              Held-All (λ _. (cost +ℤ pos 1) ≤ℤ q.0) q s.pq
                (subst (All (λ _. (cost +ℤ pos 1) ≤ℤ q.0)) (sym e) tt) held)
            ps j))
    heappop-Sound c (p ∷ qs) s h t e =
        let l = least p qs in
        let entries : All (IsEntry s.costs) (p ∷ qs) = subst (All (IsEntry s.costs)) e h.entries in
        let above : All (λ (q : ℤ × ℕ). c ≤ℤ q.0) (p ∷ qs) =
          subst (All (λ (q : ℤ × ℕ). c ≤ℤ q.0)) e h.above in
        let bound : All (λ (q : ℤ × ℕ). l.0.0 ≤ℤ q.0) (p ∷ qs) =
          All-weaken (p ∷ qs) (λ q. not_precedes q l.0) (least-IsLeast p qs) in
        let taken = All-least (IsEntry s.costs) p qs entries.0 entries.1 in
        round-Sound s c l.0.0 l.0.1 l.1
          (record {
            rising = (All-least (λ (q : ℤ × ℕ). c ≤ℤ q.0) p qs above.0 above.1).0;
            entry = taken.0;
            entries = taken.1;
            above = (All-least (λ (q : ℤ × ℕ). l.0.0 ≤ℤ q.0) p qs bound.0 bound.1).1;
            low = λ q held. Held-All (λ r. l.0.0 ≤ℤ r.0) q (p ∷ qs) bound (subst (Held q) e held);
            left = λ q held. Held-least q p qs (subst (Held q) e held);
          })
          h t

    go_on-IsAnswer :
        (t : Turn) (loop : Search → Option Ending) (r : Ending)
        → SoundTurn target t
        → ((c : ℤ) (s : Search)
            → Sound P start c s
            → Thorough P start target s.visited s
            → loop s ≡ some r
            → IsAnswer target r)
        → go_on loop t ≡ some r
        → IsAnswer target r
    go_on-IsAnswer t loop r (answers q a) h e = subst (IsAnswer target) (cc e) a
    go_on-IsAnswer t loop r (stays c s sound thorough) h e = h c s sound thorough e

    pub loop-IsAnswer :
        (fuel : ℕ) (c : ℤ) (s : Search) (r : Ending)
        → Sound P start c s
        → Thorough P start target s.visited s
        → dijkstra_loop fuel g start target s ≡ some r
        → IsAnswer target r
    unfolding dijkstra_loop
    loop-IsAnswer zero c s r h t e = absurd (cc e)
    loop-IsAnswer (suc fuel) c s r h t e =
        go_on-IsAnswer (search_round g start target s (heappop s.pq))
          (dijkstra_loop fuel g start target) r (heappop-Sound c s.pq s h t refl)
          (λ c' s' h' t'. loop-IsAnswer fuel c' s' r h' t') e
