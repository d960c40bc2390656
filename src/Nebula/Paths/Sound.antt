-- ===== src/Nebula/Paths/Sound.antt =====
-- nebula_graph/core/algorithms.py: what the rounds of the search by Dijkstra keep.
use python_portfolio.Prelude.{
  ℕ, suc, ◌≡◌, refl, sym, ap, ◌∙◌, inl, inr, true, false, none, some, List, [], ◌∷◌, ◌++◌, arith,
  length, length-append, All, All-append, any, ℤ, pos, ◌+ℤ◌, nat_beq_iff, nat_beq_refl, Bool-cases,
  ◌==◌, nat_eq, bytes_eq, string_eq,
}
use mathlib.Core.Path.{subst}
use python_portfolio.Prelude.Dict
use python_portfolio.Prelude.Dict.{Dict}
use python_portfolio.Nebula.Weights.{
  ◌≤ℤ◌, ltb_ℤ, leb_refl, leb_trans, ltb→leb, leb→not_ltb, leb-plus,
}
use python_portfolio.Nebula.Primitives.{Edge}
use python_portfolio.Nebula.Index.{has_id}
use python_portfolio.Nebula.Traversal.Bound.{has_id-append}
use python_portfolio.Nebula.Paths.{Entries, precedes, least, Search, improves, relax_edge, relax}
use python_portfolio.Nebula.Paths.Rounds.{length-relax_edge}
use python_portfolio.Nebula.Paths.Ways.{
  Settled, Settled-le, Known, source, by_edge, Settled-put, Settled-suc, Settled-visit, Known-visit,
  Known-put, Known-Settled,
}

module _ {A : Type 0} {P Q : A → Type 0} where
  pub All-weaken : (xs : List A) → ((x : A) → P x → Q x) → All P xs → All Q xs
  All-weaken [] h ps = tt
  All-weaken (x ∷ xs) h ps = (h x ps.0, All-weaken xs h ps.1)

pub All-least :
    (Q : ℤ × ℕ → Type 0) (p : ℤ × ℕ) (qs : Entries)
    → Q p
    → All Q qs
    → Q (least p qs).0 × All Q (least p qs).1
unfolding least
All-least Q p [] h hs = (h, tt)
All-least Q p (q ∷ qs) h (k, hs) = elim (Bool-cases (precedes q p)) [
  | inl smaller ↦ rw (smaller, any) (let r = All-least Q q qs k hs in (r.0, (h, r.1)))
  | inr larger ↦ rw (larger, any) (let r = All-least Q p qs h hs in (r.0, (k, r.1)))
]

pub not_precedes : (q m : ℤ × ℕ) → precedes q m ≡ false → m.0 ≤ℤ q.0
unfolding precedes ltb_ℤ
not_precedes q m h = ground (arith, h)

-- The cost of a node is known and at most c.
abbrev pub Within : Dict ℕ ℤ → ℤ → ℕ → Type 0
Within costs c x = (k : ℤ) × (Dict.get costs x ≡ some k) × k ≤ℤ c

pub Within-le :
    (costs : Dict ℕ ℤ) (c c' : ℤ) (x : ℕ) → c ≤ℤ c' → Within costs c x → Within costs c' x
Within-le costs c c' x h (k, g, l) = (k, g, leb_trans k c c' l h)

-- An entry is not below the cost of the node it is about.
abbrev pub IsEntry : Dict ℕ ℤ → ℤ × ℕ → Type 0
IsEntry costs p = Within costs p.0 p.1

pub Within-put :
    (costs : Dict ℕ ℤ) (y : ℕ) (n c : ℤ) (x : ℕ)
    → improves n (Dict.get costs y) ≡ true
    → Within costs c x
    → Within (Dict.put costs y n) c x
Within-put costs y n c x better (k, g, l) = elim (Bool-cases (y == x)) [
  | inl same ↦
      let known : Dict.get costs y ≡ some k = ap (Dict.get costs) ((nat_beq_iff y x).0 same) ∙ g in
      let less : ltb_ℤ n k ≡ true = ap (improves n) (sym known) ∙ better in
      (n, Dict.get-put costs y n x ∙ rw same refl, leb_trans n k c (ltb→leb n k less) l)
  | inr apart ↦ (k, Dict.get-put costs y n x ∙ rw apart g, l)
]

-- A node within c is not improved by more.
not_improved :
    (costs : Dict ℕ ℤ) (c n : ℤ) (x : ℕ)
    → c ≤ℤ n
    → Within costs c x
    → improves n (Dict.get costs x) ≡ false
not_improved costs c n x h (k, g, l) = ap (improves n) g ∙ leb→not_ltb k n (leb_trans k c n l h)

module _ (P : Edge → Type 0) (start : ℕ) where
  -- The search when it has popped entries of cost up to c.
  pub record Sound (c : ℤ) (s : Search) : Type 0 where
    pub nonnegative : pos 0 ≤ℤ c
    pub entries : All (IsEntry s.costs) s.pq
    pub above : All (λ (p : ℤ × ℕ). c ≤ℤ p.0) s.pq
    pub ways :
        (x : ℕ) (k : ℤ)
        → Dict.get s.costs x ≡ some k
        → Known P start s.backtrack s.visited (length s.visited) x k
    pub settled :
        (x : ℕ)
        → has_id s.visited x ≡ true
        → Settled P start s.backtrack s.visited (length s.visited) x c × Within s.costs c x

  module _ (light : (e : Edge) → P e → pos 0 ≤ℤ e.weight) where
    -- The node that an edge improves has not been visited.
    pub improved_unvisited :
        (c : ℤ) (e : Edge) (s : Search)
        → P e
        → Sound c s
        → improves (c +ℤ e.weight) (Dict.get s.costs e.dst) ≡ true
        → has_id s.visited e.dst ≡ false
    improved_unvisited c e s p h better = elim (Bool-cases (has_id s.visited e.dst)) [
      | inr apart ↦ apart
      | inl old ↦
          let worse =
            not_improved s.costs c (c +ℤ e.weight) e.dst (leb-plus c e.weight (light e p))
              (h.settled e.dst old).1 in
          absurd (cc (better, worse))
    ]

    pub relax_edge-Sound :
        (c : ℤ) (e : Edge) (s : Search)
        → P e
        → has_id s.visited e.src ≡ true
        → Sound c s
        → Sound c (relax_edge c e s)
    unfolding relax_edge
    relax_edge-Sound c e s p out h =
        elim (Bool-cases (improves (c +ℤ e.weight) (Dict.get s.costs e.dst))) [
          | inr worse ↦ rw (worse, any) h
          | inl better ↦
              let n : ℤ = c +ℤ e.weight in
              let m = length s.visited in
              let new = improved_unvisited c e s p h better in
              let higher : c ≤ℤ n = leb-plus c e.weight (light e p) in
              rw (better, any)
                (record {
                  nonnegative = h.nonnegative;
                  entries =
                      All-append (IsEntry (Dict.put s.costs e.dst n)) s.pq ((n, e.dst) ∷ [])
                        (All-weaken s.pq (λ q. Within-put s.costs e.dst n q.0 q.1 better) h.entries)
                        (
                          (
                            n,
                            Dict.get-put s.costs e.dst n e.dst ∙ rw (nat_beq_refl e.dst) refl,
                            leb_refl n,
                          ),
                          tt,
                        );
                  above =
                      All-append (λ (q : ℤ × ℕ). c ≤ℤ q.0) s.pq ((n, e.dst) ∷ []) h.above
                        (higher, tt);
                  ways = λ x k g. elim (Bool-cases (e.dst == x)) [
                    | inl same ↦
                        let cost : some n ≡ some k =
                          sym (Dict.get-put s.costs e.dst n x ∙ rw same refl) ∙ g in
                        let kept : Settled P start (Dict.put s.backtrack e.dst e) s.visited m e.src
                            c =
                          Settled-put P start s.backtrack s.visited m e.src c e.dst e new
                            (h.settled e.src out).0 in
                        let known : Known P start (Dict.put s.backtrack e.dst e) s.visited m e.dst
                            n =
                          by_edge e c n p
                            (Dict.get-put s.backtrack e.dst e e.dst ∙ rw (nat_beq_refl e.dst) refl)
                            kept (leb_refl n) in
                        subst
                          (λ (q : ℕ × ℤ).
                            Known P start (Dict.put s.backtrack e.dst e) s.visited m q.0 q.1)
                          (cc (cost, (nat_beq_iff e.dst x).0 same)) known
                    | inr apart ↦
                        Known-put P start s.backtrack s.visited m x k e.dst e new apart
                          (h.ways x k (sym (Dict.get-put s.costs e.dst n x ∙ rw apart refl) ∙ g))
                  ];
                  settled = λ x old.
                      let (w, k) = h.settled x old in
                      (
                        Settled-put P start s.backtrack s.visited m x c e.dst e new w,
                        Within-put s.costs e.dst n c x better k,
                      );
                })
        ]

    pub relax-Sound :
        (c : ℤ) (es : List Edge) (s : Search)
        → All (λ e. P e × (has_id s.visited e.src ≡ true)) es
        → Sound c s
        → Sound c (relax c es s)
    unfolding relax
    relax-Sound c [] s hs h = h
    relax-Sound c (e ∷ es) s hs h =
        relax-Sound c es (relax_edge c e s)
          (subst (λ v. All (λ f. P f × (has_id v f.src ≡ true)) es)
            (sym (length-relax_edge c e s).1) hs.1)
          (relax_edge-Sound c e s hs.0.0 hs.0.1 h)

  pub popped-Sound :
      (c d : ℤ) (rest : Entries) (s : Search)
      → c ≤ℤ d
      → All (IsEntry s.costs) rest
      → All (λ (p : ℤ × ℕ). d ≤ℤ p.0) rest
      → Sound c s
      → Sound d (record s { pq = rest })
  popped-Sound c d rest s l es above h = record {
    nonnegative = leb_trans (pos 0) c d h.nonnegative l;
    entries = es;
    above = above;
    ways = h.ways;
    settled = λ x old.
        let (w, k) = h.settled x old in
        (
          Settled-le P start s.backtrack s.visited (length s.visited) x c d l w,
          Within-le s.costs c d x l k,
        );
  }

  pub visited-Sound :
      (d : ℤ) (u : ℕ) (s : Search)
      → Within s.costs d u
      → Sound d s
      → Sound d (record s { visited = s.visited ++ (u ∷ []) })
  visited-Sound d u s (k, at_u, low) h =
      let n = length s.visited in
      let v = s.visited ++ (u ∷ []) in
      let longer : length v ≡ suc n = length-append s.visited (u ∷ []) ∙ omega arith in
      record {
        nonnegative = h.nonnegative;
        entries = h.entries;
        above = h.above;
        ways = λ x k' g.
            subst (λ m. Known P start s.backtrack v m x k') (sym longer)
              (Known-visit P start s.backtrack s.visited n x k' u (h.ways x k' g));
        settled = λ x old.
            subst (λ m. Settled P start s.backtrack v m x d × Within s.costs d x) (sym longer)
              (elim (Bool-cases (u == x)) [
                | inl same ↦
                    subst (λ y. Settled P start s.backtrack v (suc n) y d × Within s.costs d y)
                      ((nat_beq_iff u x).0 same)
                      (
                        Settled-le P start s.backtrack v (suc n) u k d low
                            (Known-Settled P start s.backtrack s.visited n u k (h.ways u k at_u)),
                        (k, at_u, low),
                      )
                | inr apart ↦
                    let before : has_id s.visited x ≡ true =
                      ground (arith, old, has_id-append s.visited u x, apart) in
                    let (w, k') = h.settled x before in
                    (
                      Settled-suc P start s.backtrack v n x d
                          (Settled-visit P start s.backtrack s.visited n x d u w),
                      k',
                    )
              ]);
      }

  pub start-Sound : Sound (pos 0) (record {
    pq = (pos 0, start) ∷ [];
    costs = (start, pos 0) ∷ [];
    backtrack = [];
    visited = [];
  })
  unfolding Dict.get
  start-Sound = record {
    nonnegative = leb_refl (pos 0);
    entries = ((pos 0, rw (nat_beq_refl start) refl, leb_refl (pos 0)), tt);
    above = (leb_refl (pos 0), tt);
    ways = λ x k g. elim (Bool-cases (start == x)) [
      | inl same ↦
          let costs : Dict ℕ ℤ = (start, pos 0) ∷ [] in
          let cost : Dict.get costs x ≡ some (pos 0) = rw same refl in
          subst (λ (q : ℕ × ℤ). Known P start [] [] 0 q.0 q.1)
            (cc (g, cost, (nat_beq_iff start x).0 same)) (source (pos 0) (leb_refl (pos 0)))
      | inr apart ↦
          let costs : Dict ℕ ℤ = (start, pos 0) ∷ [] in
          let missing : Dict.get costs x ≡ none = rw apart refl in absurd (cc (g, missing))
    ];
    settled = λ x old. absurd (cc old);
  }
