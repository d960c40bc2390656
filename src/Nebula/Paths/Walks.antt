-- ===== src/Nebula/Paths/Walks.antt =====
-- nebula_graph/core/algorithms.py: the path that the search by Dijkstra returns.
use python_portfolio.Prelude.{
  ℕ, ◌+◌, ◌<◌, ◌≡◌, refl, sym, inl, inr, Bool, true, false, ◌&&◌, none, some, List, [], ◌∷◌, length,
  All, any, ℤ, pos, if◌then◌else◌, nat_beq_iff, nat_beq_refl, Bool-cases, ◌==◌, nat_eq, bytes_eq,
  string_eq,
}
use mathlib.Core.Path.{subst}
use python_portfolio.Nebula.Weights.{◌≤ℤ◌, leb_refl}
use python_portfolio.Prelude.Dict
use python_portfolio.Nebula.Primitives.{Edge}
use python_portfolio.Nebula.Storage.{GraphStorage, matches, filter}
use python_portfolio.Nebula.Storage.Insertion.{Represents, iter_out_edges-Represents}
use python_portfolio.Nebula.Paths.{Ending, find_shortest_path_dijkstra}
use python_portfolio.Nebula.Paths.Rounds.{dijkstra_ends}
use python_portfolio.Nebula.Paths.Sound.{start-Sound}
use python_portfolio.Nebula.Paths.Thorough.{Held, at_front, Thorough}
use python_portfolio.Nebula.Paths.Answers.{IsAnswer, IsOut, loop-IsAnswer}

-- One of the edges.
pub data Among (e : Edge) : List Edge → Type 0 where
  at_head : (es : List Edge) → Among e (e ∷ es)
  behind : (f : Edge) (es : List Edge) → Among e es → Among e (f ∷ es)

all_among : (Q : Edge → Type 0) (es : List Edge) → ((e : Edge) → Among e es → Q e) → All Q es
all_among Q [] h = tt
all_among Q (e ∷ es) h = (h e (at_head es), all_among Q es (λ f a. h f (behind e es a)))

out_of :
    (Q : Edge → Type 0) (i : ℕ) (es : List Edge)
    → All Q es
    → All (λ e. Q e × (e.src ≡ i)) (filter (λ e. (e.src == i) && matches none e) es)
out_of Q i [] h = tt
out_of Q i (e ∷ es) (h, hs) = elim (Bool-cases (e.src == i)) [
  | inl same ↦ rw (same, any) ((h, (nat_beq_iff e.src i).0 same), out_of Q i es hs)
  | inr apart ↦ rw (apart, any) (out_of Q i es hs)
]

Among-All : (Q : Edge → Type 0) (e : Edge) (es : List Edge) → Among e es → All Q es → Q e
Among-All Q e _ (at_head es) qs = qs.0
Among-All Q e _ (behind f es a) qs = Among-All Q e es a qs.1

kept_head :
    (Q : Edge → Type 0) (b : Bool) (e : Edge) (rest : List Edge)
    → b ≡ true
    → All Q (if b then e ∷ rest else rest)
    → Q e
kept_head Q true e rest h qs = qs.0
kept_head Q false e rest h qs = absurd (cc h)

kept_tail :
    (Q : Edge → Type 0) (b : Bool) (e : Edge) (rest : List Edge)
    → All Q (if b then e ∷ rest else rest)
    → All Q rest
kept_tail Q true e rest qs = qs.1
kept_tail Q false e rest qs = qs

every_out :
    (Q : Edge → Type 0) (i : ℕ) (e : Edge) (es : List Edge)
    → Among e es
    → e.src ≡ i
    → All Q (filter (λ f. (f.src == i) && matches none f) es)
    → Q e
every_out Q i e _ (at_head es) src qs =
    kept_head Q ((e.src == i) && true) e (filter (λ f. (f.src == i) && matches none f) es)
      (rw ((nat_beq_iff e.src i).1 src) refl) qs
every_out Q i e _ (behind f es a) src qs =
    every_out Q i e es a src
      (kept_tail Q ((f.src == i) && true) f (filter (λ f. (f.src == i) && matches none f) es) qs)

start-Thorough :
    (P : Edge → Type 0) (start target : ℕ)
    → Thorough P start target [] (record {
      pq = (pos 0, start) ∷ [];
      costs = (start, pos 0) ∷ [];
      backtrack = [];
      visited = [];
    })
unfolding Dict.get
start-Thorough P start target =
    let costs : Dict.Dict ℕ ℤ = (start, pos 0) ∷ [] in
    record {
      begins = (pos 0, rw (nat_beq_refl start) refl, leb_refl (pos 0));
      pending = λ x k g new. elim (Bool-cases (start == x)) [
        | inl same ↦
            let cost : Dict.get costs x ≡ some (pos 0) = rw same refl in
            subst (λ (q : ℤ × ℕ). Held q ((pos 0, start) ∷ []))
              (cc (g, cost, (nat_beq_iff start x).0 same)) (at_front [])
        | inr apart ↦
            let missing : Dict.get costs x ≡ none = rw apart refl in absurd (cc (g, missing))
      ];
      relaxed = λ e k p old g. absurd (cc old);
      unreached = refl;
    }

-- Let the store hold the edges `es`, with weights that are whole and not negative, and let there be a round
-- for each edge and two more. Then the search ends. It returns the identifiers, in their order, of edges
-- of the store that lead from the start to the target, where no edges that lead from one to the other
-- weigh less together; or it returns None, and no edges lead there. The walk back over the edges kept
-- never fails.
pub dijkstra_path_cheapest :
    (fuel start_id target_id : ℕ) (g : GraphStorage) (es : List Edge)
    → Represents g es
    → All (λ e. pos 0 ≤ℤ e.weight) es
    → length es + 1 < fuel
    → (r : Ending) × (find_shortest_path_dijkstra fuel g start_id target_id ≡ some r)
      × IsAnswer (λ e. Among e es) start_id target_id r
unfolding find_shortest_path_dijkstra
dijkstra_path_cheapest fuel start_id target_id g es r light enough =
    let P : Edge → Type 0 = λ e. Among e es in
    let (ending, e) = dijkstra_ends fuel start_id target_id g es r enough in
    let out : IsOut P start_id g = record {
      only = λ i.
          subst (All (λ e. P e × (e.src ≡ i))) (sym (iter_out_edges-Represents i none g es r))
            (out_of P i es (all_among P es (λ e a. a)));
      every = λ Q f a qs.
          every_out Q f.src f es a refl
            (subst (All Q) (iter_out_edges-Represents f.src none g es r) qs);
    } in
    (
      ending,
      e,
      loop-IsAnswer P start_id (λ f a. Among-All (λ e. pos 0 ≤ℤ e.weight) f es a light) g out
          target_id fuel (pos 0) _ ending (start-Sound P start_id)
          (start-Thorough P start_id target_id) e,
    )
