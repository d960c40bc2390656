-- ===== src/Nebula/Execution.antt =====
-- nebula_graph/main.py: ExecutionEngine.execute on a query that has been parsed. The order in which a
-- Python set is iterated is an argument, a function of the members.
use python_portfolio.Prelude.{
  ℕ, ◌≡◌, refl, ap, ◌∙◌, ◌≢◌, Bool, true, false, ◌&&◌, Option, none, some, List, [], ◌∷◌, ◌++◌, map,
  All, any, Result, ok, ◌>>=◌, if◌then◌else◌, ◌==◌, nat_eq, bytes_eq, string_eq,
}
use mathlib.Core.List.{foldr, Perm}
use mathlib.Core.List.Perm
use python_portfolio.Prelude.Dict
use python_portfolio.Prelude.Dict.{Dict}
use python_portfolio.Nebula.Primitives.{Text, Property, property_eq, Node, new_node, has_label}
use python_portfolio.Nebula.Storage.{GraphStorage, GraphError, get_node}
use python_portfolio.Nebula.Index.{IndexManager, search}
use python_portfolio.Nebula.Query.{MatchClause, WhereClause, QueryAst}

-- The hits of an index, where the condition is about the variable of the pattern.
unfoldable pub index_hits : Option WhereClause → IndexManager → MatchClause → List ℕ
index_hits none m c = []
index_hits (some w) m c = if w.variable == c.variable then search w.property_name w.value m else []

-- `if match_clause.labels` and the check of the labels
abbrev pub labels_pass : List Text → Node → Bool
labels_pass [] n = true
labels_pass (l ∷ ls) n = any (has_label n.labels) (l ∷ ls)

abbrev pub value_is : Option Property → Property → Bool
value_is none v = false
value_is (some w) v = w == v

-- The check of the condition, whose operator is always `=`
abbrev pub where_passes : Option WhereClause → Node → Bool
where_passes none n = true
where_passes (some w) n = value_is (Dict.get n.properties w.property_name) w.value

abbrev pub passes : Option WhereClause → MatchClause → Node → Bool
passes w c n = labels_pass c.labels n && where_passes w n

abbrev pub filter_nodes : (Node → Bool) → Dict ℕ Node → List Node
filter_nodes p [] = []
filter_nodes p ((_, n) ∷ nodes) = let rest = filter_nodes p nodes in if p n then n ∷ rest else rest

-- The loop over iter_nodes
unfoldable pub scan : Option WhereClause → GraphStorage → MatchClause → List ℕ
scan w g c = map (λ (n : Node). n.id) (filter_nodes (passes w c) g.nodes)

-- `if not candidates`
abbrev pub candidates_or : List ℕ → List ℕ → List ℕ
candidates_or [] scanned = scanned
candidates_or (i ∷ ids) scanned = i ∷ ids

unfoldable pub candidates : Option WhereClause → GraphStorage → IndexManager → MatchClause → List ℕ
unfolding index_hits scan
candidates w g m c = candidates_or (index_hits w m c) (scan w g c)

-- The loop over the candidates
unfoldable pub fetch : GraphStorage → List ℕ → Result GraphError (List Node)
fetch g [] = ok []
fetch g (i ∷ ids) = do n ← get_node i g; ns ← fetch g ids; ok (n ∷ ns)

unfoldable pub execute_clauses :
    (List ℕ → List ℕ)
    → Option WhereClause
    → GraphStorage
    → IndexManager
    → List MatchClause
    → Result GraphError (List Node)
unfolding candidates fetch
execute_clauses order w g m [] = ok []
execute_clauses order w g m (c ∷ cs) = do
  ns ← fetch g (order (candidates w g m c))
  rest ← execute_clauses order w g m cs
  ok (ns ++ rest)

-- execute
unfoldable pub execute :
    (List ℕ → List ℕ) → QueryAst → GraphStorage → IndexManager → Result GraphError (List Node)
unfolding execute_clauses
execute order ast g m = execute_clauses order ast.where_clause g m ast.matches

-- Each node stands under its own number.
abbrev pub IsKeyed : GraphStorage → Dict ℕ Node → Type 0
IsKeyed g nodes = All (λ (p : ℕ × Node). Dict.get g.nodes p.1.id ≡ some p.1) nodes

abbrev is_found : Option Node → Bool
is_found none = false
is_found (some n) = true

abbrev is_node : GraphStorage → ℕ → Bool
is_node g i = is_found (Dict.get g.nodes i)

-- All of the numbers are those of nodes.
abbrev all_there : GraphStorage → List ℕ → Bool
all_there g ids = foldr (λ i b. is_node g i && b) true ids

abbrev node_or : ℕ → Option Node → Node
node_or i none = new_node i [] []
node_or i (some n) = n

abbrev node_at : GraphStorage → ℕ → Node
node_at g i = node_or i (Dict.get g.nodes i)

module _ (order : List ℕ → List ℕ) (variable result : Text) (w : Option WhereClause)
    (g : GraphStorage) (m : IndexManager) where
  abbrev pub query : List Text → QueryAst
  query labels = record {
    matches = record { variable = variable; labels = labels } ∷ [];
    where_clause = w;
    returns = record { variable = result } ∷ [];
  }

  hits_or : (hits : List ℕ) (a b : List ℕ) → hits ≢ [] → candidates_or hits a ≡ candidates_or hits b
  hits_or [] a b h = absurd (h refl)
  hits_or (i ∷ ids) a b h = refl

  same_hits :
      (o : Option WhereClause) (labels others : List Text)
      → index_hits o m (record { variable = variable; labels = labels })
        ≡ index_hits o m (record { variable = variable; labels = others })
  unfolding index_hits
  same_hits none labels others = refl
  same_hits (some v) labels others = refl

  -- A query for which an index has a hit returns the same whatever labels it asks for: the hits are not
  -- checked against them.
  pub execute_ignores_labels :
      (labels others : List Text)
      → index_hits w m (record { variable = variable; labels = labels }) ≢ []
      → execute order (query labels) g m ≡ execute order (query others) g m
  unfolding execute execute_clauses candidates
  execute_ignores_labels labels others hit =
      let a : MatchClause = record { variable = variable; labels = labels } in
      let b : MatchClause = record { variable = variable; labels = others } in
      let same : candidates w g m a ≡ candidates w g m b =
        hits_or (index_hits w m a) (scan w g a) (scan w g b) hit
        ∙ ap (λ h. candidates_or h (scan w g b)) (same_hits w labels others) in
      ap (λ ids. fetch g (order ids) >>= λ ns. ok [] >>= λ rest. ok (ns ++ rest)) same
