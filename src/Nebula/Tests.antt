-- ===== src/Nebula/Tests.antt =====
-- nebula_graph on a small graph, the one of nebula_graph/main.py.
mod Routes
use python_portfolio.Prelude.{
  ℕ, zero, suc, ◌≤◌, ◌<◌, ◌≡◌, refl, ap, ◌∙◌, ◌≢◌, true, false, ◌||◌, Option, none, some, List, [],
  ◌∷◌, ◌++◌, arith, String, length, All, any, ok, and_then, ℤ, pos, negsuc, ◌+ℤ◌, nat_eq, bytes_eq,
  string_eq,
}
use mathlib.Core.List.{Perm}
use mathlib.Core.List.Perm
use python_portfolio.Prelude.Dict
use python_portfolio.Prelude.Dict.{Dict}
use python_portfolio.Ouroboros.Text.{codes}
use python_portfolio.Nebula.Primitives.{property_eq, number, text, Node, Edge, new_node}
use python_portfolio.Nebula.Storage.{GraphStorage, empty, add_edge, delete_node}
use python_portfolio.Nebula.Storage.Insertion.{Represents, empty-Represents, add_edge-Represents}
use python_portfolio.Nebula.Storage.Deletion.{without_node, delete_node-Represents}
use python_portfolio.Nebula.Index.{
  PropertyIndex, IndexManager, create_index, search, has_id, lookup, add, on_node_created,
}
use python_portfolio.Nebula.Index.Search.{all_created, is_hit, search-all_created}
use python_portfolio.Nebula.Weights.{ltb_ℤ}
use python_portfolio.Nebula.Paths
use python_portfolio.Nebula.Paths.Answers
use python_portfolio.Nebula.Paths.Walks
use python_portfolio.Nebula.Traversal.{Queue, bfs}
use python_portfolio.Nebula.Traversal.Visits.{ids, bfs_visits_once}
use python_portfolio.Nebula.Traversal.Visits
use python_portfolio.Nebula.Cluster
use python_portfolio.Nebula.Cluster.{
  RaftNode, Clock, follower, leader, round, end_of_election, handle_all, handle_all_never_leads,
  alone_leads,
}
use python_portfolio.Nebula.Query.{WhereClause, word, eof, parse}
use python_portfolio.Nebula.Query.RoundTrip.{Query, tokens_of, ast_of, parse-tokens_of}
use python_portfolio.Nebula.Execution.{execute, index_hits, query, execute_ignores_labels}

abbrev person : ℕ → String → Node
person id name = new_node id (codes "Person" ∷ []) ((codes "name", text (codes name)) ∷ [])

abbrev alice : Node
alice = person 1 "Alice"

abbrev bob : Node
bob = person 2 "Bob"

abbrev people : GraphStorage
people = record (empty 10) { nodes = (1, alice) ∷ (2, bob) ∷ []; node_seq = 2 }

people-Represents : Represents people []
people-Represents =
    let r = empty-Represents 10 in
    record {
      edges = r.edges;
      distinct = r.distinct;
      numbered = r.numbered;
      outs = r.outs;
      ins = r.ins;
      ends = tt;
    }

people_there : (Dict.has people.nodes 1 ≡ true) × (Dict.has people.nodes 2 ≡ true)
unfolding Dict.has
people_there = (refl, refl)

abbrev pub knows : Edge
knows = record {
  id = 1;
  src = 2;
  dst = 1;
  rel_type = codes "KNOWS";
  weight = pos 9;
  properties = [];
}

add_edge-Represents_example :
    (g' : GraphStorage) × (add_edge 2 1 (codes "KNOWS") (pos 9) [] people ≡ ok (knows, g'))
    × Represents g' (knows ∷ [])
    × (g'.nodes ≡ people.nodes)
add_edge-Represents_example =
    add_edge-Represents 2 1 (codes "KNOWS") (pos 9) [] people [] people-Represents people_there.1
      people_there.0

pub bob_knows_alice :
    (g' : GraphStorage) × (add_edge 2 1 (codes "KNOWS") (pos 9) [] people ≡ ok (knows, g'))
    × Represents g' (knows ∷ [])
    × (g'.nodes ≡ people.nodes)
bob_knows_alice =
    add_edge-Represents 2 1 (codes "KNOWS") (pos 9) [] people [] people-Represents people_there.1
      people_there.0

abbrev pub friends : GraphStorage
friends = bob_knows_alice.0

pub friends-Represents : Represents friends (knows ∷ [])
friends-Represents = bob_knows_alice.2

friends_there : Dict.has friends.nodes 1 ≡ true
friends_there = ap (λ d. Dict.has d 1) bob_knows_alice.3 ∙ people_there.0

delete_node-Represents_example :
    (g' : GraphStorage) × (delete_node 1 true friends ≡ ok g')
    × Represents g' (without_node 1 (knows ∷ []))
    × (g'.nodes ≡ Dict.remove friends.nodes 1)
delete_node-Represents_example =
    delete_node-Represents 1 friends (knows ∷ []) friends-Represents friends_there

abbrev by_name : IndexManager
by_name = create_index (codes "name") []

by_name_there : Dict.has by_name (codes "name") ≡ true
unfolding create_index Dict.has Dict.put
by_name_there = refl

search-all_created_example :
    has_id (search (codes "name") (text (codes "Bob")) (all_created (alice ∷ bob ∷ []) by_name)) 2
    ≡ (any (is_hit (codes "name") (text (codes "Bob")) 2) (alice ∷ bob ∷ [])
        || has_id (search (codes "name") (text (codes "Bob")) by_name) 2)
search-all_created_example =
    search-all_created (alice ∷ bob ∷ []) by_name (codes "name") (text (codes "Bob")) 2
      by_name_there

abbrev ages : PropertyIndex
ages = add (number 30) 1 (add (number 30) 2 (record { property_name = codes "age"; items = [] }))

-- MATCH (p:Person) WHERE p.name = 'Alice' RETURN p
abbrev alice_query : Query
alice_query = record {
  variable = codes "p";
  label = some (codes "Person");
  condition = some (codes "p", codes "name", text (codes "Alice"));
  result = codes "p";
}

parse-tokens_of_example :
    parse (tokens_of alice_query ++ (word eof [] ∷ [])) ≡ ok (ast_of alice_query)
parse-tokens_of_example = parse-tokens_of alice_query (word eof [] ∷ [])

abbrev is_alice : Option WhereClause
is_alice = some (record {
  variable = codes "p";
  property_name = codes "name";
  operator = codes "=";
  value = text (codes "Alice");
})

-- Any order of a set will do: here the first member comes last.
abbrev first_last : List ℕ → List ℕ
first_last [] = []
first_last (i ∷ is) = is ++ (i ∷ [])

abbrev indexed : IndexManager
indexed = all_created (alice ∷ bob ∷ []) by_name

one_hit :
    index_hits is_alice indexed (record { variable = codes "p"; labels = codes "Person" ∷ [] }) ≢ []
unfolding index_hits search lookup all_created on_node_created create_index add Dict.get Dict.put
    Dict.has
one_hit h = ground (arith, h)

execute_ignores_labels_example :
    execute first_last
      (query first_last (codes "p") (codes "p") is_alice people indexed (codes "Person" ∷ []))
      people
      indexed
    ≡ execute first_last
        (query first_last (codes "p") (codes "p") is_alice people indexed (codes "Company" ∷ []))
        people
        indexed
execute_ignores_labels_example =
    execute_ignores_labels first_last (codes "p") (codes "p") is_alice people indexed
      (codes "Person" ∷ []) (codes "Company" ∷ []) one_hit

abbrev early : Clock
early = record { now = 100; timeout = 20 }

abbrev late : Clock
late = record { now = 200; timeout = 20 }

abbrev with_peer : RaftNode
with_peer = Cluster.init (codes "a") (codes "b" ∷ []) early

with_peer_facts : (0 < length with_peer.peers) × (with_peer.state ≢ leader)
unfolding Cluster.init
with_peer_facts = (omega arith, λ h. ground (arith, h))

handle_all_never_leads_example :
    ((handle_all (round late ∷ end_of_election ∷ []) with_peer).state ≢ leader)
    × (with_peer.current_term
        ≤ (handle_all (round late ∷ end_of_election ∷ []) with_peer).current_term)
handle_all_never_leads_example =
    handle_all_never_leads (round late ∷ end_of_election ∷ []) with_peer with_peer_facts.0
      with_peer_facts.1

abbrev alone : RaftNode
alone = Cluster.init (codes "a") [] early

alone_facts :
    (alone.peers ≡ [])
    × (alone.state ≡ follower)
    × (alone.electing ≡ false)
    × (alone.election_deadline < 200)
unfolding Cluster.init
alone_facts = (refl, refl, refl, omega arith)

bfs_visits_once_example :
    (ys : Queue) × (bfs 2 friends 2 5 ≡ some ys)
    × Visits.Distinct (ids ys)
    × All (λ (p : ℕ × ℕ). p.1 ≤ 5) ys
bfs_visits_once_example =
    bfs_visits_once 2 2 5 friends (knows ∷ []) friends-Represents (omega arith)
