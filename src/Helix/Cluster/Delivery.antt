-- ===== src/Helix/Cluster/Delivery.antt =====
-- helix_consensus/helix/node.py: what a delivered datagram does to the votes of a cluster.
use python_portfolio.Prelude.{
  ℕ, ◌+◌, ◌≤◌, ◌≡◌, refl, ap, ◌≢◌, ◌⊎◌, inl, inr, true, false, ◌&&◌, Option, none, some, List, [],
  ◌∷◌, All, leb, if◌then◌else◌, nat_beq_iff, Bool-cases, ◌==◌, nat_eq, bytes_eq, string_eq,
}
use python_portfolio.Helix.Rpc.{vote_req, vote_resp, Packet}
use python_portfolio.Helix.Storage.{save_state}
use python_portfolio.Helix.Node.{
  RaftNode, leader, Clock, Send, message, dispatch, handle_vote_request, handle_vote_response,
  handle_append_entries, may_vote, quorum, reset_election_timer, is_candidate,
}
use python_portfolio.Helix.Node.Events.Durable.{IsDurable}
use python_portfolio.Helix.Node.Events.Election.{IsElected}
use python_portfolio.Helix.Cluster.{Datagram}
use python_portfolio.Helix.Cluster.Tokens.{tokens}
use python_portfolio.Helix.Cluster.Votes.{History, Counted, IsHonest, IsSafeAt, Keeps}
use python_portfolio.Helix.Cluster.Changes.{IsQuiet, quiet-IsSafeAt}

module _ (ids : List ℕ) (port : ℕ → ℕ) where
  -- After the step of node `i` the votes are as they must be, with `ms` on the way.
  pub record Settled (h : History) (i : ℕ) (before ms : List Datagram) (n' : RaftNode)
      : Type 0 where
    pub history : History
    pub counts : Counted
    pub keeps : Keeps h history
    pub same : (j t : ℕ) → j ≢ i → history j t ≡ h j t
    pub fewer : (v j t : ℕ) → j ≢ i → tokens port v j t ms ≤ tokens port v j t before
    pub at : IsSafeAt ids port history counts ms i n'
    pub honest : All (IsHonest ids port history) ms

  pub quiet-Settled :
      (h : History) (l : Counted) (i : ℕ) (n n' : RaftNode) (before ms : List Datagram)
      → IsQuiet n n'
      → IsDurable n'
      → IsElected n'
      → ((v j t : ℕ) → tokens port v j t ms ≤ tokens port v j t before)
      → All (IsHonest ids port h) ms
      → IsSafeAt ids port h l before i n
      → Settled h i before ms n'
  quiet-Settled h l i n n' before ms q durable elected fewer honest p = record {
    history = h;
    counts = l;
    keeps = λ v t x e. e;
    same = λ j t ne. refl;
    fewer = λ v j t ne. fewer v j t;
    at = quiet-IsSafeAt ids port h l i n n' before ms q durable elected (λ v t. fewer v i t) p;
    honest = honest;
  }

module _ (c : Clock) (pkg : Packet) (addr : ℕ) (n : RaftNode) where
  pub IsQuiet-refl : IsQuiet n n
  IsQuiet-refl = record { id = refl; peers = refl; term = refl; vote = refl; role = λ f. (f, refl) }

  pub append_entries-IsQuiet : IsQuiet n (handle_append_entries c pkg n)
  unfolding handle_append_entries reset_election_timer
  append_entries-IsQuiet = elim (Bool-cases (leb n.current_term pkg.term)) [
    | inl taken ↦
        rw taken (record {
          id = refl;
          peers = refl;
          term = refl;
          vote = refl;
          role = λ f. absurd (f refl);
        })
    | inr stale ↦ rw stale IsQuiet-refl
  ]

  -- `n` with its vote given to the sender.
  unfoldable pub granted : RaftNode
  granted = reset_election_timer c (record n {
    voted_for = some pkg.src_id;
    storage = save_state n.storage n.current_term (some pkg.src_id);
  })

  unfoldable pub reply : List Send
  reply =
      if n.connected then record { port = addr; packet = message granted vote_resp } ∷ [] else []

  -- `n` with one more vote counted.
  unfoldable pub elected_by : RaftNode
  elected_by =
      if leb (quorum n) (n.votes_received + 1)
      then record n {
        votes_received = n.votes_received + 1;
        state = leader;
        leader_id = some n.node_id;
        heartbeat_tasks = n.heartbeat_tasks + 1;
      }
      else record n { votes_received = n.votes_received + 1 }

  pub request_granted :
      (leb n.current_term pkg.term && may_vote n.voted_for pkg.src_id) ≡ true
      → dispatch c pkg addr vote_req n ≡ (granted, reply)
  unfolding dispatch handle_vote_request granted reply reset_election_timer
  request_granted e = rw e refl

  pub request_refused :
      (leb n.current_term pkg.term && may_vote n.voted_for pkg.src_id) ≡ false
      → dispatch c pkg addr vote_req n ≡ (n, [])
  unfolding dispatch handle_vote_request
  request_refused e = rw e refl

  pub response_counted :
      (is_candidate n.state && pkg.term == n.current_term) ≡ true
      → dispatch c pkg addr vote_resp n ≡ (elected_by, [])
  unfolding dispatch handle_vote_response elected_by
  response_counted e = rw e refl

  pub response_ignored :
      (is_candidate n.state && pkg.term == n.current_term) ≡ false
      → dispatch c pkg addr vote_resp n ≡ (n, [])
  unfolding dispatch handle_vote_response
  response_ignored e = rw e refl

  pub voted_before :
      may_vote n.voted_for pkg.src_id ≡ true
      → (n.voted_for ≡ none) ⊎ (n.voted_for ≡ some pkg.src_id)
  voted_before e = cases n.voted_for e
    where
      cases : (o : Option ℕ) → may_vote o pkg.src_id ≡ true → (o ≡ none) ⊎ (o ≡ some pkg.src_id)
      cases none e = inl refl
      cases (some v) e = inr (ap some ((nat_beq_iff v pkg.src_id).0 e))
