-- ===== src/Helix/Cluster/Votes.antt =====
-- helix_consensus/helix/node.py: the votes that have been given in a cluster, and those that have been
-- counted.
use python_portfolio.Prelude.{
  ℕ, ◌+◌, ◌≤◌, ◌<◌, ◌≡◌, sym, ◌∙◌, ◌≢◌, ◌⊎◌, inl, inr, Bool, true, false, Option, none, some, List,
  [], ◌∷◌, arith, All, if◌then◌else◌, nat_beq, nat_beq_iff, Bool-cases, nat_eq, bytes_eq, string_eq,
}
use mathlib.Core.Path.{subst}
use python_portfolio.Helix.Rpc.{MessageType, vote_req, vote_resp, append_req, append_resp}
use python_portfolio.Helix.Node.{RaftNode, follower}
use python_portfolio.Helix.Node.Events.Durable.{IsDurable}
use python_portfolio.Helix.Node.Events.Election.{IsElected}
use python_portfolio.Helix.Cluster.{Datagram, Cluster, is_member, my_peers}
use python_portfolio.Helix.Cluster.Tokens.{tokens}

-- The members that the test picks.
unfoldable pub count : (ℕ → Bool) → List ℕ → ℕ
count f [] = 0
count f (j ∷ js) = (if f j then 1 else 0) + count f js

-- To whom a node gave its vote in a term.
abbrev pub History : Type 0
History = ℕ → ℕ → Option ℕ

-- Whose votes a node has counted in its own favour.
abbrev pub Counted : Type 0
Counted = ℕ → Bool

-- Votes are only added.
abbrev pub Keeps : History → History → Type 0
Keeps h h' = (v t x : ℕ) → h v t ≡ some x → h' v t ≡ some x

module _ (ids : List ℕ) (port : ℕ → ℕ) where
  abbrev pub IsHonestAs : MessageType → History → Datagram → Type 0
  IsHonestAs vote_req h m = m.sender ≡ port m.packet.src_id
  IsHonestAs vote_resp h m =
      (is_member m.packet.src_id ids ≡ true)
      × (i : ℕ) × (m.target ≡ port i)
      × (h m.packet.src_id m.packet.term ≡ some i)
  IsHonestAs _ h m = Unit

  -- A request comes from its candidate, and an answer stands for a vote that was given.
  abbrev pub IsHonest : History → Datagram → Type 0
  IsHonest h m = IsHonestAs m.packet.msg_type h m

  -- What holds of one node.
  pub record IsSafeAt (h : History) (l : Counted) (ms : List Datagram) (i : ℕ) (n : RaftNode)
      : Type 0 where
    pub id : n.node_id ≡ i
    pub peers : n.peers ≡ my_peers port ids i
    pub durable : IsDurable n
    pub elected : IsElected n
    pub now : h i n.current_term ≡ n.voted_for
    pub later : (t : ℕ) → n.current_term < t → h i t ≡ none
    pub counted : n.state ≢ follower → count l ids ≡ n.votes_received
    pub backed : (v : ℕ) → n.state ≢ follower → l v ≡ true → h v n.current_term ≡ some i
    pub spent : (v : ℕ) → n.state ≢ follower → l v ≡ true → tokens port v i n.current_term ms ≡ 0
    pub once : (v t : ℕ) → tokens port v i t ms ≤ 1
    pub early : (v t : ℕ) → n.current_term < t → tokens port v i t ms ≡ 0

  pub record IsSafe (h : History) (l : ℕ → Counted) (s : Cluster) : Type 0 where
    pub at : (i : ℕ) → IsSafeAt h (l i) s.network i (s.nodes i)
    pub honest : All (IsHonest h) s.network

  IsHonest-Keeps : (h h' : History) (m : Datagram) → Keeps h h' → IsHonest h m → IsHonest h' m
  IsHonest-Keeps h h' m k = cases m.packet.msg_type
    where
      cases : (y : MessageType) → IsHonestAs y h m → IsHonestAs y h' m
      cases vote_req p = p
      cases vote_resp (known, i, to, vote) = (known, i, to, k m.packet.src_id m.packet.term i vote)
      cases append_req p = tt
      cases append_resp p = tt

  pub All-Keeps :
      (h h' : History) (ms : List Datagram)
      → Keeps h h'
      → All (IsHonest h) ms
      → All (IsHonest h') ms
  All-Keeps h h' [] k p = tt
  All-Keeps h h' (m ∷ ms) k p = (IsHonest-Keeps h h' m k p.0, All-Keeps h h' ms k p.1)

  -- A node that nothing happened to stays safe.
  pub IsSafeAt-other :
      (h h' : History) (l : Counted) (ms ms' : List Datagram) (j : ℕ) (n : RaftNode)
      → Keeps h h'
      → ((t : ℕ) → h' j t ≡ h j t)
      → ((v t : ℕ) → tokens port v j t ms' ≤ tokens port v j t ms)
      → IsSafeAt h l ms j n
      → IsSafeAt h' l ms' j n
  IsSafeAt-other h h' l ms ms' j n k same fewer p = record {
    id = p.id;
    peers = p.peers;
    durable = p.durable;
    elected = p.elected;
    now = same n.current_term ∙ p.now;
    later = λ t q. same t ∙ p.later t q;
    counted = p.counted;
    backed = λ v q e. k v n.current_term j (p.backed v q e);
    spent = λ v q e. omega (arith, fewer v n.current_term, p.spent v q e);
    once = λ v t. omega (arith, fewer v t, p.once v t);
    early = λ v t q. omega (arith, fewer v t, p.early v t q);
  }

  -- One node changes, and with it the history, its count, and the network.
  pub IsSafe-change :
      (h h' : History) (l l' : ℕ → Counted) (s s' : Cluster) (i : ℕ)
      → Keeps h h'
      → ((j t : ℕ) → j ≢ i → h' j t ≡ h j t)
      → ((j : ℕ) → j ≢ i → l' j ≡ l j)
      → ((j : ℕ) → j ≢ i → s'.nodes j ≡ s.nodes j)
      → ((v j t : ℕ) → j ≢ i → tokens port v j t s'.network ≤ tokens port v j t s.network)
      → IsSafeAt h' (l' i) s'.network i (s'.nodes i)
      → All (IsHonest h') s'.network
      → IsSafe h l s
      → IsSafe h' l' s'
  IsSafe-change h h' l l' s s' i k same counts others fewer changed honest p = record {
    at = λ j. at j (Bool-cases (nat_beq j i));
    honest = honest;
  }
    where
      at :
          (j : ℕ)
          → (nat_beq j i ≡ true) ⊎ (nat_beq j i ≡ false)
          → IsSafeAt h' (l' j) s'.network j (s'.nodes j)
      at j (inl self) =
          subst (λ y. IsSafeAt h' (l' y) s'.network y (s'.nodes y)) (sym ((nat_beq_iff j i).0 self))
            changed
      at j (inr other) =
          let ne : j ≢ i = λ e. ground (arith, e, other) in
          rw (others j ne, counts j ne)
            (IsSafeAt-other h h' (l j) s.network s'.network j (s.nodes j) k (λ t. same j t ne)
              (λ v t. fewer v j t ne) (p.at j))
