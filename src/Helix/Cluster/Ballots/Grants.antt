-- ===== src/Helix/Cluster/Ballots/Grants.antt =====
-- helix_consensus/helix/node.py: a vote that is given.
use python_portfolio.Prelude.{
  ℕ, ◌≤◌, ◌≡◌, ◌∙◌, ◌⊎◌, inl, inr, true, ◌&&◌, none, some, List, ◌∷◌, ◌++◌, arith, All, All-append,
  leb, Bool-cases, nat_eq, bytes_eq, string_eq,
}
use mathlib.Core.Path.{subst}
use python_portfolio.Helix.Rpc.{vote_req}
use python_portfolio.Helix.Node.{RaftNode, Clock, may_vote, reset_election_timer}
use python_portfolio.Helix.Node.Events.Durable.{IsDurable, dispatch-IsDurable}
use python_portfolio.Helix.Node.Events.Election.{IsElected, dispatch-IsElected}
use python_portfolio.Helix.Cluster.{Datagram, is_member, post}
use python_portfolio.Helix.Cluster.Tokens.{tokens, tokens-append, tokens-remove, IsDistinct}
use python_portfolio.Helix.Cluster.Votes.{
  History, Counted, IsHonest, IsHonestAs, IsSafeAt, Keeps, All-Keeps,
}
use python_portfolio.Helix.Cluster.Changes.{
  with_vote, with_vote_self, with_vote-other, with_vote-later, with_vote-Keeps,
}
use python_portfolio.Helix.Cluster.Delivery.{Settled, granted, reply, request_granted, voted_before}
use python_portfolio.Helix.Cluster.Ballots.{reply-token, handled, IsHonest-m, IsHonest-rest}

module _ (ids : List ℕ) (port : ℕ → ℕ) (injective : (a b : ℕ) → port a ≡ port b → a ≡ b)
    (distinct : IsDistinct ids) (h : History) (l : Counted) (i : ℕ) (n : RaftNode) (c : Clock)
    (xs : List Datagram) (m : Datagram) (ys : List Datagram)
    (p : IsSafeAt ids port h l (xs ++ (m ∷ ys)) i n) (member : is_member i ids ≡ true)
    (to : m.target ≡ port i) (honest : All (IsHonest ids port h) (xs ++ (m ∷ ys))) where
  module _ (kind : m.packet.msg_type ≡ vote_req) (term : m.packet.term ≡ n.current_term)
      (may : (leb n.current_term m.packet.term && may_vote n.voted_for m.packet.src_id)
        ≡ true) where
    history : History
    history = with_vote h i n.current_term m.packet.src_id

    unfoldable pub sent : List Datagram
    sent = (xs ++ ys) ++ post (port i) (reply c m.packet m.sender n)

    from : m.sender ≡ port m.packet.src_id
    from =
        subst (λ k. IsHonestAs ids port k h m) kind
          (IsHonest-m ids port injective distinct h l i n c xs m ys p member to honest)

    before : (h i n.current_term ≡ none) ⊎ (h i n.current_term ≡ some m.packet.src_id)
    before = elim (voted_before c m.packet m.sender n (ground (arith, may))) [
      | inl e ↦ inl (p.now ∙ e)
      | inr e ↦ inr (p.now ∙ e)
    ]

    kept : Keeps h history
    unfolding history
    kept = with_vote-Keeps h i n.current_term m.packet.src_id before

    fewer_sent : (v j t : ℕ) → tokens port v j t sent ≤ tokens port v j t (xs ++ (m ∷ ys))
    unfolding sent
    fewer_sent v j t =
        let a = tokens-append port v j t (xs ++ ys) (post (port i) (reply c m.packet m.sender n)) in
        let b = tokens-remove port v j t xs m ys in
        let d = reply-token port injective c n m i v j t kind p.id from to term in omega arith

    reply-IsHonest : All (IsHonest ids port history) (post (port i) (reply c m.packet m.sender n))
    unfolding post reply granted reset_election_timer history
    reply-IsHonest = elim (Bool-cases n.connected) [
      | inl on ↦
          rw (on, p.id)
            ((
              (member, m.packet.src_id, from, with_vote_self h i n.current_term m.packet.src_id),
              tt,
            ))
      | inr off ↦ rw off tt
    ]

    pub granted-Settled : Settled ids port h i (xs ++ (m ∷ ys)) sent (granted c m.packet m.sender n)
    unfolding granted reset_election_timer history sent
    granted-Settled = record {
      history = history;
      counts = l;
      keeps = kept;
      same = λ j t ne. with_vote-other h i n.current_term m.packet.src_id j t ne;
      fewer = λ v j t ne. fewer_sent v j t;
      at = record {
        id = p.id;
        peers = p.peers;
        durable = durable;
        elected = elected;
        now = with_vote_self h i n.current_term m.packet.src_id;
        later = λ t q. with_vote-later h i n.current_term m.packet.src_id t q ∙ p.later t q;
        counted = p.counted;
        backed = λ v f e. kept v n.current_term i (p.backed v f e);
        spent = λ v f e. omega (arith, fewer_sent v i n.current_term, p.spent v f e);
        once = λ v t. omega (arith, fewer_sent v i t, p.once v t);
        early = λ v t q. omega (arith, fewer_sent v i t, p.early v t q);
      };
      honest =
          All-append (IsHonest ids port history) (xs ++ ys) _
            (All-Keeps ids port h history (xs ++ ys) kept
              (IsHonest-rest ids port injective distinct h l i n c xs m ys p member to honest))
            reply-IsHonest;
    }
      where
        result :
            handled ids port injective distinct h l i n c xs m ys p member to honest vote_req
            ≡ (granted c m.packet m.sender n, reply c m.packet m.sender n)
        result = request_granted c m.packet m.sender n may

        durable : IsDurable (granted c m.packet m.sender n)
        durable =
            subst (λ r. IsDurable r.0) result
              (dispatch-IsDurable c m.packet m.sender n vote_req p.durable)

        elected : IsElected (granted c m.packet m.sender n)
        elected =
            subst (λ r. IsElected r.0) result
              (dispatch-IsElected c m.packet m.sender n vote_req p.elected)
