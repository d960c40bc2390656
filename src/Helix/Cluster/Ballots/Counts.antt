-- ===== src/Helix/Cluster/Ballots/Counts.antt =====
-- helix_consensus/helix/node.py: a vote that is counted.
use python_portfolio.Prelude.{
  ℕ, ◌+◌, ◌≤◌, ◌≡◌, refl, sym, ap, ◌∙◌, ◌≢◌, ◌⊎◌, inl, inr, true, false, ◌&&◌, some, List, [], ◌∷◌,
  ◌++◌, append-nil, arith, All, leb, nat_beq_refl, Bool-cases, ◌==◌, nat_eq, bytes_eq, string_eq,
}
use mathlib.Core.Path.{subst}
use python_portfolio.Helix.Rpc.{vote_resp}
use python_portfolio.Helix.Node.{
  RaftNode, NodeState, follower, candidate, leader, Clock, quorum, is_candidate,
}
use python_portfolio.Helix.Node.Events.Durable.{IsDurable, dispatch-IsDurable}
use python_portfolio.Helix.Node.Events.Election.{IsElected, dispatch-IsElected}
use python_portfolio.Helix.Cluster.{Datagram, is_member, post}
use python_portfolio.Helix.Cluster.Tokens.{token, tokens, tokens-remove, IsDistinct}
use python_portfolio.Helix.Cluster.Votes.{History, Counted, IsHonest, IsHonestAs, IsSafeAt}
use python_portfolio.Helix.Cluster.Changes.{with_counted, count-with, with_counted-inv}
use python_portfolio.Helix.Cluster.Delivery.{elected_by, response_counted}
use python_portfolio.Helix.Cluster.Ballots.{ResultOf, handled, IsHonest-m, IsHonest-rest}

module _ (ids : List ℕ) (port : ℕ → ℕ) (injective : (a b : ℕ) → port a ≡ port b → a ≡ b)
    (distinct : IsDistinct ids) (h : History) (l : Counted) (i : ℕ) (n : RaftNode) (c : Clock)
    (xs : List Datagram) (m : Datagram) (ys : List Datagram)
    (p : IsSafeAt ids port h l (xs ++ (m ∷ ys)) i n) (member : is_member i ids ≡ true)
    (to : m.target ≡ port i) (honest : All (IsHonest ids port h) (xs ++ (m ∷ ys))) where
  module _ (kind : m.packet.msg_type ≡ vote_resp)
      (open_vote : (is_candidate n.state && m.packet.term == n.current_term) ≡ true) where
    same_term : m.packet.term ≡ n.current_term
    same_term = ground (arith, open_vote)

    running : n.state ≢ follower
    running e = contradiction n.state (ground (arith, open_vote)) e
      where
        contradiction : (s : NodeState) → is_candidate s ≡ true → ¬ (s ≡ follower)
        contradiction follower a b = cc a
        contradiction candidate a b = cc b
        contradiction leader a b = cc a

    voter : is_member m.packet.src_id ids ≡ true
    voter =
        (subst (λ k. IsHonestAs ids port k h m) kind
          (IsHonest-m ids port injective distinct h l i n c xs m ys p member to honest)).0

    vote : h m.packet.src_id n.current_term ≡ some i
    vote =
        let (_, j, at_j, given) =
          subst (λ k. IsHonestAs ids port k h m) kind
            (IsHonest-m ids port injective distinct h l i n c xs m ys p member to honest) in
        let same : j ≡ i = injective j i (sym at_j ∙ to) in
        subst (λ t. h m.packet.src_id t ≡ some i) same_term (given ∙ ap some same)

    this_token : token port m.packet.src_id i n.current_term m ≡ 1
    unfolding token
    this_token =
        rw
          (
            kind,
            to,
            same_term,
            nat_beq_refl m.packet.src_id,
            nat_beq_refl (port i),
            nat_beq_refl n.current_term,
          )
          refl

    uncounted : l m.packet.src_id ≡ false
    uncounted = elim (Bool-cases (l m.packet.src_id)) [
      | inl old ↦
          let none_left = p.spent m.packet.src_id running old in
          let a = tokens-remove port m.packet.src_id i n.current_term xs m ys in
          let b = this_token in absurd (omega arith)
      | inr new ↦ new
    ]

    fewer_left :
        (v j t : ℕ) → tokens port v j t ((xs ++ ys) ++ []) ≤ tokens port v j t (xs ++ (m ∷ ys))
    fewer_left v j t =
        let a = tokens-remove port v j t xs m ys in
        let b : tokens port v j t ((xs ++ ys) ++ []) ≡ tokens port v j t (xs ++ ys) =
          ap (tokens port v j t) (append-nil (xs ++ ys)) in
        omega arith

    none_left : tokens port m.packet.src_id i n.current_term ((xs ++ ys) ++ []) ≡ 0
    none_left =
        let a = tokens-remove port m.packet.src_id i n.current_term xs m ys in
        let b : tokens port m.packet.src_id i n.current_term ((xs ++ ys) ++ [])
            ≡ tokens port m.packet.src_id i n.current_term (xs ++ ys) =
          ap (tokens port m.packet.src_id i n.current_term) (append-nil (xs ++ ys)) in
        let d = this_token in let e = p.once m.packet.src_id n.current_term in omega arith

    record IsElectedBy (n' : RaftNode) : Type 0 where
      id : n'.node_id ≡ n.node_id
      peers : n'.peers ≡ n.peers
      term : n'.current_term ≡ n.current_term
      vote : n'.voted_for ≡ n.voted_for
      votes : n'.votes_received ≡ n.votes_received + 1

    by : IsElectedBy (elected_by c m.packet m.sender n)
    unfolding elected_by
    by = elim (Bool-cases (leb (quorum n) (n.votes_received + 1))) [
      | inl enough ↦
          rw enough (record { id = refl; peers = refl; term = refl; vote = refl; votes = refl })
      | inr short ↦
          rw short (record { id = refl; peers = refl; term = refl; vote = refl; votes = refl })
    ]

    pub counted-Settled :
        ResultOf ids port injective distinct h l i n c xs m ys p member to honest
          (elected_by c m.packet m.sender n, [])
    unfolding post
    counted-Settled =
        let n' = elected_by c m.packet m.sender n in
        let l' = with_counted l m.packet.src_id in
        record {
          history = h;
          counts = l';
          keeps = λ v t x e. e;
          same = λ j t ne. refl;
          fewer = λ v j t ne. fewer_left v j t;
          at = record {
            id = by.id ∙ p.id;
            peers = by.peers ∙ p.peers;
            durable = durable;
            elected = elected;
            now = ap (h i) by.term ∙ p.now ∙ sym by.vote;
            later = λ t q. p.later t (omega (arith, by.term));
            counted = λ f.
                count-with l m.packet.src_id ids voter distinct uncounted
                ∙ ap (λ k. k + 1) (p.counted running)
                ∙ sym by.votes;
            backed = λ v f e. ap (h v) by.term ∙ backed v (with_counted-inv l m.packet.src_id v e);
            spent = λ v f e.
                subst (λ t. tokens port v i t ((xs ++ ys) ++ []) ≡ 0) (sym by.term)
                  (spent v (with_counted-inv l m.packet.src_id v e));
            once = λ v t. omega (arith, fewer_left v i t, p.once v t);
            early = λ v t q. omega (arith, fewer_left v i t, p.early v t (omega (arith, by.term)));
          };
          honest =
              rw (append-nil (xs ++ ys))
                (IsHonest-rest ids port injective distinct h l i n c xs m ys p member to honest);
        }
      where
        result :
            handled ids port injective distinct h l i n c xs m ys p member to honest vote_resp
            ≡ (elected_by c m.packet m.sender n, [])
        result = response_counted c m.packet m.sender n open_vote

        durable : IsDurable (elected_by c m.packet m.sender n)
        durable =
            subst (λ r. IsDurable r.0) result
              (dispatch-IsDurable c m.packet m.sender n vote_resp p.durable)

        elected : IsElected (elected_by c m.packet m.sender n)
        elected =
            subst (λ r. IsElected r.0) result
              (dispatch-IsElected c m.packet m.sender n vote_resp p.elected)

        backed : (v : ℕ) → (v ≡ m.packet.src_id) ⊎ (l v ≡ true) → h v n.current_term ≡ some i
        backed v (inl e) = rw e vote
        backed v (inr e) = p.backed v running e

        spent :
            (v : ℕ)
            → (v ≡ m.packet.src_id) ⊎ (l v ≡ true)
            → tokens port v i n.current_term ((xs ++ ys) ++ []) ≡ 0
        spent v (inl e) = rw e none_left
        spent v (inr e) =
            let a = p.spent v running e in let b = fewer_left v i n.current_term in omega arith
