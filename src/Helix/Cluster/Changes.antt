-- ===== src/Helix/Cluster/Changes.antt =====
-- helix_consensus/helix/node.py: what the handlers of a node do to its votes.
use python_portfolio.Prelude.{
  ℕ, ◌+◌, ◌≤◌, ◌<◌, ◌≡◌, refl, sym, ap, ◌∙◌, ◌≢◌, ◌⊎◌, inl, inr, true, false, ◌&&◌, none, some,
  List, [], ◌∷◌, arith, ltb, if◌then◌else◌, nat_beq, nat_beq_iff, nat_beq_refl, ltb→lt, Bool-cases,
  nat_eq, bytes_eq, string_eq, beq_ne,
}
use mathlib.Core.Path.{subst}
use python_portfolio.Helix.Rpc.{Packet}
use python_portfolio.Helix.Storage.{save_state}
use python_portfolio.Helix.Node.{RaftNode, follower, Clock, update_term, reset_election_timer}
use python_portfolio.Helix.Node.Events.Durable.{IsDurable, update_term-IsDurable}
use python_portfolio.Helix.Node.Events.Election.{IsElected, update_term-IsElected}
use python_portfolio.Helix.Cluster.{Datagram, is_member}
use python_portfolio.Helix.Cluster.Tokens.{tokens, IsDistinct}
use python_portfolio.Helix.Cluster.Votes.{History, Counted, count, IsSafeAt, Keeps}

-- A vote is added to the history.
unfoldable pub with_vote : History → ℕ → ℕ → ℕ → History
with_vote h i term x v t = if nat_beq i v && nat_beq term t then some x else h v t

-- Whoever is counted, and `v`.
unfoldable pub with_counted : Counted → ℕ → Counted
with_counted l v w = if nat_beq v w then true else l w

module _ (h : History) (i term x : ℕ) where
  pub with_vote_self : with_vote h i term x i term ≡ some x
  unfolding with_vote
  with_vote_self = rw (nat_beq_refl i, nat_beq_refl term) refl

  pub with_vote-other : (v t : ℕ) → v ≢ i → with_vote h i term x v t ≡ h v t
  unfolding with_vote
  with_vote-other v t ne = rw (beq_ne i v (λ e. ne (sym e))) refl

  pub with_vote-later : (t : ℕ) → term < t → with_vote h i term x i t ≡ h i t
  unfolding with_vote
  with_vote-later t l = rw (nat_beq_refl i, beq_ne term t (λ e. omega arith)) refl

  pub with_vote-Keeps : (h i term ≡ none) ⊎ (h i term ≡ some x) → Keeps h (with_vote h i term x)
  unfolding with_vote
  with_vote-Keeps before v t y e = elim (Bool-cases (nat_beq i v && nat_beq term t)) [
    | inl hit ↦ rw hit (same hit before)
    | inr miss ↦ rw miss e
  ]
    where
      agree : h i term ≡ some y → (h i term ≡ none) ⊎ (h i term ≡ some x) → some x ≡ some y
      agree f (inl g) = cc (f, g)
      agree f (inr g) = cc (f, g)

      same :
          (nat_beq i v && nat_beq term t) ≡ true
          → (h i term ≡ none) ⊎ (h i term ≡ some x)
          → some x ≡ some y
      same hit b =
          let p : i ≡ v = ground (arith, hit) in
          let q : term ≡ t = ground (arith, hit) in
          agree (subst (λ w. h w term ≡ some y) (sym p) (subst (λ w. h v w ≡ some y) (sym q) e)) b

module _ (l : Counted) (v : ℕ) where
  with_counted-other : (w : ℕ) → w ≢ v → with_counted l v w ≡ l w
  unfolding with_counted
  with_counted-other w ne = rw (beq_ne v w (λ e. ne (sym e))) refl

  count-without : (js : List ℕ) → is_member v js ≡ false → count (with_counted l v) js ≡ count l js
  unfolding count is_member
  count-without [] m = refl
  count-without (j ∷ js) m =
      let ne : j ≢ v = λ e. ground (arith, e, m) in
      rw (with_counted-other j ne, count-without js (ground (arith, m))) refl

  pub count-with :
      (js : List ℕ)
      → is_member v js ≡ true
      → IsDistinct js
      → l v ≡ false
      → count (with_counted l v) js ≡ count l js + 1
  unfolding count is_member with_counted
  count-with [] m d e = cc m
  count-with (j ∷ js) m d e = elim (Bool-cases (nat_beq j v)) [
    | inl same ↦
        let q : j ≡ v = (nat_beq_iff j v).0 same in
        let out : is_member v js ≡ false = subst (λ w. is_member w js ≡ false) q d.0 in
        let self : with_counted l v j ≡ true = rw (q, nat_beq_refl v) refl in
        let fresh : l j ≡ false = subst (λ w. l w ≡ false) (sym q) e in
        rw (self, fresh, count-without js out) (omega arith)
    | inr other ↦
        let ne : j ≢ v = λ q. ground (arith, q, other) in
        let more = count-with js (ground (arith, m, other)) d.1 e in
        rw (with_counted-other j ne, more) (omega arith)
  ]

  pub with_counted-inv : (w : ℕ) → with_counted l v w ≡ true → (w ≡ v) ⊎ (l w ≡ true)
  unfolding with_counted
  with_counted-inv w h = elim (Bool-cases (nat_beq v w)) [
    | inl same ↦ inl (sym ((nat_beq_iff v w).0 same))
    | inr other ↦ inr (ground (arith, other, h))
  ]

-- `n'` is no nearer to an election than `n`: it has the same term and vote.
pub record IsQuiet (n n' : RaftNode) : Type 0 where
  pub id : n'.node_id ≡ n.node_id
  pub peers : n'.peers ≡ n.peers
  pub term : n'.current_term ≡ n.current_term
  pub vote : n'.voted_for ≡ n.voted_for
  pub role : n'.state ≢ follower → (n.state ≢ follower) × (n'.votes_received ≡ n.votes_received)

module _ (ids : List ℕ) (port : ℕ → ℕ) (h : History) (l : Counted) (i : ℕ) where
  pub quiet-IsSafeAt :
      (n n' : RaftNode) (ms ms' : List Datagram)
      → IsQuiet n n'
      → IsDurable n'
      → IsElected n'
      → ((v t : ℕ) → tokens port v i t ms' ≤ tokens port v i t ms)
      → IsSafeAt ids port h l ms i n
      → IsSafeAt ids port h l ms' i n'
  quiet-IsSafeAt n n' ms ms' q durable elected fewer p = record {
    id = q.id ∙ p.id;
    peers = q.peers ∙ p.peers;
    durable = durable;
    elected = elected;
    now = ap (h i) q.term ∙ p.now ∙ sym q.vote;
    later = λ t m. p.later t (omega (arith, q.term));
    counted = λ f. p.counted (q.role f).0 ∙ sym (q.role f).1;
    backed = λ v f e. ap (h v) q.term ∙ p.backed v (q.role f).0 e;
    spent = λ v f e.
        let none_left = p.spent v (q.role f).0 e in
        let less = fewer v n.current_term in
        subst (λ t. tokens port v i t ms' ≡ 0) (sym q.term) (omega arith);
    once = λ v t. omega (arith, fewer v t, p.once v t);
    early = λ v t m. omega (arith, fewer v t, p.early v t (omega (arith, q.term)));
  }

  -- The first part of `handle_message`.
  pub update_term-IsSafeAt :
      (c : Clock) (pkg : Packet) (addr : ℕ) (n : RaftNode) (ms : List Datagram)
      → IsSafeAt ids port h l ms i n
      → IsSafeAt ids port h l ms i (update_term c pkg n)
  unfolding update_term reset_election_timer
  update_term-IsSafeAt c pkg addr n ms p = elim (Bool-cases (ltb n.current_term pkg.term)) [
    | inl up ↦
        let l : n.current_term < pkg.term = ltb→lt n.current_term pkg.term up in
        rw up (record {
          id = p.id;
          peers = p.peers;
          durable = durable up;
          elected = elected up;
          now = p.later pkg.term l;
          later = λ t m. p.later t (omega (arith, l));
          counted = λ f. absurd (f refl);
          backed = λ v f e. absurd (f refl);
          spent = λ v f e. absurd (f refl);
          once = p.once;
          early = λ v t m. p.early v t (omega (arith, l));
        })
    | inr same ↦ rw same p
  ]
    where
      raised : RaftNode
      raised = reset_election_timer c (record n {
        current_term = pkg.term;
        state = follower;
        voted_for = none;
        leader_id = none;
        storage = save_state n.storage pkg.term none;
      })

      durable : ltb n.current_term pkg.term ≡ true → IsDurable raised
      durable up = rw up at (update_term-IsDurable c pkg addr n p.durable)

      elected : ltb n.current_term pkg.term ≡ true → IsElected raised
      elected up = rw up at (update_term-IsElected c pkg addr n p.elected)
