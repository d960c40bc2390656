-- ===== src/Helix/Cluster/Ballots.antt =====
-- helix_consensus/helix/node.py: a vote that is given, and one that is counted.
pub mod Grants
pub mod Counts
pub mod Dispatch
use python_portfolio.Prelude.{
  ℕ, ◌+◌, ◌-◌, ◌≤◌, ◌≡◌, ap, inl, inr, true, List, [], ◌∷◌, ◌++◌, append-nil, arith, All, any,
  if◌then◌else◌, nat_beq, nat_beq_iff, nat_beq_refl, Bool-cases, nat_eq, bytes_eq, string_eq,
}
use mathlib.Core.Path.{subst}
use python_portfolio.Helix.Rpc.{MessageType, vote_req, vote_resp, append_req, append_resp}
use python_portfolio.Helix.Node.{
  RaftNode, NodeState, follower, candidate, leader, Clock, Step, dispatch, may_vote, quorum,
  reset_election_timer, is_candidate,
}
use python_portfolio.Helix.Node.Events.Durable.{IsDurable, dispatch-IsDurable}
use python_portfolio.Helix.Node.Events.Election.{IsElected, dispatch-IsElected}
use python_portfolio.Helix.Cluster.{Datagram, is_member, post}
use python_portfolio.Helix.Cluster.Tokens.{token, tokens, tokens-append, tokens-remove, IsDistinct}
use python_portfolio.Helix.Cluster.Votes.{
  History, Counted, IsHonest, IsHonestAs, IsSafeAt, Keeps, All-Keeps,
}
use python_portfolio.Helix.Cluster.Changes.{
  with_vote, with_vote_self, with_vote-other, with_vote-later, with_vote-Keeps, with_counted,
  count-with, with_counted-inv, IsQuiet,
}
use python_portfolio.Helix.Cluster.Delivery.{
  Settled, quiet-Settled, IsQuiet-refl, append_entries-IsQuiet, granted, reply, elected_by,
  request_granted, request_refused, response_counted, response_ignored, voted_before,
}

module _ (port : ℕ → ℕ) (injective : (a b : ℕ) → port a ≡ port b → a ≡ b) where
  choose : ℕ → ℕ → ℕ → ℕ → ℕ → ℕ → ℕ
  choose a b p q t u =
      if nat_beq a b then (if nat_beq p q then (if nat_beq t u then 1 else 0) else 0) else 0

  choose_le :
      (i v src j term t : ℕ)
      → choose i v (port src) (port j) term t ≤ choose src j (port i) (port v) term t
  unfolding choose
  choose_le i v src j term t = elim (Bool-cases (nat_beq i v)) [
    | inl iv ↦ elim (Bool-cases (nat_beq (port src) (port j))) [
      | inl pq ↦
          let a : i ≡ v = (nat_beq_iff i v).0 iv in
          let b : src ≡ j = injective src j ((nat_beq_iff (port src) (port j)).0 pq) in
          rw (a, b, nat_beq_refl v, nat_beq_refl j, nat_beq_refl (port v), nat_beq_refl (port j))
            (omega arith)
      | inr pq ↦ rw (iv, pq) (omega arith)
    ]
    | inr iv ↦ rw iv (omega arith)
  ]

  -- The answer to a request takes its place.
  pub reply-token :
      (c : Clock) (n : RaftNode) (m : Datagram) (i v j t : ℕ)
      → m.packet.msg_type ≡ vote_req
      → n.node_id ≡ i
      → m.sender ≡ port m.packet.src_id
      → m.target ≡ port i
      → m.packet.term ≡ n.current_term
      → tokens port v j t (post (port i) (reply c m.packet m.sender n)) ≤ token port v j t m
  unfolding tokens token post reply granted reset_election_timer choose
  reply-token c n m i v j t kind own from to term = elim (Bool-cases n.connected) [
    | inl on ↦
        rw (on, kind, own, from, to, term)
          (omega (arith, choose_le i v m.packet.src_id j n.current_term t))
    | inr off ↦ rw off (omega arith)
  ]

pub All-remove :
    {A : Type 0} (P : A → Type 0) (xs : List A) (m : A) (ys : List A)
    → All P (xs ++ (m ∷ ys))
    → P m × All P (xs ++ ys)
All-remove P [] m ys h = h
All-remove P (x ∷ xs) m ys h = let (q, rest) = All-remove P xs m ys h.1 in (q, (h.0, rest))

module _ (ids : List ℕ) (port : ℕ → ℕ) (injective : (a b : ℕ) → port a ≡ port b → a ≡ b)
    (distinct : IsDistinct ids) (h : History) (l : Counted) (i : ℕ) (n : RaftNode) (c : Clock)
    (xs : List Datagram) (m : Datagram) (ys : List Datagram)
    (p : IsSafeAt ids port h l (xs ++ (m ∷ ys)) i n) (member : is_member i ids ≡ true)
    (to : m.target ≡ port i) (honest : All (IsHonest ids port h) (xs ++ (m ∷ ys))) where
  abbrev pub ResultOf : Step → Type 0
  ResultOf r = Settled ids port h i (xs ++ (m ∷ ys)) ((xs ++ ys) ++ post (port i) r.1) r.0

  abbrev pub handled : MessageType → Step
  handled kind = dispatch c m.packet m.sender kind n

  pub IsHonest-m : IsHonest ids port h m
  IsHonest-m = (All-remove (IsHonest ids port h) xs m ys honest).0

  pub IsHonest-rest : All (IsHonest ids port h) (xs ++ ys)
  IsHonest-rest = (All-remove (IsHonest ids port h) xs m ys honest).1

  -- Nothing is sent, and nothing changes for the votes.
  pub silent-Settled :
      (n' : RaftNode) → IsQuiet n n' → IsDurable n' → IsElected n' → ResultOf (n', [])
  unfolding post
  silent-Settled n' q durable elected =
      quiet-Settled ids port h l i n n' (xs ++ (m ∷ ys)) ((xs ++ ys) ++ []) q durable elected
        (λ v j t.
          let a = tokens-remove port v j t xs m ys in
          let b : tokens port v j t ((xs ++ ys) ++ []) ≡ tokens port v j t (xs ++ ys) =
            ap (tokens port v j t) (append-nil (xs ++ ys)) in
          omega arith)
        (rw (append-nil (xs ++ ys)) IsHonest-rest) p
