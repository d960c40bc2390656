-- ===== src/Helix/Node/Events/Election.antt =====
-- helix_consensus/helix/node.py: how a node becomes the leader, and what its count of votes is worth.
use python_portfolio.Prelude.{
  refl, ℕ, zero, suc, ◌+◌, ◌≤◌, ◌<◌, ◌≡◌, sym, ◌∙◌, ◌≢◌, inl, inr, some, List, [], ◌∷◌, arith,
  replicate, leb, if◌then◌else◌, Bool-cases, nat_eq, bytes_eq, string_eq,
}
use mathlib.Core.Path.{subst}
use python_portfolio.Helix.Rpc.{Packet, MessageType, vote_req, vote_resp}
use python_portfolio.Helix.Node.{
  RaftNode, Clock, follower, candidate, leader, init, start, update_term, dispatch, handle_message,
  run_loop_round, run_heartbeat_task, quorum, handle_vote_response,
}
use python_portfolio.Helix.Storage.{Disk}
use python_portfolio.Helix.Node.Events.{Event, receive, handle, handle_all}

-- A candidate or leader has voted for itself, and a leader has counted a quorum.
pub record IsElected (n : RaftNode) : Type 0 where
  pub own_vote : n.state ≢ follower → n.voted_for ≡ some n.node_id
  pub majority : n.state ≡ leader → quorum n ≤ n.votes_received

module _ (c : Clock) (pkg : Packet) (addr : ℕ) (n : RaftNode) where
  pub update_term-IsElected : IsElected n → IsElected (update_term c pkg n)
  unfolding update_term
  update_term-IsElected v = ground arith

  pub dispatch-IsElected : (t : MessageType) → IsElected n → IsElected (dispatch c pkg addr t n).0
  unfolding dispatch
  dispatch-IsElected vote_req v = ground (arith)
  dispatch-IsElected t v = ground arith

handle_message-IsElected :
    (c : Clock) (pkg : Packet) (addr : ℕ) (n : RaftNode)
    → IsElected n
    → IsElected (handle_message c pkg addr n).0
unfolding handle_message
handle_message-IsElected c pkg addr n v =
    dispatch-IsElected c pkg addr (update_term c pkg n) pkg.msg_type
      (update_term-IsElected c pkg addr n v)

pub handle-IsElected : (e : Event) (n : RaftNode) → IsElected n → IsElected (handle e n).0
unfolding handle run_loop_round run_heartbeat_task start init
handle-IsElected (receive c pkg addr) n v = handle_message-IsElected c pkg addr n v
handle-IsElected e n v = ground arith

handle_all-IsElected : (es : List Event) (n : RaftNode) → IsElected n → IsElected (handle_all es n)
unfolding handle_all
handle_all-IsElected [] n v = v
handle_all-IsElected (e ∷ es) n v = handle_all-IsElected es (handle e n).0 (handle-IsElected e n v)

module _ (node_id : ℕ) (peers : List (ℕ × ℕ)) (disk : Disk) where
  pub init-IsElected : IsElected (init node_id peers disk)
  unfolding init
  init-IsElected = record { own_vote = λ h. absurd (h refl); majority = λ h. ground (arith, h) }

  -- However a node has become the leader, from its start on, it has its own vote in its term, and it has
  -- counted at least as many responses as the quorum, its own vote being the first.
  pub leader_has_quorum :
      (es : List Event)
      → let n = handle_all es (init node_id peers disk) in
        n.state ≡ leader → (quorum n ≤ n.votes_received) × (n.voted_for ≡ some n.node_id)
  leader_has_quorum es led =
      let v = handle_all-IsElected es (init node_id peers disk) init-IsElected in
      (v.majority led, v.own_vote (λ f. ground (arith, led, f)))

module _ (c : Clock) (pkg : Packet) (addr : ℕ) (vote : pkg.msg_type ≡ vote_resp) where
  one_response :
      (n : RaftNode)
      → pkg.term ≡ n.current_term
      → (handle_message c pkg addr n).0 ≡ handle_vote_response pkg n
  unfolding handle_message update_term dispatch
  one_response n t = rw vote (ground arith)

  leader_ignores :
      (n : RaftNode)
      → pkg.term ≡ n.current_term
      → n.state ≡ leader
      → (handle_message c pkg addr n).0 ≡ n
  unfolding handle_vote_response
  leader_ignores n t h = one_response n t ∙ ground arith

  leader_stays :
      (k : ℕ) (n : RaftNode)
      → pkg.term ≡ n.current_term
      → n.state ≡ leader
      → (handle_all (replicate k (receive c pkg addr)) n).state ≡ leader
  unfolding handle_all handle
  leader_stays zero n t h = h
  leader_stays (suc k) n t h =
      subst (λ m. (handle_all (replicate k (receive c pkg addr)) m).state ≡ leader)
        (sym (leader_ignores n t h)) (leader_stays k n t h)

  response_counts :
      (n : RaftNode)
      → pkg.term ≡ n.current_term
      → n.state ≡ candidate
      → let n' = (handle_message c pkg addr n).0 in
        (n'.votes_received ≡ n.votes_received + 1)
        × (n'.current_term ≡ n.current_term)
        × (quorum n' ≡ quorum n)
        × (n'.state ≡ (if leb (quorum n) (n.votes_received + 1) then leader else candidate))
  unfolding handle_vote_response
  response_counts n t h = rw (one_response n t) (ground arith)

-- A response is not remembered by its sender. A candidate that receives one and the same response
-- of its term `k` times, as a network that duplicates datagrams may deliver it, is the leader as
-- soon as its count and `k` together reach the quorum.
pub repeated_response_elects :
    (c : Clock) (pkg : Packet) (addr : ℕ) (k : ℕ) (n : RaftNode)
    → pkg.msg_type ≡ vote_resp
    → pkg.term ≡ n.current_term
    → n.state ≡ candidate
    → n.votes_received < quorum n
    → quorum n ≤ n.votes_received + k
    → (handle_all (replicate k (receive c pkg addr)) n).state ≡ leader
unfolding handle_all handle
repeated_response_elects c pkg addr zero n vote t s few enough = absurd (omega arith)
repeated_response_elects c pkg addr (suc k) n vote t s few enough =
    let (count, term, same, state) = response_counts c pkg addr vote n t s in
    let n' = (handle_message c pkg addr n).0 in
    elim (Bool-cases (leb (quorum n) (n.votes_received + 1))) [
      | inl reached ↦ leader_stays c pkg addr vote k n' (t ∙ sym term) (rw reached at state)
      | inr below ↦
          repeated_response_elects c pkg addr k n' vote (t ∙ sym term) (rw below at state)
            (ground arith) (omega arith)
    ]
