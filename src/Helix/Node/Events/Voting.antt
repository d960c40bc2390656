-- ===== src/Helix/Node/Events/Voting.antt =====
-- helix_consensus/helix/node.py: the votes that a node gives.
use python_portfolio.Prelude.{
  refl, ℕ, ◌≤◌, ◌≡◌, Bool, true, ◌&&◌, ◌||◌, some, List, [], ◌∷◌, arith, ltb, if◌then◌else◌,
  nat_beq_iff, ◌==◌, nat_eq, bytes_eq, string_eq,
}
use python_portfolio.Helix.Rpc.{Packet, MessageType, vote_req, vote_resp}
use python_portfolio.Helix.Node.{
  RaftNode, Clock, init, start, update_term, dispatch, handle_message, run_loop_round,
  run_heartbeat_task, may_vote,
}
use python_portfolio.Helix.Node.Events.{Event, receive, handle, handle_all}
use python_portfolio.Helix.Node.Events.Durable.{IsDurable, handle-IsDurable, handle_all-IsDurable}
use python_portfolio.Helix.Storage.{Disk}

-- `n'` comes no earlier than `n`: its term is not lower, and within one term a vote stays.
pub record Later (n n' : RaftNode) : Type 0 where
  pub term : n.current_term ≤ n'.current_term
  pub vote :
      (v : ℕ) → n'.current_term ≡ n.current_term → n.voted_for ≡ some v → n'.voted_for ≡ some v

Later-refl : (n : RaftNode) → Later n n
Later-refl n = record { term = omega arith; vote = λ v e h. h }

Later-trans : {a b c : RaftNode} → Later a b → Later b c → Later a c
Later-trans {a} {b} {c} p q = record {
  term = omega (arith, p.term, q.term);
  vote = λ v e h.
      q.vote v (omega (arith, p.term, q.term)) (p.vote v (omega (arith, p.term, q.term)) h);
}

module _ (c : Clock) (pkg : Packet) (addr : ℕ) (n : RaftNode) where
  update_term-Later : Later n (update_term c pkg n)
  unfolding update_term
  update_term-Later = record { term = ground arith; vote = λ v e h. ground arith }

  dispatch-Later : (t : MessageType) → Later n (dispatch c pkg addr t n).0
  unfolding dispatch
  dispatch-Later vote_req = record {
    term = ground arith;
    vote = λ v e h. ground (arith, nat_beq_iff v pkg.src_id);
  }
  dispatch-Later t = record { term = ground arith; vote = λ v e h. ground arith }

handle_message-Later :
    (c : Clock) (pkg : Packet) (addr : ℕ) (n : RaftNode) → Later n (handle_message c pkg addr n).0
unfolding handle_message
handle_message-Later c pkg addr n =
    Later-trans (update_term-Later c pkg addr n)
      (dispatch-Later c pkg addr (update_term c pkg n) pkg.msg_type)

handle-Later : (e : Event) (n : RaftNode) → IsDurable n → Later n (handle e n).0
unfolding handle run_loop_round run_heartbeat_task start init
handle-Later (receive c pkg addr) n d = handle_message-Later c pkg addr n
handle-Later e n d = record { term = ground arith; vote = λ v p h. ground arith }

handle_all-Later : (es : List Event) (n : RaftNode) → IsDurable n → Later n (handle_all es n)
unfolding handle_all
handle_all-Later [] n d = Later-refl n
handle_all-Later (e ∷ es) n d =
    Later-trans (handle-Later e n d) (handle_all-Later es (handle e n).0 (handle-IsDurable e n d))

module _ (node_id : ℕ) (peers : List (ℕ × ℕ)) (disk : Disk) where
  -- A node that has been started from any state file and has seen any events.
  abbrev pub reached : List Event → RaftNode
  reached es = handle_all es (init node_id peers disk)

  reached-IsDurable : (es : List Event) → IsDurable (reached es)
  unfolding init
  reached-IsDurable es = handle_all-IsDurable es (init node_id peers disk) refl

  -- Once a node has given its vote, it is still its vote after any further events, crashes and restarts
  -- among them, after which its term is the same: it votes at most once in a term.
  pub vote_kept :
      (es more : List Event) (v : ℕ)
      → (reached es).voted_for ≡ some v
      → (handle_all more (reached es)).current_term ≡ (reached es).current_term
      → (handle_all more (reached es)).voted_for ≡ some v
  vote_kept es more v voted same =
      (handle_all-Later more (reached es) (reached-IsDurable es)).vote v same voted

  -- No event lowers the term of a node, a restart included.
  pub term_never_falls :
      (es more : List Event)
      → (reached es).current_term ≤ (handle_all more (reached es)).current_term
  term_never_falls es more = (handle_all-Later more (reached es) (reached-IsDurable es)).term

-- The rule of the election: a vote goes to the first that asks for it in its term.
abbrev pub grants : RaftNode → Packet → Bool
grants n pkg =
    ltb n.current_term pkg.term || (n.current_term == pkg.term && may_vote n.voted_for pkg.src_id)

-- A vote request is answered, with one vote of the request's term to the sender's address, exactly
-- by the rule `grants` on the node as it was; then the node holds that vote and that term, and
-- otherwise its vote and its term stay.
pub vote_request_answer :
    (c : Clock) (pkg : Packet) (addr : ℕ) (n : RaftNode)
    → pkg.msg_type ≡ vote_req
    → n.connected ≡ true
    → let (n', sent) = handle_message c pkg addr n in
      (sent ≡ (
        if grants n pkg
        then record {
          port = addr;
          packet = record {
            msg_type = vote_resp;
            term = pkg.term;
            src_id = n.node_id;
            payload = [];
          };
        }
          ∷ []
        else []))
      × (n'.voted_for ≡ (if grants n pkg then some pkg.src_id else n.voted_for))
      × (n'.current_term ≡ (if grants n pkg then pkg.term else n.current_term))
unfolding handle_message dispatch update_term
vote_request_answer c pkg addr n t h = rw t (ground arith)
