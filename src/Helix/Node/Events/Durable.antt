-- ===== src/Helix/Node/Events/Durable.antt =====
-- helix_consensus/helix/node.py and storage.py: a node's memory and its state file.
use python_portfolio.Prelude.{
  ℕ, ◌+◌, ◌≡◌, refl, ap, Option, none, some, List, [], ◌∷◌, arith, nat_eq, bytes_eq, string_eq,
}
use python_portfolio.Helix.Storage.{Disk, load_state}
use python_portfolio.Helix.Storage.Crash.{load_state-save_state}
use python_portfolio.Helix.Rpc.{Packet, MessageType, vote_req}
use python_portfolio.Helix.Node.{
  RaftNode, Clock, init, start, update_term, dispatch, handle_message, run_loop_round,
  run_heartbeat_task,
}
use python_portfolio.Helix.Node.Events.{Event, receive, round, restart, handle, handle_all}

abbrev pub IsDurable : RaftNode → Type 0
IsDurable n = load_state n.storage ≡ (n.current_term, n.voted_for)

module _ (c : Clock) (pkg : Packet) (addr : ℕ) (n : RaftNode) where
  pub update_term-IsDurable : IsDurable n → IsDurable (update_term c pkg n)
  unfolding update_term
  update_term-IsDurable d = ground (arith, load_state-save_state n.storage pkg.term none)

  pub dispatch-IsDurable : (t : MessageType) → IsDurable n → IsDurable (dispatch c pkg addr t n).0
  unfolding dispatch
  dispatch-IsDurable vote_req d =
      ground (arith, load_state-save_state n.storage n.current_term (some pkg.src_id))
  dispatch-IsDurable t d = ground arith

handle_message-IsDurable :
    (c : Clock) (pkg : Packet) (addr : ℕ) (n : RaftNode)
    → IsDurable n
    → IsDurable (handle_message c pkg addr n).0
unfolding handle_message
handle_message-IsDurable c pkg addr n d =
    dispatch-IsDurable c pkg addr (update_term c pkg n) pkg.msg_type
      (update_term-IsDurable c pkg addr n d)

pub handle-IsDurable : (e : Event) (n : RaftNode) → IsDurable n → IsDurable (handle e n).0
unfolding handle run_loop_round run_heartbeat_task start init
handle-IsDurable (receive c pkg addr) n d = handle_message-IsDurable c pkg addr n d
handle-IsDurable (round c) n d =
    ground (arith, load_state-save_state n.storage (n.current_term + 1) (some n.node_id))
handle-IsDurable e n d = ground arith

pub handle_all-IsDurable :
    (es : List Event) (n : RaftNode) → IsDurable n → IsDurable (handle_all es n)
unfolding handle_all
handle_all-IsDurable [] n d = d
handle_all-IsDurable (e ∷ es) n d = handle_all-IsDurable es (handle e n).0 (handle-IsDurable e n d)

-- After any events, a node that is started anew from its state file has the term and the vote that
-- it had before.
pub restart_keeps_vote :
    (node_id : ℕ) (peers : List (ℕ × ℕ)) (disk : Disk) (es : List Event)
    → let n = handle_all es (init node_id peers disk) in
      ((handle restart n).0.current_term ≡ n.current_term)
      × ((handle restart n).0.voted_for ≡ n.voted_for)
unfolding handle init
restart_keeps_vote node_id peers disk es =
    let d = handle_all-IsDurable es (init node_id peers disk) refl in
    (ap (λ (p : ℕ × Option ℕ). p.0) d, ap (λ (p : ℕ × Option ℕ). p.1) d)
