-- ===== src/Helix/Node.antt =====
-- helix_consensus/helix/node.py: one node of the election. A handler takes the node, what it reads
-- of the clock and of `random.uniform`, and its argument; it returns the node and what it sends.
pub mod Events
use python_portfolio.Prelude.{
  ℕ, zero, suc, ◌+◌, ◌-◌, ◌*◌, ◌/◌, ◌%◌, ◌^◌, ◌≤◌, ◌<◌, ◌≡◌, refl, sym, ap, ◌∙◌, ◌≢◌, ◌↔◌, ◌⊎◌, inl,
  inr, Bool, true, false, not, ◌&&◌, ◌||◌, Option, none, some, List, [], ◌∷◌, ◌++◌, map,
  append_assoc, append-nil, arith, String, length, get_elem?, set, take, drop, replicate,
  length-append, length-take, length-drop, length-replicate, take-append, drop-append,
  take-append-drop, take_all, All, All-append, All-take, All-drop, take_add, any, Result, ok, err,
  ◌>>=◌, ◌>>◌, guard, or_raise, and_then, ℤ, pos, negsuc, ◌+ℤ◌, ◌-ℤ◌, ◌*ℤ◌, int_beq, ltb, leb,
  if◌then◌else◌, nat_beq, nat_beq_iff, nat_beq_refl, ltb→lt, lt→ltb, le→ltb, leb→le, le→leb,
  Bool-cases, Eq, ◌==◌, nat_eq, bytes_eq, string_eq, beq_refl, beq_ne, Bytes, to_be, from_be,
  from_be-to_be, length-to_be, to_be-from_be, from_be-lt, bytes_beq_iff, get_elem?-append_left,
  get_elem?-append_at, get_elem?-lt, length-set,
}
use python_portfolio.Prelude.Dict
use python_portfolio.Prelude.Dict.{Dict}
use python_portfolio.Helix.Rpc.{
  MessageType, vote_req, vote_resp, append_req, append_resp, Packet, unpack,
}
use python_portfolio.Helix.Storage.{Disk, save_state, load_state}

pub data NodeState : Type 0 where
  follower candidate leader : NodeState

pub record RaftNode : Type 0 where
  pub node_id : ℕ
  pub peers : Dict ℕ ℕ
  pub storage : Disk
  pub state : NodeState
  pub current_term : ℕ
  pub voted_for : Option ℕ
  pub votes_received : ℕ
  pub leader_id : Option ℕ
  pub election_deadline : ℕ
  -- `self.transport` is set
  pub connected : Bool
  -- heartbeats handed to asyncio.create_task that have not run
  pub heartbeat_tasks : ℕ

-- time.time() and the next random.uniform(1.5, 3.0), in one unit of time.
pub record Clock : Type 0 where
  pub now : ℕ
  pub timeout : ℕ

-- transport.sendto(packet.pack(), ('127.0.0.1', port))
pub record Send : Type 0 where
  pub port : ℕ
  pub packet : Packet

abbrev pub Step : Type 0
Step = RaftNode × List Send

-- __init__, which reads what an earlier run of the node has saved
unfoldable pub init : ℕ → Dict ℕ ℕ → Disk → RaftNode
init node_id peers disk = record {
  node_id = node_id;
  peers = peers;
  storage = disk;
  state = follower;
  current_term = (load_state disk).0;
  voted_for = (load_state disk).1;
  votes_received = 0;
  leader_id = none;
  election_deadline = 0;
  connected = false;
  heartbeat_tasks = 0;
}

unfoldable pub reset_election_timer : Clock → RaftNode → RaftNode
reset_election_timer c n = record n { election_deadline = c.now + c.timeout }

-- connection_made, and `start`
unfoldable pub start : Clock → RaftNode → RaftNode
unfolding reset_election_timer
start c n = reset_election_timer c (record n { connected = true })

abbrev pub message : RaftNode → MessageType → Packet
message n t = record { msg_type = t; term = n.current_term; src_id = n.node_id; payload = [] }

unfoldable pub send_each : Dict ℕ ℕ → Packet → List Send
send_each [] p = []
send_each ((_, port) ∷ peers) p = record { port = port; packet = p } ∷ send_each peers p

unfoldable pub broadcast : RaftNode → Packet → List Send
unfolding send_each
broadcast n p = if n.connected then send_each n.peers p else []

unfoldable pub broadcast_heartbeat : RaftNode → Step
unfolding broadcast
broadcast_heartbeat n = (n, broadcast n (message n append_req))

-- The task that a new leader has scheduled, when the event loop gets to it.
unfoldable pub run_heartbeat_task : RaftNode → Step
unfolding broadcast_heartbeat
run_heartbeat_task n =
    if ltb 0 n.heartbeat_tasks
    then broadcast_heartbeat (record n { heartbeat_tasks = n.heartbeat_tasks - 1 })
    else (n, [])

unfoldable pub become_candidate : Clock → RaftNode → Step
unfolding reset_election_timer broadcast
become_candidate c n =
    let n' = reset_election_timer c (record n {
      state = candidate;
      current_term = n.current_term + 1;
      voted_for = some n.node_id;
      votes_received = 1;
      storage = save_state n.storage (n.current_term + 1) (some n.node_id);
    }) in
    (n', broadcast n' (message n' vote_req))

abbrev pub is_leader : NodeState → Bool
is_leader leader = true
is_leader _ = false

abbrev pub is_candidate : NodeState → Bool
is_candidate candidate = true
is_candidate _ = false

-- One round of `run_loop`, between two of its sleeps.
unfoldable pub run_loop_round : Clock → RaftNode → Step
unfolding become_candidate broadcast_heartbeat
run_loop_round c n =
    if is_leader n.state
    then broadcast_heartbeat n
    else if ltb n.election_deadline c.now
    then become_candidate c n
    else (n, [])

-- The first part of `handle_message`: a higher term makes a follower.
unfoldable pub update_term : Clock → Packet → RaftNode → RaftNode
unfolding reset_election_timer
update_term c pkg n =
    if ltb n.current_term pkg.term
    then reset_election_timer c (record n {
      current_term = pkg.term;
      state = follower;
      voted_for = none;
      leader_id = none;
      storage = save_state n.storage pkg.term none;
    })
    else n

-- `self.voted_for is None or self.voted_for == pkg.src_id`
abbrev pub may_vote : Option ℕ → ℕ → Bool
may_vote none src = true
may_vote (some v) src = v == src

unfoldable pub handle_vote_request : Clock → Packet → ℕ → RaftNode → Step
unfolding reset_election_timer
handle_vote_request c pkg addr n =
    if leb n.current_term pkg.term && may_vote n.voted_for pkg.src_id
    then (let n' = reset_election_timer c (record n {
      voted_for = some pkg.src_id;
      storage = save_state n.storage n.current_term (some pkg.src_id);
    }) in
        (
          n',
          if n.connected then record { port = addr; packet = message n' vote_resp } ∷ [] else [],
        ))
    else (n, [])

abbrev pub quorum : RaftNode → ℕ
quorum n = (length n.peers + 1) / 2 + 1

unfoldable pub handle_vote_response : Packet → RaftNode → RaftNode
handle_vote_response pkg n =
    if is_candidate n.state && pkg.term == n.current_term
    then if leb (quorum n) (n.votes_received + 1)
      then record n {
        votes_received = n.votes_received + 1;
        state = leader;
        leader_id = some n.node_id;
        heartbeat_tasks = n.heartbeat_tasks + 1;
      }
      else record n { votes_received = n.votes_received + 1 }
    else n

unfoldable pub handle_append_entries : Clock → Packet → RaftNode → RaftNode
unfolding reset_election_timer
handle_append_entries c pkg n =
    if leb n.current_term pkg.term
    then reset_election_timer c (record n { state = follower; leader_id = some pkg.src_id })
    else n

-- The second part of `handle_message`.
unfoldable pub dispatch : Clock → Packet → ℕ → MessageType → RaftNode → Step
unfolding handle_vote_request handle_vote_response handle_append_entries
dispatch c pkg addr vote_req n = handle_vote_request c pkg addr n
dispatch c pkg addr vote_resp n = (handle_vote_response pkg n, [])
dispatch c pkg addr append_req n = (handle_append_entries c pkg n, [])
dispatch c pkg addr append_resp n = (n, [])

unfoldable pub handle_message : Clock → Packet → ℕ → RaftNode → Step
unfolding update_term dispatch
handle_message c pkg addr n = dispatch c pkg addr pkg.msg_type (update_term c pkg n)

-- RaftProtocol.datagram_received
unfoldable pub datagram_received : Clock → Bytes → ℕ → RaftNode → Step
unfolding handle_message
datagram_received c bytes addr n = elim (unpack bytes) [
  | none ↦ (n, [])
  | some pkg ↦ handle_message c pkg addr n
]
