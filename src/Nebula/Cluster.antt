-- ===== src/Nebula/Cluster.antt =====
-- nebula_graph/cluster/raft.py: one node of the cluster. The main loop sleeps inside an election, and a
-- message may come in between, so that the end of the election is an event of its own.
use python_portfolio.Prelude.{
  ℕ, ◌+◌, ◌≤◌, ◌<◌, ◌≡◌, refl, ap, ◌∙◌, ◌≢◌, Bool, true, false, not, ◌&&◌, Option, none, some, List,
  [], ◌∷◌, arith, length, ltb, if◌then◌else◌, lt→ltb, ◌==◌, nat_eq, bytes_eq, string_eq,
}
use python_portfolio.Nebula.Primitives.{Text}

pub data RaftState : Type 0 where
  follower candidate leader : RaftState

pub data MessageType : Type 0 where
  vote_req vote_resp append_req append_resp : MessageType

pub record RaftMessage : Type 0 where
  pub term : ℕ
  pub src_id : Text
  pub msg_type : MessageType

pub record RaftNode : Type 0 where
  pub node_id : Text
  pub peers : List Text
  pub current_term : ℕ
  pub voted_for : Option Text
  pub state : RaftState
  pub leader_id : Option Text
  pub votes_received : ℕ
  pub last_heartbeat : ℕ
  pub election_deadline : ℕ
  -- the main loop is in the sleep of _become_candidate
  pub electing : Bool

-- time.time() and the next random.uniform, in one unit of time.
pub record Clock : Type 0 where
  pub now : ℕ
  pub timeout : ℕ

-- __init__
unfoldable pub init : Text → List Text → Clock → RaftNode
init node_id peers c = record {
  node_id = node_id;
  peers = peers;
  current_term = 0;
  voted_for = none;
  state = follower;
  leader_id = none;
  votes_received = 0;
  last_heartbeat = c.now;
  election_deadline = c.now + c.timeout;
  electing = false;
}

-- _become_candidate up to its sleep
unfoldable pub become_candidate : Clock → RaftNode → RaftNode
become_candidate c n = record n {
  state = candidate;
  current_term = n.current_term + 1;
  voted_for = some n.node_id;
  votes_received = 1;
  election_deadline = c.now + c.timeout;
  electing = true;
}

-- _become_leader
unfoldable pub become_leader : RaftState → RaftNode → RaftNode
become_leader candidate n = record n { state = leader; leader_id = some n.node_id }
become_leader _ n = n

-- The rest of _become_candidate
unfoldable pub finish_election : RaftNode → RaftNode
unfolding become_leader
finish_election n =
    let awake : RaftNode = record n { electing = false } in
    if n.electing then (if length n.peers == 0 then become_leader n.state awake else awake) else n

-- A round of _main_loop: a candidate does nothing, and a leader's heartbeat is empty.
unfoldable pub main_loop_round : RaftState → Clock → RaftNode → RaftNode
unfolding become_candidate
main_loop_round follower c n =
    if not n.electing && ltb n.election_deadline c.now then become_candidate c n else n
main_loop_round _ c n = n

-- on_message, its first part
unfoldable pub step_down : RaftMessage → RaftNode → RaftNode
step_down msg n =
    if ltb n.current_term msg.term
    then record n { current_term = msg.term; state = follower; voted_for = none; leader_id = none }
    else n

unfoldable pub on_append : MessageType → Clock → RaftMessage → RaftNode → RaftNode
on_append append_req c msg n = record n {
  last_heartbeat = c.now;
  election_deadline = c.now + c.timeout;
  leader_id = some msg.src_id;
}
on_append _ c msg n = n

-- on_message
unfoldable pub on_message : Clock → RaftMessage → RaftNode → RaftNode
unfolding step_down on_append
on_message c msg n = on_append msg.msg_type c msg (step_down msg n)

pub data Event : Type 0 where
  round : Clock → Event
  end_of_election : Event
  receive : Clock → RaftMessage → Event

unfoldable pub handle : Event → RaftNode → RaftNode
unfolding main_loop_round finish_election on_message
handle (round c) n = main_loop_round n.state c n
handle end_of_election n = finish_election n
handle (receive c msg) n = on_message c msg n

unfoldable pub handle_all : List Event → RaftNode → RaftNode
unfolding handle
handle_all [] n = n
handle_all (e ∷ es) n = handle_all es (handle e n)

-- What a node with a peer keeps: its peers, and that it does not lead; its term does not fall.
record Follows (n n' : RaftNode) : Type 0 where
  same_peers : n'.peers ≡ n.peers
  no_leader : n'.state ≢ leader
  later : n.current_term ≤ n'.current_term

round-Follows :
    (s : RaftState) (c : Clock) (n : RaftNode)
    → n.state ≡ s
    → n.state ≢ leader
    → Follows n (main_loop_round s c n)
unfolding main_loop_round become_candidate
round-Follows follower c n e h = record {
  same_peers = ground arith;
  no_leader = ground arith;
  later = ground arith;
}
round-Follows candidate c n e h = record { same_peers = refl; no_leader = h; later = omega arith }
round-Follows leader c n e h = record { same_peers = refl; no_leader = h; later = omega arith }

on_append-Follows :
    (t : MessageType) (c : Clock) (msg : RaftMessage) (n : RaftNode)
    → n.state ≢ leader
    → Follows n (on_append t c msg n)
unfolding on_append
on_append-Follows t c msg n h = record {
  same_peers = ground arith;
  no_leader = ground arith;
  later = ground arith;
}

step_down-Follows :
    (msg : RaftMessage) (n : RaftNode) → n.state ≢ leader → Follows n (step_down msg n)
unfolding step_down
step_down-Follows msg n h = record {
  same_peers = ground arith;
  no_leader = ground arith;
  later = ground arith;
}

Follows-trans : {a b c : RaftNode} → Follows a b → Follows b c → Follows a c
Follows-trans p q = record {
  same_peers = q.same_peers ∙ p.same_peers;
  no_leader = q.no_leader;
  later = omega (arith, p.later, q.later);
}

on_message-Follows :
    (c : Clock) (msg : RaftMessage) (n : RaftNode)
    → n.state ≢ leader
    → Follows n (on_message c msg n)
unfolding on_message
on_message-Follows c msg n h =
    let first = step_down-Follows msg n h in
    Follows-trans first (on_append-Follows msg.msg_type c msg (step_down msg n) first.no_leader)

handle-Follows :
    (e : Event) (n : RaftNode) → 0 < length n.peers → n.state ≢ leader → Follows n (handle e n)
unfolding handle finish_election
handle-Follows (round c) n p h = round-Follows n.state c n refl h
handle-Follows end_of_election n p h = record {
  same_peers = ground arith;
  no_leader = ground arith;
  later = ground arith;
}
handle-Follows (receive c msg) n p h = on_message-Follows c msg n h

-- A node that has a peer and is not the leader never becomes the leader, whatever happens to it and in
-- whatever order, since a vote is neither asked for nor counted; its term does not fall.
pub handle_all_never_leads :
    (es : List Event) (n : RaftNode)
    → 0 < length n.peers
    → n.state ≢ leader
    → ((handle_all es n).state ≢ leader) × (n.current_term ≤ (handle_all es n).current_term)
unfolding handle_all
handle_all_never_leads [] n p h = (h, omega arith)
handle_all_never_leads (e ∷ es) n p h =
    let step = handle-Follows e n p h in
    let (rest, later) =
      handle_all_never_leads es (handle e n) (omega (arith, p, ap length step.same_peers))
        step.no_leader in
    (rest, omega (arith, later, step.later))

-- A follower with no peers whose deadline has passed, in a round and the end of the sleep in it, becomes
-- the leader of the next term.
pub alone_leads :
    (c : Clock) (n : RaftNode)
    → n.peers ≡ []
    → n.state ≡ follower
    → n.electing ≡ false
    → n.election_deadline < c.now
    → let n' = handle_all (round c ∷ end_of_election ∷ []) n in
      (n'.state ≡ leader) × (n'.current_term ≡ n.current_term + 1) × (n'.leader_id ≡ some n.node_id)
unfolding handle_all handle main_loop_round become_candidate finish_election become_leader
alone_leads c n p s e late = rw (s, e, lt→ltb n.election_deadline c.now late, p) (refl, refl, refl)
