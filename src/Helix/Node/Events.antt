-- ===== src/Helix/Node/Events.antt =====
-- What can happen to a node of helix_consensus/helix/node.py, as one type of events.
pub mod Voting
pub mod Durable
pub mod Election
use python_portfolio.Prelude.{
  ℕ, zero, suc, ◌+◌, ◌-◌, ◌*◌, ◌/◌, ◌%◌, ◌^◌, ◌≤◌, ◌<◌, ◌≡◌, refl, sym, ap, ◌∙◌, ◌≢◌, ◌↔◌, ◌⊎◌, inl,
  inr, Bool, true, false, not, ◌&&◌, ◌||◌, Option, none, some, List, [], ◌∷◌, ◌++◌, map,
  append_assoc, append-nil, arith, String, length, get_elem?, set, take, drop, replicate,
  length-append, length-take, length-drop, length-replicate, take-append, drop-append,
  take-append-drop, take_all, All, All-append, All-take, All-drop, take_add, take-nil, any, Result,
  ok, err, ◌>>=◌, ◌>>◌, guard, or_raise, and_then, ℤ, pos, negsuc, ◌+ℤ◌, ◌-ℤ◌, ◌*ℤ◌, int_beq, ltb,
  leb, if◌then◌else◌, nat_beq, nat_beq_iff, nat_beq_refl, ltb→lt, lt→ltb, le→ltb, leb→le, le→leb,
  Bool-cases, Eq, ◌==◌, nat_eq, bytes_eq, string_eq, beq_refl, beq_ne, Bytes, to_be, from_be,
  from_be-to_be, length-to_be, to_be-from_be, from_be-lt, bytes_beq_iff, get_elem?-append_left,
  get_elem?-append_at, get_elem?-lt, length-set,
}
use python_portfolio.Helix.Rpc.{Packet, pack, unpack}
use python_portfolio.Helix.Rpc.RoundTrip.{unpack-pack}
use python_portfolio.Helix.Node.{
  RaftNode, Clock, Step, init, start, run_heartbeat_task, run_loop_round, handle_message,
  datagram_received,
}

-- A message that has been read, a round of the main loop, a scheduled heartbeat, the start, and a
-- crash with a restart from the state file.
pub data Event : Type 0 where
  receive : Clock → Packet → ℕ → Event
  round : Clock → Event
  heartbeat : Event
  startup : Clock → Event
  restart : Event

unfoldable pub handle : Event → RaftNode → Step
handle (receive c pkg addr) n = handle_message c pkg addr n
handle (round c) n = run_loop_round c n
handle heartbeat n = run_heartbeat_task n
handle (startup c) n = (start c n, [])
handle restart n = (init n.node_id n.peers n.storage, [])

unfoldable pub handle_all : List Event → RaftNode → RaftNode
handle_all [] n = n
handle_all (e ∷ es) n = handle_all es (handle e n).0

-- A datagram that holds what `pack` wrote for a packet, with or without bytes behind it, is that
-- packet to the receiving node.
pub datagram_received-pack :
    (c : Clock) (p : Packet) (rest : Bytes) (addr : ℕ) (n : RaftNode) {bytes : Bytes}
    → pack p ≡ some bytes
    → datagram_received c (bytes ++ rest) addr n ≡ handle_message c p addr n
unfolding datagram_received
datagram_received-pack c p rest addr n h = ground (arith, unpack-pack p rest h)
