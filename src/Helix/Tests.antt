-- ===== src/Helix/Tests.antt =====
-- helix_consensus/helix at concrete packets, files and runs of events.
mod Cluster
use python_portfolio.Prelude.{
  ◌≤◌, ℕ, ◌^◌, ◌<◌, ◌≡◌, refl, sym, ◌≢◌, ◌↔◌, true, none, some, List, [], ◌∷◌, ◌++◌, arith, length,
  take, drop, replicate, if◌then◌else◌, nat_eq, bytes_eq, string_eq, Bytes, to_be, from_be,
}
use python_portfolio.Struct
use python_portfolio.Helix.Rpc.{
  Packet, vote_req, vote_resp, pack, unpack, value, from_header, message_type,
}
use python_portfolio.Helix.Rpc.RoundTrip.{unpack-pack, pack-unpack, pack_total}
use python_portfolio.Helix.Storage.{Disk, object, load_state}
use python_portfolio.Helix.Storage.Crash.{save_state_atomic, crash_in_save}
use python_portfolio.Helix.Node.{
  RaftNode, Clock, init, candidate, leader, handle_message, quorum, become_candidate, update_term,
  start, dispatch, handle_vote_response, run_loop_round, reset_election_timer,
}
use python_portfolio.Helix.Node.Events.{Event, receive, round, startup, restart, handle, handle_all}
use python_portfolio.Helix.Node.Events.Durable.{restart_keeps_vote}
use python_portfolio.Helix.Node.Events.Voting.{
  vote_kept, term_never_falls, vote_request_answer, grants,
}
use python_portfolio.Helix.Node.Events.Election.{leader_has_quorum, repeated_response_elects}

abbrev ballot : Packet
ballot = record { msg_type = vote_req; term = 7; src_id = 2; payload = 1 ∷ 255 ∷ [] }

abbrev ballot_bytes : Bytes
ballot_bytes =
    72 ∷ 88 ∷ 1 ∷ 0 ∷ 0 ∷ 0 ∷ 0 ∷ 0 ∷ 0 ∷ 0 ∷ 7 ∷ 0 ∷ 0 ∷ 0 ∷ 2 ∷ 0 ∷ 0 ∷ 0 ∷ 2 ∷ 1 ∷ 255 ∷ []

ballot_packed : pack ballot ≡ some ballot_bytes
unfolding pack Struct.pack to_be value
ballot_packed = refl

unpack-pack_example : unpack (ballot_bytes ++ 9 ∷ []) ≡ some ballot
unpack-pack_example = unpack-pack ballot (9 ∷ []) ballot_packed

pack-unpack_example : pack ballot ≡ some (take 21 (ballot_bytes ++ 9 ∷ []))
pack-unpack_example =
    pack-unpack (ballot_bytes ++ 9 ∷ []) ballot (omega arith)
      (unpack-pack ballot (9 ∷ []) ballot_packed)

pack_total_example :
    (pack ballot ≢ none) ↔ ((7 < 2 ^ 64) × (2 < 2 ^ 32) × (length ballot.payload < 2 ^ 32))
pack_total_example = pack_total ballot

-- A truncated datagram and one with another magic number.
unpack_rejects : (unpack (take 20 ballot_bytes) ≡ none) × (unpack (73 ∷ drop 1 ballot_bytes) ≡ none)
unfolding unpack Struct.unpack from_be from_header message_type
unpack_rejects = (refl, refl)

abbrev saved : Disk
saved = record { path = some (object (some 3) (some 1)); temp_path = none }

save_state_atomic_example : load_state (crash_in_save 3 saved 4 none) ≡ load_state saved
save_state_atomic_example = save_state_atomic 3 saved 4 none

abbrev clock : Clock
clock = record { now = 100; timeout = 20 }

abbrev peers : List (ℕ × ℕ)
peers = (2, 9002) ∷ (3, 9003) ∷ (4, 9004) ∷ (5, 9005) ∷ []

abbrev node : RaftNode
node = init 1 peers saved

abbrev vote_of : ℕ → ℕ → Packet
vote_of src term = record { msg_type = vote_resp; term = term; src_id = src; payload = [] }

abbrev election : List Event
election =
    startup clock
    ∷ round (record { now = 200; timeout = 20 })
    ∷ receive clock (vote_of 2 4) 9002
    ∷ receive clock (vote_of 3 4) 9003
    ∷ []

-- Two votes and its own make the leader of five nodes.
elected : (handle_all election node).state ≡ leader
unfolding handle_all handle handle_message dispatch handle_vote_response run_loop_round update_term
    become_candidate start reset_election_timer init load_state
elected = refl

restart_keeps_vote_example :
    ((handle restart (handle_all election node)).0.current_term
      ≡ (handle_all election node).current_term)
    × ((handle restart (handle_all election node)).0.voted_for
        ≡ (handle_all election node).voted_for)
restart_keeps_vote_example = restart_keeps_vote 1 peers saved election

voted : (handle_all election node).voted_for ≡ some 1
unfolding handle_all handle handle_message dispatch handle_vote_response run_loop_round update_term
    become_candidate start reset_election_timer init load_state
voted = refl

same_term :
    (handle_all (restart ∷ []) (handle_all election node)).current_term
    ≡ (handle_all election node).current_term
unfolding handle_all
same_term = (restart_keeps_vote 1 peers saved election).0

vote_kept_example : (handle_all (restart ∷ []) (handle_all election node)).voted_for ≡ some 1
vote_kept_example = vote_kept 1 peers saved election (restart ∷ []) 1 voted same_term

term_never_falls_example :
    (handle_all election node).current_term
    ≤ (handle_all (restart ∷ []) (handle_all election node)).current_term
term_never_falls_example = term_never_falls 1 peers saved election (restart ∷ [])

leader_has_quorum_example :
    (quorum (handle_all election node) ≤ (handle_all election node).votes_received)
    × ((handle_all election node).voted_for ≡ some (handle_all election node).node_id)
leader_has_quorum_example = leader_has_quorum 1 peers saved election elected

abbrev started : RaftNode
started = start clock node

started_connected : started.connected ≡ true
unfolding start
started_connected = refl

vote_request_answer_example :
    let (n', sent) = handle_message clock ballot 9002 started in
    (sent ≡ (
      if grants started ballot
      then record {
        port = 9002;
        packet = record { msg_type = vote_resp; term = 7; src_id = started.node_id; payload = [] };
      }
        ∷ []
      else []))
    × (n'.voted_for ≡ (if grants started ballot then some 2 else started.voted_for))
    × (n'.current_term ≡ (if grants started ballot then 7 else started.current_term))
vote_request_answer_example = vote_request_answer clock ballot 9002 started refl started_connected

abbrev asking : RaftNode
asking = (become_candidate clock node).0

asking_facts :
    (asking.current_term ≡ 4)
    × (asking.state ≡ candidate)
    × (asking.votes_received ≡ 1)
    × (quorum asking ≡ 3)
unfolding become_candidate reset_election_timer init load_state
asking_facts = (refl, refl, refl, refl)

repeated_response_elects_example :
    (handle_all (replicate 2 (receive clock (vote_of 2 4) 9002)) asking).state ≡ leader
repeated_response_elects_example =
    repeated_response_elects clock (vote_of 2 4) 9002 2 asking refl (sym asking_facts.0)
      asking_facts.1 (omega (arith, asking_facts)) (omega (arith, asking_facts))
