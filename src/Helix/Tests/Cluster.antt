-- ===== src/Helix/Tests/Cluster.antt =====
-- helix_consensus/simulation.py: an election in a cluster of three nodes.
use python_portfolio.Prelude.{
  ℕ, ◌+◌, ◌≡◌, refl, ◌≢◌, true, none, List, [], ◌∷◌, ◌++◌, arith, nat_eq, bytes_eq, string_eq,
}
use python_portfolio.Helix.Rpc.{vote_resp}
use python_portfolio.Helix.Storage.{Disk, load_state}
use python_portfolio.Helix.Node.{
  Clock, leader, handle_message, dispatch, handle_vote_request, handle_vote_response,
  run_loop_round, update_term, become_candidate, start, reset_election_timer, init, broadcast,
  send_each,
}
use python_portfolio.Helix.Node.Events.{Event, receive, round, startup, handle}
use python_portfolio.Helix.Cluster.{
  Datagram, Cluster, is_member, launch, my_peers, replaced, post, Reach, begin, then_step, act,
  deliver,
}
use python_portfolio.Helix.Cluster.Tokens.{IsDistinct, vote_request}
use python_portfolio.Helix.Cluster.Safety.{one_leader}

abbrev clock : Clock
clock = record { now = 100; timeout = 20 }

-- Nodes 1, 2 and 3 on their ports. Node 1 times out, asks for votes, and gets that of node 2.
abbrev members : List ℕ
members = 1 ∷ 2 ∷ 3 ∷ []

abbrev port_of : ℕ → ℕ
port_of i = 9000 + i

port_of_injective : (a b : ℕ) → port_of a ≡ port_of b → a ≡ b
port_of_injective a b h = omega arith

members-IsDistinct : IsDistinct members
unfolding is_member
members-IsDistinct = (refl, (refl, (refl, tt)))

abbrev blank : ℕ → Disk
blank i = record { path = none; temp_path = none }

abbrev asked : ℕ → Datagram
asked i = record { sender = 9001; target = port_of i; packet = vote_request 1 1 }

abbrev answered : Datagram
answered = record {
  sender = 9002;
  target = 9001;
  packet = record { msg_type = vote_resp; term = 1; src_id = 2; payload = [] };
}

abbrev acted : Cluster → ℕ → Event → Cluster
acted s i e = record {
  nodes = replaced s.nodes i (handle e (s.nodes i)).0;
  network = s.network ++ post (port_of i) (handle e (s.nodes i)).1;
}

abbrev delivered : Cluster → ℕ → List Datagram → Datagram → List Datagram → Cluster
delivered s i before m after = record {
  nodes = replaced s.nodes i (handle (receive clock m.packet m.sender) (s.nodes i)).0;
  network =
      (before ++ after)
      ++ post (port_of i) (handle (receive clock m.packet m.sender) (s.nodes i)).1;
}

abbrev started : Cluster
started = acted (acted (launch members port_of blank) 1 (startup clock)) 2 (startup clock)

abbrev timed_out : Cluster
timed_out = acted started 1 (round (record { now = 200; timeout = 20 }))

abbrev voted_for_1 : Cluster
voted_for_1 = delivered timed_out 2 [] (asked 2) (asked 3 ∷ [])

abbrev led_by_1 : Cluster
led_by_1 = delivered voted_for_1 1 (asked 3 ∷ []) answered []

run_1 : Reach members port_of (launch members port_of blank) led_by_1
unfolding is_member launch my_peers replaced post handle handle_message dispatch handle_vote_request
    handle_vote_response run_loop_round update_term become_candidate start reset_election_timer init
    load_state broadcast send_each
run_1 =
    then_step
      (then_step
        (then_step
          (then_step (then_step begin (act _ 1 (startup clock) refl refl))
            (act _ 2 (startup clock) refl refl))
          (act _ 1 (round (record { now = 200; timeout = 20 })) refl refl))
        (deliver _ 2 clock [] (asked 2) (asked 3 ∷ []) refl refl refl))
      (deliver _ 1 clock (asked 3 ∷ []) answered [] refl refl refl)

led :
    ((led_by_1.nodes 1).state ≡ leader)
    × ((led_by_1.nodes 2).current_term ≡ (led_by_1.nodes 1).current_term)
unfolding is_member launch my_peers replaced post handle handle_message dispatch handle_vote_request
    handle_vote_response run_loop_round update_term become_candidate start reset_election_timer init
    load_state broadcast send_each
led = (refl, refl)

in_members : (is_member 1 members ≡ true) × (is_member 2 members ≡ true)
unfolding is_member
in_members = (refl, refl)

one_leader_example : (led_by_1.nodes 2).state ≢ leader
one_leader_example =
    one_leader members port_of port_of_injective members-IsDistinct blank led_by_1 run_1 1 2
      in_members.0 in_members.1 (omega arith) led.1 led.0
