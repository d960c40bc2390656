-- ===== src/Helix/Cluster.antt =====
-- helix_consensus/simulation.py and helix/node.py: the nodes of a cluster, and the datagrams between
-- them, each of which the network delivers at most once, in any order, or loses.
pub mod Tokens
pub mod Votes
pub mod Changes
pub mod Delivery
pub mod Ballots
pub mod Calls
pub mod Acts
pub mod Safety
use python_portfolio.Prelude.{
  ℕ, ◌+◌, ◌≡◌, Bool, true, false, List, [], ◌∷◌, ◌++◌, arith, any, if◌then◌else◌, nat_beq, nat_eq,
  bytes_eq, string_eq,
}
use python_portfolio.Prelude.Dict.{Dict}
use python_portfolio.Helix.Rpc.{Packet}
use python_portfolio.Helix.Storage.{Disk}
use python_portfolio.Helix.Node.{RaftNode, Clock, Send, init}
use python_portfolio.Helix.Node.Events.{Event, receive, round, heartbeat, startup, restart, handle}

-- A datagram on its way: the port that it came from and the one that it goes to.
pub record Datagram : Type 0 where
  pub sender : ℕ
  pub target : ℕ
  pub packet : Packet

pub record Cluster : Type 0 where
  pub nodes : ℕ → RaftNode
  pub network : List Datagram

-- i in ids
unfoldable pub is_member : ℕ → List ℕ → Bool
is_member i [] = false
is_member i (j ∷ js) = if nat_beq j i then true else is_member i js

abbrev pub is_received : Event → Bool
is_received (receive c pkg addr) = true
is_received _ = false

unfoldable pub replaced : (ℕ → RaftNode) → ℕ → RaftNode → ℕ → RaftNode
replaced nodes i n j = if nat_beq j i then n else nodes j

-- transport.sendto, from the port of the node
unfoldable pub post : ℕ → List Send → List Datagram
post sender [] = []
post sender (m ∷ ms) =
    record { sender = sender; target = m.port; packet = m.packet } ∷ post sender ms

-- {pid: p for pid, p in peers_map.items() if pid != node_id}
unfoldable pub my_peers : (ℕ → ℕ) → List ℕ → ℕ → Dict ℕ ℕ
my_peers port [] i = []
my_peers port (j ∷ js) i =
    let rest = my_peers port js i in if nat_beq j i then rest else (j, port j) ∷ rest

-- The node ids of the cluster, and the port of each.
module _ (ids : List ℕ) (port : ℕ → ℕ) where
  -- Every node at its start, with its state file.
  unfoldable pub launch : (ℕ → Disk) → Cluster
  unfolding my_peers
  launch disks = record { nodes = λ i. init i (my_peers port ids i) (disks i); network = [] }

  -- One thing happens at one node, or a datagram is lost.
  pub data Step : Cluster → Cluster → Type 0 where
    act :
        (s : Cluster) (i : ℕ) (e : Event)
        → is_member i ids ≡ true
        → is_received e ≡ false
        → Step s (record {
          nodes = replaced s.nodes i (handle e (s.nodes i)).0;
          network = s.network ++ post (port i) (handle e (s.nodes i)).1;
        })
    deliver :
        (s : Cluster) (i : ℕ) (c : Clock) (before : List Datagram) (m : Datagram)
        (after : List Datagram)
        → is_member i ids ≡ true
        → s.network ≡ before ++ (m ∷ after)
        → m.target ≡ port i
        → Step s (record {
          nodes = replaced s.nodes i (handle (receive c m.packet m.sender) (s.nodes i)).0;
          network =
              (before ++ after)
              ++ post (port i) (handle (receive c m.packet m.sender) (s.nodes i)).1;
        })
    lose :
        (s : Cluster) (before : List Datagram) (m : Datagram) (after : List Datagram)
        → s.network ≡ before ++ (m ∷ after)
        → Step s (record s { network = before ++ after })

  pub data Reach (s : Cluster) : Cluster → Type 0 where
    begin : Reach s s
    then_step : {t u : Cluster} → Reach s t → Step t u → Reach s u
