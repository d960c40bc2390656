-- ===== src/Helix/Cluster/Calls.antt =====
-- helix_consensus/helix/node.py: what a node sends to its peers.
use python_portfolio.Prelude.{
  ℕ, ◌≤◌, ◌≡◌, refl, ◌≢◌, false, List, [], ◌∷◌, arith, All, nat_eq, bytes_eq, string_eq,
}
use python_portfolio.Prelude.Dict.{Dict}
use python_portfolio.Helix.Rpc.{append_req}
use python_portfolio.Helix.Node.{send_each}
use python_portfolio.Helix.Cluster.{Datagram, post}
use python_portfolio.Helix.Cluster.Tokens.{tokens, vote_request}
use python_portfolio.Helix.Cluster.Votes.{History, count, IsHonest}

pub count-nobody : (js : List ℕ) → count (λ _. false) js ≡ 0
unfolding count
count-nobody [] = refl
count-nobody (j ∷ js) = ground (arith, count-nobody js)

module _ (ids : List ℕ) (port : ℕ → ℕ) where
  pub heartbeats-IsHonest :
      (h : History) (s term src : ℕ) (js : Dict ℕ ℕ)
      → All (IsHonest ids port h) (
          post s (
            send_each js
              (record { msg_type = append_req; term = term; src_id = src; payload = [] })))
  unfolding post send_each
  heartbeats-IsHonest h s term src [] = tt
  heartbeats-IsHonest h s term src ((j, p) ∷ js) = (tt, heartbeats-IsHonest h s term src js)

  pub requests-IsHonest :
      (h : History) (i term : ℕ) (js : Dict ℕ ℕ)
      → All (IsHonest ids port h) (post (port i) (send_each js (vote_request i term)))
  unfolding post send_each
  requests-IsHonest h i term [] = tt
  requests-IsHonest h i term ((j, p) ∷ js) = (refl, requests-IsHonest h i term js)

  -- The datagrams of a candidacy of `i` in `term`.
  pub record IsCall (h : History) (i term : ℕ) (rs : List Datagram) : Type 0 where
    pub others : (v k t : ℕ) → k ≢ i → tokens port v k t rs ≡ 0
    pub terms : (v k t : ℕ) → t ≢ term → tokens port v k t rs ≡ 0
    pub itself : (k t : ℕ) → tokens port i k t rs ≡ 0
    pub single : (v k t : ℕ) → tokens port v k t rs ≤ 1
    pub honest : All (IsHonest ids port h) rs
