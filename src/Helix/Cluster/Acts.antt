-- ===== src/Helix/Cluster/Acts.antt =====
-- helix_consensus/helix/node.py: what a node does without a message, and the votes of the cluster.
use python_portfolio.Prelude.{
  ℕ, ◌+◌, ◌-◌, ◌≤◌, ◌≡◌, refl, sym, ap, ◌∙◌, ◌⊎◌, inl, inr, true, false, Option, some, List, [],
  ◌++◌, arith, All, All-append, ltb, if◌then◌else◌, nat_beq, nat_beq_iff, Bool-cases, nat_eq,
  bytes_eq, string_eq,
}
use mathlib.Core.Path.{subst}
use python_portfolio.Helix.Rpc.{append_req}
use python_portfolio.Helix.Node.{
  RaftNode, is_leader, Clock, Send, send_each, Step, message, broadcast, broadcast_heartbeat,
  run_heartbeat_task, run_loop_round, become_candidate, start, init, reset_election_timer,
}
use python_portfolio.Helix.Node.Events.{Event, receive, round, heartbeat, startup, restart, handle}
use python_portfolio.Helix.Node.Events.Durable.{IsDurable, handle-IsDurable}
use python_portfolio.Helix.Node.Events.Election.{IsElected, handle-IsElected}
use python_portfolio.Helix.Cluster.{Datagram, is_member, is_received, my_peers, post}
use python_portfolio.Helix.Cluster.Tokens.{
  tokens, tokens-append, tokens-heartbeat, IsDistinct, requests_of_others, requests_other_term,
  requests_to_itself, requests_once,
}
use python_portfolio.Helix.Cluster.Votes.{History, Counted, IsHonest, IsSafeAt, Keeps, All-Keeps}
use python_portfolio.Helix.Cluster.Changes.{
  with_vote, with_vote_self, with_vote-other, with_vote-later, with_vote-Keeps, with_counted,
  count-with, with_counted-inv, IsQuiet,
}
use python_portfolio.Helix.Cluster.Delivery.{Settled, quiet-Settled}
use python_portfolio.Helix.Cluster.Calls.{
  count-nobody, heartbeats-IsHonest, requests-IsHonest, IsCall,
}

module _ (ids : List ℕ) (port : ℕ → ℕ) (injective : (a b : ℕ) → port a ≡ port b → a ≡ b)
    (distinct : IsDistinct ids) (h : History) (l : Counted) (i : ℕ) (n : RaftNode)
    (ms : List Datagram) (p : IsSafeAt ids port h l ms i n) (member : is_member i ids ≡ true)
    (honest : All (IsHonest ids port h) ms) where
  abbrev pub ResultOf : Step → Type 0
  ResultOf r = Settled ids port h i ms (ms ++ post (port i) r.1) r.0

  -- What is sent concerns no vote.
  quiet_act :
      (n' : RaftNode) (sends : List Send)
      → IsQuiet n n'
      → IsDurable n'
      → IsElected n'
      → ((v j t : ℕ) → tokens port v j t (post (port i) sends) ≡ 0)
      → All (IsHonest ids port h) (post (port i) sends)
      → ResultOf (n', sends)
  quiet_act n' sends q durable elected nothing fine =
      quiet-Settled ids port h l i n n' ms (ms ++ post (port i) sends) q durable elected
        (λ v j t.
          let a = tokens-append port v j t ms (post (port i) sends) in
          let b = nothing v j t in omega arith)
        (All-append (IsHonest ids port h) ms _ honest fine) p

  silent_act : (n' : RaftNode) → IsQuiet n n' → IsDurable n' → IsElected n' → ResultOf (n', [])
  unfolding post tokens
  silent_act n' q durable elected = quiet_act n' [] q durable elected (λ v j t. refl) tt

  heartbeat_act :
      (n' : RaftNode)
      → IsQuiet n n'
      → IsDurable n'
      → IsElected n'
      → ResultOf (broadcast_heartbeat n')
  unfolding broadcast_heartbeat broadcast post tokens
  heartbeat_act n' q durable elected = elim (Bool-cases n'.connected) [
    | inl on ↦
        subst (λ b. ResultOf (n', if b then send_each n'.peers (message n' append_req) else []))
          (sym on)
          (quiet_act n' (send_each n'.peers (message n' append_req)) q durable elected
            (λ v j t. tokens-heartbeat port v j t (port i) n'.current_term n'.node_id n'.peers)
            (heartbeats-IsHonest ids port h (port i) n'.current_term n'.node_id n'.peers))
    | inr off ↦
        subst (λ b. ResultOf (n', if b then send_each n'.peers (message n' append_req) else []))
          (sym off) (quiet_act n' [] q durable elected (λ v j t. refl) tt)
  ]

  abbrev next_term : ℕ
  next_term = n.current_term + 1

  candidate_history : History
  candidate_history = with_vote h i next_term i

  candidate_kept : Keeps h candidate_history
  unfolding candidate_history
  candidate_kept = with_vote-Keeps h i next_term i (inl (p.later next_term (omega arith)))

  module _ (c : Clock) where
    call : List Datagram
    call = post (port i) (become_candidate c n).1

    call-IsCall : IsCall ids port candidate_history i next_term call
    unfolding call become_candidate broadcast reset_election_timer post tokens
    call-IsCall = elim (Bool-cases n.connected) [
      | inl on ↦
          rw (on, p.id, p.peers)
            (record {
              others = requests_of_others port injective (port i) i next_term ids;
              terms = requests_other_term port injective (port i) i next_term ids;
              itself = requests_to_itself port injective (port i) i next_term ids;
              single =
                  λ v k t. requests_once port injective (port i) i next_term ids v k t distinct;
              honest =
                  requests-IsHonest ids port candidate_history i next_term (my_peers port ids i);
            })
      | inr off ↦ rw off (record {
        others = λ v k t ne. refl;
        terms = λ v k t ne. refl;
        itself = λ k t. refl;
        single = λ v k t. omega arith;
        honest = tt;
      })
    ]

    candidate_act :
        IsDurable (become_candidate c n).0
        → IsElected (become_candidate c n).0
        → ResultOf (become_candidate c n)
    unfolding become_candidate reset_election_timer candidate_history call
    candidate_act durable elected = record {
      history = candidate_history;
      counts = with_counted (λ _. false) i;
      keeps = candidate_kept;
      same = λ j t ne. with_vote-other h i next_term i j t ne;
      fewer = λ v j t ne. let a = split v j t in let b = call-IsCall.others v j t ne in omega arith;
      at = record {
        id = p.id;
        peers = p.peers;
        durable = durable;
        elected = elected;
        now = with_vote_self h i next_term i ∙ ap some (sym p.id);
        later = λ t q. with_vote-later h i next_term i t q ∙ p.later t (omega (arith, q));
        counted = λ f.
            count-with (λ _. false) i ids member distinct refl ∙ ap (λ k. k + 1) (count-nobody ids);
        backed = λ v f e. backed v (with_counted-inv (λ _. false) i v e);
        spent = λ v f e. spent v (with_counted-inv (λ _. false) i v e);
        once = λ v t. once v t (Bool-cases (nat_beq t next_term));
        early = λ v t q.
            let a = split v i t in
            let b = p.early v t (omega (arith, q)) in
            let d = call-IsCall.terms v i t (λ e. omega (arith, q, e)) in omega arith;
      };
      honest =
          All-append (IsHonest ids port candidate_history) ms _
            (All-Keeps ids port h candidate_history ms candidate_kept honest) call-IsCall.honest;
    }
      where
        split :
            (v j t : ℕ)
            → tokens port v j t (ms ++ call) ≡ tokens port v j t ms + tokens port v j t call
        split v j t = tokens-append port v j t ms call

        backed : (v : ℕ) → (v ≡ i) ⊎ (false ≡ true) → candidate_history v next_term ≡ some i
        backed v (inl e) = rw e (with_vote_self h i next_term i)
        backed v (inr e) = cc e

        spent : (v : ℕ) → (v ≡ i) ⊎ (false ≡ true) → tokens port v i next_term (ms ++ call) ≡ 0
        spent v (inl e) =
            let a = split i i next_term in
            let b = p.early i next_term (omega arith) in
            let d = call-IsCall.itself i next_term in rw e (omega arith)
        spent v (inr e) = cc e

        once :
            (v t : ℕ)
            → (nat_beq t next_term ≡ true) ⊎ (nat_beq t next_term ≡ false)
            → tokens port v i t (ms ++ call) ≤ 1
        once v t (inl e) =
            let q : t ≡ next_term = (nat_beq_iff t next_term).0 e in
            let a = split v i t in
            let b = p.early v t (omega arith) in let d = call-IsCall.single v i t in omega arith
        once v t (inr e) =
            let a = split v i t in
            let b = p.once v t in
            let d = call-IsCall.terms v i t (λ q. ground (arith, q, e)) in omega arith

  restarted : RaftNode
  restarted = init n.node_id n.peers n.storage

  restart-IsQuiet : IsQuiet n restarted
  unfolding restarted init
  restart-IsQuiet = record {
    id = refl;
    peers = refl;
    term = ap (λ (q : ℕ × Option ℕ). q.0) p.durable;
    vote = ap (λ (q : ℕ × Option ℕ). q.1) p.durable;
    role = λ f. absurd (f refl);
  }

  -- `n` when one of its scheduled heartbeats has run.
  after_task : RaftNode
  after_task = record n { heartbeat_tasks = n.heartbeat_tasks - 1 }

  task_runs : ltb 0 n.heartbeat_tasks ≡ true → handle heartbeat n ≡ broadcast_heartbeat after_task
  unfolding handle run_heartbeat_task after_task
  task_runs e = rw e refl

  no_task : ltb 0 n.heartbeat_tasks ≡ false → handle heartbeat n ≡ (n, [])
  unfolding handle run_heartbeat_task
  no_task e = rw e refl

  task_act : ResultOf (broadcast_heartbeat after_task)
  unfolding after_task
  task_act =
      heartbeat_act after_task
        (record { id = refl; peers = refl; term = refl; vote = refl; role = λ f. (f, refl) })
        p.durable (record { own_vote = p.elected.own_vote; majority = p.elected.majority })

  module _ (c : Clock) where
    leader_round : is_leader n.state ≡ true → handle (round c) n ≡ broadcast_heartbeat n
    unfolding handle run_loop_round
    leader_round e = rw e refl

    late_round :
        is_leader n.state ≡ false
        → ltb n.election_deadline c.now ≡ true
        → handle (round c) n ≡ become_candidate c n
    unfolding handle run_loop_round
    late_round e d = rw (e, d) refl

    early_round :
        is_leader n.state ≡ false
        → ltb n.election_deadline c.now ≡ false
        → handle (round c) n ≡ (n, [])
    unfolding handle run_loop_round
    early_round e d = rw (e, d) refl

    round_act : ResultOf (handle (round c) n)
    round_act = elim (Bool-cases (is_leader n.state)) [
      | inl leads ↦
          subst ResultOf (sym (leader_round leads)) (heartbeat_act n quiet p.durable p.elected)
      | inr follows ↦ elim (Bool-cases (ltb n.election_deadline c.now)) [
        | inl late ↦
            let e = late_round follows late in
            subst ResultOf (sym e) (
              candidate_act c
                (subst (λ r. IsDurable r.0) e (handle-IsDurable (round c) n p.durable))
                (subst (λ r. IsElected r.0) e (handle-IsElected (round c) n p.elected)))
        | inr early ↦
            subst ResultOf (sym (early_round follows early))
              (silent_act n quiet p.durable p.elected)
      ]
    ]
      where
        quiet : IsQuiet n n
        quiet = record { id = refl; peers = refl; term = refl; vote = refl; role = λ f. (f, refl) }

  -- Whatever a node does by itself.
  pub act-Settled : (e : Event) → is_received e ≡ false → ResultOf (handle e n)
  unfolding handle run_heartbeat_task run_loop_round start reset_election_timer restarted
  act-Settled (receive c pkg addr) r = cc r
  act-Settled heartbeat r = elim (Bool-cases (ltb 0 n.heartbeat_tasks)) [
    | inl some_left ↦ subst ResultOf (sym (task_runs some_left)) task_act
    | inr none_left ↦ subst ResultOf (sym (no_task none_left)) (
        silent_act n
          (record { id = refl; peers = refl; term = refl; vote = refl; role = λ f. (f, refl) })
          p.durable p.elected)
  ]
  act-Settled (round c) r = round_act c
  act-Settled (startup c) r =
      silent_act (start c n)
        (record { id = refl; peers = refl; term = refl; vote = refl; role = λ f. (f, refl) })
        (handle-IsDurable (startup c) n p.durable) (handle-IsElected (startup c) n p.elected)
  act-Settled restart r =
      silent_act restarted restart-IsQuiet (handle-IsDurable restart n p.durable)
        (handle-IsElected restart n p.elected)
