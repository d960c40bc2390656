-- ===== src/Helix/Cluster/Safety.antt =====
-- helix_consensus: the election of a cluster.
use python_portfolio.Prelude.{
  ltb→le, ℕ, ◌+◌, ◌/◌, ◌≤◌, ◌≡◌, refl, sym, ap, ◌∙◌, ◌≢◌, ◌⊎◌, inl, inr, true, false, none, some,
  List, [], ◌∷◌, ◌++◌, arith, length, All, ltb, if◌then◌else◌, nat_beq, nat_beq_iff, nat_beq_refl,
  Bool-cases, nat_eq, bytes_eq, string_eq, beq_ne,
}
use mathlib.Core.Path.{subst}
use python_portfolio.Helix.Rpc.{Packet}
use python_portfolio.Helix.Storage.{Disk, load_state}
use python_portfolio.Helix.Node.{
  RaftNode, leader, Clock, init, update_term, dispatch, handle_message, quorum,
}
use python_portfolio.Helix.Node.Events.{receive, handle}
use python_portfolio.Helix.Node.Events.Election.{init-IsElected}
use python_portfolio.Helix.Cluster.{
  Datagram, Cluster, is_member, replaced, post, my_peers, launch, Step, act, deliver, lose, Reach,
  begin, then_step,
}
use python_portfolio.Helix.Cluster.Tokens.{token, tokens, tokens-remove, IsDistinct}
use python_portfolio.Helix.Cluster.Votes.{
  History, Counted, count, IsHonest, IsSafeAt, IsSafe, IsSafeAt-other, IsSafe-change,
}
use python_portfolio.Helix.Cluster.Changes.{update_term-IsSafeAt}
use python_portfolio.Helix.Cluster.Delivery.{Settled}
use python_portfolio.Helix.Cluster.Ballots.{All-remove}
use python_portfolio.Helix.Cluster.Ballots.Dispatch.{dispatch-Settled}
use python_portfolio.Helix.Cluster.Acts.{act-Settled}

update_term-le :
    (c : Clock) (pkg : Packet) (n : RaftNode) → pkg.term ≤ (update_term c pkg n).current_term
unfolding update_term
update_term-le c pkg n = elim (Bool-cases (ltb n.current_term pkg.term)) [
  | inl up ↦ rw up (omega arith)
  | inr down ↦ rw down (ltb→le n.current_term pkg.term down)
]

-- Two sets with no common member are together no more than all.
count-disjoint :
    (f g : Counted) (js : List ℕ)
    → ((v : ℕ) → f v ≡ true → g v ≡ false)
    → count f js + count g js ≤ length js
unfolding count
count-disjoint f g [] apart = omega arith
count-disjoint f g (j ∷ js) apart =
    let rest = count-disjoint f g js apart in
    elim (Bool-cases (f j)) [
      | inl yes_f ↦ rw (yes_f, apart j yes_f) (omega (arith, rest))
      | inr no_f ↦ elim (Bool-cases (g j)) [
        | inl yes_g ↦ rw (no_f, yes_g) (omega (arith, rest))
        | inr no_g ↦ rw (no_f, no_g) (omega (arith, rest))
      ]
    ]

module _ (port : ℕ → ℕ) (i : ℕ) where
  peers_without : (js : List ℕ) → is_member i js ≡ false → length (my_peers port js i) ≡ length js
  unfolding my_peers is_member
  peers_without [] out = refl
  peers_without (j ∷ js) out =
      let ih = peers_without js (ground (arith, out)) in
      let ne : nat_beq j i ≡ false = ground (arith, out) in rw (ne, ih) refl

  peers_of_member :
      (js : List ℕ)
      → is_member i js ≡ true
      → IsDistinct js
      → length (my_peers port js i) + 1 ≡ length js
  unfolding my_peers is_member
  peers_of_member [] m d = cc m
  peers_of_member (j ∷ js) m d = elim (Bool-cases (nat_beq j i)) [
    | inl same ↦
        let out : is_member i js ≡ false =
          subst (λ w. is_member w js ≡ false) ((nat_beq_iff j i).0 same) d.0 in
        rw (same, peers_without js out) (omega arith)
    | inr other ↦
        let ih = peers_of_member js (ground (arith, m, other)) d.1 in rw other (omega (arith, ih))
  ]

module _ (ids : List ℕ) (port : ℕ → ℕ) (injective : (a b : ℕ) → port a ≡ port b → a ≡ b)
    (distinct : IsDistinct ids) where
  -- Some history and some counts account for the cluster.
  Safe : Cluster → Type 0
  Safe s = (h : History) × (l : ℕ → Counted) × IsSafe ids port h l s

  settle :
      (h : History) (l : ℕ → Counted) (s : Cluster) (i : ℕ) (n' : RaftNode) (ms : List Datagram)
      → IsSafe ids port h l s
      → Settled ids port h i s.network ms n'
      → Safe (record { nodes = replaced s.nodes i n'; network = ms })
  unfolding Safe replaced
  settle h l s i n' ms p q =
      let l' : ℕ → Counted = λ j. if nat_beq j i then q.counts else l j in
      (
        q.history,
        l',
        IsSafe-change ids port h q.history l l' s _ i q.keeps q.same
            (λ j ne. rw (beq_ne j i ne) refl) (λ j ne. rw (beq_ne j i ne) refl) q.fewer
            (rw (nat_beq_refl i) q.at) q.honest p,
      )

  deliver-Settled :
      (h : History) (l : ℕ → Counted) (s : Cluster) (i : ℕ) (c : Clock) (xs : List Datagram)
      (m : Datagram) (ys : List Datagram)
      → is_member i ids ≡ true
      → s.network ≡ xs ++ (m ∷ ys)
      → m.target ≡ port i
      → IsSafe ids port h l s
      → Settled ids port h i s.network
          ((xs ++ ys) ++ post (port i) (handle (receive c m.packet m.sender) (s.nodes i)).1)
          (handle (receive c m.packet m.sender) (s.nodes i)).0
  unfolding handle handle_message
  deliver-Settled h l s i c xs m ys member e to p =
      let n = update_term c m.packet (s.nodes i) in
      let safe : IsSafeAt ids port h (l i) (xs ++ (m ∷ ys)) i n =
        subst (λ ms. IsSafeAt ids port h (l i) ms i n) e
          (update_term-IsSafeAt ids port h (l i) i c m.packet m.sender (s.nodes i) s.network
            (p.at i)) in
      subst
        (λ ms.
          Settled ids port h i ms
            ((xs ++ ys) ++ post (port i) (dispatch c m.packet m.sender m.packet.msg_type n).1)
            (dispatch c m.packet m.sender m.packet.msg_type n).0)
        (sym e)
        (dispatch-Settled ids port injective distinct h (l i) i n c xs m ys safe member to
          (subst (All (IsHonest ids port h)) e p.honest) (update_term-le c m.packet (s.nodes i)))

  Step-Safe : {s t : Cluster} → Step ids port s t → Safe s → Safe t
  unfolding Safe
  Step-Safe (act s i e member own) (h, l, p) = settle h l s i (handle e (s.nodes i)).0 _ p (
      act-Settled ids port injective distinct h (l i) i (s.nodes i) s.network (p.at i) member
        p.honest e own)
  Step-Safe (deliver s i c xs m ys member e to) (h, l, p) =
      settle h l s i (handle (receive c m.packet m.sender) (s.nodes i)).0 _ p
        (deliver-Settled h l s i c xs m ys member e to p)
  Step-Safe (lose s xs m ys e) (h, l, p) = (
    h,
    l,
    record {
      at = λ j.
          IsSafeAt-other ids port h h (l j) s.network (xs ++ ys) j (s.nodes j) (λ v t x q. q)
            (λ t. refl)
            (λ v t.
              let a : tokens port v j t s.network
                  ≡ token port v j t m + tokens port v j t (xs ++ ys) =
                ap (tokens port v j t) e ∙ tokens-remove port v j t xs m ys in
              omega arith)
            (p.at j);
      honest =
          (All-remove (IsHonest ids port h) xs m ys
            (subst (All (IsHonest ids port h)) e p.honest)).1;
    },
  )

  Reach-Safe : {s t : Cluster} → Safe s → Reach ids port s t → Safe t
  Reach-Safe p begin = p
  Reach-Safe p (then_step r st) = Step-Safe st (Reach-Safe p r)

  launch-Safe : (disks : ℕ → Disk) → Safe (launch ids port disks)
  unfolding Safe launch init tokens
  launch-Safe disks =
      let h : History =
        λ i t. if nat_beq (load_state (disks i)).0 t then (load_state (disks i)).1 else none in
      (
        h,
        λ j v. false,
        record {
          at = λ i. record {
            id = refl;
            peers = refl;
            durable = refl;
            elected = init-IsElected i (my_peers port ids i) (disks i);
            now = rw (nat_beq_refl (load_state (disks i)).0) refl;
            later = λ t q. rw (beq_ne (load_state (disks i)).0 t (λ e. omega (arith, q, e))) refl;
            counted = λ f. absurd (f refl);
            backed = λ v f e. absurd (f refl);
            spent = λ v f e. refl;
            once = λ v t. omega arith;
            early = λ v t q. refl;
          };
          honest = tt;
        },
      )

  -- Whatever a node has counted is a majority when it leads.
  leader_majority :
      (h : History) (l : ℕ → Counted) (s : Cluster) (i : ℕ)
      → IsSafe ids port h l s
      → is_member i ids ≡ true
      → (s.nodes i).state ≡ leader
      → length ids / 2 + 1 ≤ count (l i) ids
  leader_majority h l s i p member leads =
      let q = p.at i in
      let all : length (s.nodes i).peers + 1 ≡ length ids =
        ap (λ d. length d + 1) q.peers ∙ peers_of_member port i ids member distinct in
      let enough : quorum (s.nodes i) ≤ (s.nodes i).votes_received = q.elected.majority leads in
      let few : count (l i) ids ≡ (s.nodes i).votes_received =
        q.counted (λ f. ground (arith, leads, f)) in
      let same : (length (s.nodes i).peers + 1) / 2 ≡ length ids / 2 = ap (λ k. k / 2) all in
      omega (arith, enough, few, same)

  -- Two members that have counted a majority in one term are one node.
  same_winner :
      (h : History) (l : ℕ → Counted) (s : Cluster) (i j : ℕ)
      → IsSafe ids port h l s
      → is_member i ids ≡ true
      → is_member j ids ≡ true
      → (s.nodes i).state ≡ leader
      → (s.nodes j).state ≡ leader
      → (s.nodes j).current_term ≡ (s.nodes i).current_term
      → i ≡ j
  same_winner h l s i j p mi mj li lj same = elim (Bool-cases (nat_beq i j)) [
    | inl e ↦ (nat_beq_iff i j).0 e
    | inr ne ↦
        let a = leader_majority h l s i p mi li in
        let b = leader_majority h l s j p mj lj in
        let both = count-disjoint (l i) (l j) ids (λ v e. apart ne v e (Bool-cases (l j v))) in
        absurd (omega (arith, a, b, both))
  ]
    where
      apart :
          nat_beq i j ≡ false
          → (v : ℕ) → l i v ≡ true
          → (l j v ≡ true) ⊎ (l j v ≡ false)
          → l j v ≡ false
      apart ne v e (inr f) = f
      apart ne v e (inl f) =
          let given_i = (p.at i).backed v (λ q. ground (arith, q, li)) e in
          let given_j = (p.at j).backed v (λ q. ground (arith, q, lj)) f in
          let both : h v (s.nodes i).current_term ≡ some j =
            subst (λ t. h v t ≡ some j) same given_j in
          let one : i ≡ j = cc (both, given_i) in absurd (ground (arith, one, ne))

  -- In a cluster whose network delivers each datagram at most once, no two nodes lead in one term,
  -- whatever else happens: datagrams are lost or come in any order, and nodes time out, crash, and start
  -- anew from their state files. The ids are different, and so are the ports.
  pub one_leader :
      (disks : ℕ → Disk) (s : Cluster)
      → Reach ids port (launch ids port disks) s
      → (i j : ℕ) → is_member i ids ≡ true
      → is_member j ids ≡ true
      → i ≢ j
      → (s.nodes j).current_term ≡ (s.nodes i).current_term
      → (s.nodes i).state ≡ leader
      → (s.nodes j).state ≢ leader
  unfolding Safe
  one_leader disks s r i j mi mj differ same li lj =
      let (h, l, p) = Reach-Safe (launch-Safe disks) r in
      differ (same_winner h l s i j p mi mj li lj same)
