-- ===== src/Helix/Cluster/Tokens.antt =====
-- helix_consensus/helix/node.py: the requests for votes and the answers that are on their way.
use python_portfolio.Prelude.{
  ℕ, ◌+◌, ◌≤◌, ◌≡◌, refl, sym, ◌∙◌, ◌≢◌, inl, inr, false, List, [], ◌∷◌, ◌++◌, arith, if◌then◌else◌,
  nat_beq, nat_beq_iff, Bool-cases, nat_eq, bytes_eq, string_eq, beq_ne,
}
use python_portfolio.Helix.Rpc.{MessageType, vote_req, vote_resp, append_req, Packet}
use mathlib.Core.Path.{subst}
use python_portfolio.Prelude.Dict.{Dict}
use python_portfolio.Helix.Node.{send_each}
use python_portfolio.Helix.Cluster.{Datagram, is_member, post, my_peers}

module _ (port : ℕ → ℕ) where
  abbrev carries : MessageType → ℕ → ℕ → ℕ → ℕ → ℕ → ℕ → ℕ
  carries vote_req src target term v i t =
      if nat_beq src i
      then (if nat_beq target (port v) then (if nat_beq term t then 1 else 0) else 0)
      else 0
  carries vote_resp src target term v i t =
      if nat_beq src v
      then (if nat_beq target (port i) then (if nat_beq term t then 1 else 0) else 0)
      else 0
  carries _ src target term v i t = 0

  -- 1 for a request of `i` to `v` for its vote in the term `t`, and for the answer to it.
  unfoldable pub token : ℕ → ℕ → ℕ → Datagram → ℕ
  token v i t m = carries m.packet.msg_type m.packet.src_id m.target m.packet.term v i t

  unfoldable pub tokens : ℕ → ℕ → ℕ → List Datagram → ℕ
  tokens v i t [] = 0
  tokens v i t (m ∷ ms) = token v i t m + tokens v i t ms

  module _ (v i t : ℕ) where
    pub tokens-append :
        (xs ys : List Datagram) → tokens v i t (xs ++ ys) ≡ tokens v i t xs + tokens v i t ys
    unfolding tokens
    tokens-append [] ys = omega arith
    tokens-append (m ∷ xs) ys = let ih = tokens-append xs ys in omega arith

    pub tokens-remove :
        (xs : List Datagram) (m : Datagram) (ys : List Datagram)
        → tokens v i t (xs ++ (m ∷ ys)) ≡ token v i t m + tokens v i t (xs ++ ys)
    unfolding tokens
    tokens-remove [] m ys = refl
    tokens-remove (k ∷ xs) m ys = let ih = tokens-remove xs m ys in omega arith

    pub tokens-heartbeat :
        (s term src : ℕ) (js : Dict ℕ ℕ)
        → tokens v i t (
            post s (
              send_each js
                (record { msg_type = append_req; term = term; src_id = src; payload = [] })))
          ≡ 0
    unfolding tokens token post send_each
    tokens-heartbeat s term src [] = refl
    tokens-heartbeat s term src ((j, p) ∷ js) = ground (arith, tokens-heartbeat s term src js)

-- No id stands in the list twice.
abbrev pub IsDistinct : List ℕ → Type 0
IsDistinct [] = Unit
IsDistinct (j ∷ js) = (is_member j js ≡ false) × IsDistinct js

abbrev pub vote_request : ℕ → ℕ → Packet
vote_request i term = record { msg_type = vote_req; term = term; src_id = i; payload = [] }

-- The requests that node `i` sends to its peers.
module _ (port : ℕ → ℕ) (injective : (a b : ℕ) → port a ≡ port b → a ≡ b) (s i term : ℕ) where
  abbrev pub requests : List ℕ → List Datagram
  requests js = post s (send_each (my_peers port js i) (vote_request i term))

  abbrev one : ℕ → ℕ → ℕ → ℕ → ℕ
  one j v k t =
      if nat_beq i k
      then (if nat_beq (port j) (port v) then (if nat_beq term t then 1 else 0) else 0)
      else 0

  requests_cons :
      (j : ℕ) (js : List ℕ) (v k t : ℕ)
      → tokens port v k t (requests (j ∷ js))
        ≡ (if nat_beq j i then 0 else one j v k t) + tokens port v k t (requests js)
  unfolding tokens token post send_each my_peers
  requests_cons j js v k t = elim (Bool-cases (nat_beq j i)) [
    | inl same ↦ rw same (omega arith)
    | inr other ↦ rw other refl
  ]

  pub requests_of_others : (js : List ℕ) (v k t : ℕ) → k ≢ i → tokens port v k t (requests js) ≡ 0
  unfolding tokens post send_each my_peers
  requests_of_others [] v k t ne = refl
  requests_of_others (j ∷ js) v k t ne =
      let apart : nat_beq i k ≡ false = beq_ne i k (λ e. ne (sym e)) in
      requests_cons j js v k t ∙ rw apart (ground (arith, requests_of_others js v k t ne))

  pub requests_other_term :
      (js : List ℕ) (v k t : ℕ) → t ≢ term → tokens port v k t (requests js) ≡ 0
  unfolding tokens post send_each my_peers
  requests_other_term [] v k t ne = refl
  requests_other_term (j ∷ js) v k t ne =
      let apart : nat_beq term t ≡ false = beq_ne term t (λ e. ne (sym e)) in
      requests_cons j js v k t ∙ rw apart (ground (arith, requests_other_term js v k t ne))

  elsewhere : (j v k t : ℕ) → j ≢ v → one j v k t ≡ 0
  elsewhere j v k t ne =
      let apart : nat_beq (port j) (port v) ≡ false =
        beq_ne (port j) (port v) (λ e. ne (injective j v e)) in
      rw apart (ground arith)

  pub requests_to_members :
      (js : List ℕ) (v k t : ℕ) → is_member v js ≡ false → tokens port v k t (requests js) ≡ 0
  unfolding tokens post send_each my_peers is_member
  requests_to_members [] v k t out = refl
  requests_to_members (j ∷ js) v k t out =
      let ne : j ≢ v = λ e. ground (arith, e, out) in
      let rest = requests_to_members js v k t (ground (arith, out)) in
      requests_cons j js v k t ∙ rw (elsewhere j v k t ne) (ground (arith, rest))

  pub requests_to_itself : (js : List ℕ) (k t : ℕ) → tokens port i k t (requests js) ≡ 0
  unfolding tokens post send_each my_peers
  requests_to_itself [] k t = refl
  requests_to_itself (j ∷ js) k t = requests_cons j js i k t ∙ elim (Bool-cases (nat_beq j i)) [
    | inl same ↦ rw same (ground (arith, requests_to_itself js k t))
    | inr other ↦
        rw (other, elsewhere j i k t (λ e. ground (arith, e, other)))
          (ground (arith, requests_to_itself js k t))
  ]

  pub requests_once :
      (js : List ℕ) (v k t : ℕ) → IsDistinct js → tokens port v k t (requests js) ≤ 1
  unfolding tokens post send_each my_peers
  requests_once [] v k t d = omega arith
  requests_once (j ∷ js) v k t d = elim (Bool-cases (nat_beq j v)) [
    | inl same ↦
        let e : j ≡ v = (nat_beq_iff j v).0 same in
        let out : is_member v js ≡ false = subst (λ w. is_member w js ≡ false) e d.0 in
        rw (requests_cons j js v k t, requests_to_members js v k t out) (ground arith)
    | inr other ↦
        rw (requests_cons j js v k t, elsewhere j v k t (λ e. ground (arith, e, other)))
          (ground (arith, requests_once js v k t d.1))
  ]
