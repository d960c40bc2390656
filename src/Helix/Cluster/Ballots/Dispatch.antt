-- ===== src/Helix/Cluster/Ballots/Dispatch.antt =====
-- helix_consensus/helix/node.py: a delivered datagram of any kind.
use python_portfolio.Prelude.{
  ℕ, ◌≤◌, ◌≡◌, refl, sym, inl, inr, true, ◌&&◌, List, [], ◌∷◌, ◌++◌, arith, All, leb, Bool-cases,
  ◌==◌, nat_eq, bytes_eq, string_eq,
}
use mathlib.Core.Path.{subst}
use python_portfolio.Helix.Rpc.{MessageType, vote_req, vote_resp, append_req, append_resp}
use python_portfolio.Helix.Node.{RaftNode, Clock, dispatch, may_vote, is_candidate}
use python_portfolio.Helix.Node.Events.Durable.{dispatch-IsDurable}
use python_portfolio.Helix.Node.Events.Election.{dispatch-IsElected}
use python_portfolio.Helix.Cluster.{Datagram, is_member}
use python_portfolio.Helix.Cluster.Tokens.{IsDistinct}
use python_portfolio.Helix.Cluster.Votes.{History, Counted, IsHonest, IsSafeAt}
use python_portfolio.Helix.Cluster.Delivery.{
  IsQuiet-refl, append_entries-IsQuiet, request_granted, request_refused, response_counted,
  response_ignored,
}
use python_portfolio.Helix.Cluster.Ballots.{ResultOf, handled, silent-Settled}
use python_portfolio.Helix.Cluster.Ballots.Grants.{granted-Settled, sent}
use python_portfolio.Helix.Cluster.Ballots.Counts.{counted-Settled}

module _ (ids : List ℕ) (port : ℕ → ℕ) (injective : (a b : ℕ) → port a ≡ port b → a ≡ b)
    (distinct : IsDistinct ids) (h : History) (l : Counted) (i : ℕ) (n : RaftNode) (c : Clock)
    (xs : List Datagram) (m : Datagram) (ys : List Datagram)
    (p : IsSafeAt ids port h l (xs ++ (m ∷ ys)) i n) (member : is_member i ids ≡ true)
    (to : m.target ≡ port i) (honest : All (IsHonest ids port h) (xs ++ (m ∷ ys))) where
  -- Whatever datagram it is, once `update_term` has seen its term.
  pub dispatch-Settled :
      m.packet.term ≤ n.current_term
      → ResultOf ids port injective distinct h l i n c xs m ys p member to honest
          (dispatch c m.packet m.sender m.packet.msg_type n)
  unfolding sent dispatch
  dispatch-Settled up = cases m.packet.msg_type refl
    where
      stays :
          (kind : MessageType)
          → handled ids port injective distinct h l i n c xs m ys p member to honest kind ≡ (n, [])
          → ResultOf ids port injective distinct h l i n c xs m ys p member to honest
              (handled ids port injective distinct h l i n c xs m ys p member to honest kind)
      stays kind e =
          subst (ResultOf ids port injective distinct h l i n c xs m ys p member to honest) (sym e)
            (silent-Settled ids port injective distinct h l i n c xs m ys p member to honest n
              (IsQuiet-refl c m.packet m.sender n) p.durable p.elected)

      cases :
          (kind : MessageType)
          → m.packet.msg_type ≡ kind
          → ResultOf ids port injective distinct h l i n c xs m ys p member to honest
              (handled ids port injective distinct h l i n c xs m ys p member to honest kind)
      cases vote_req e =
          elim (Bool-cases
            (leb n.current_term m.packet.term && may_vote n.voted_for m.packet.src_id)) [
              | inl may ↦
                  let term : m.packet.term ≡ n.current_term = ground (arith, may, up) in
                  subst (ResultOf ids port injective distinct h l i n c xs m ys p member to honest)
                    (sym (request_granted c m.packet m.sender n may))
                    (granted-Settled ids port injective distinct h l i n c xs m ys p member to
                      honest e term may)
              | inr refused ↦ stays vote_req (request_refused c m.packet m.sender n refused)
            ]
      cases vote_resp e =
          elim (Bool-cases (is_candidate n.state && m.packet.term == n.current_term)) [
            | inl counts ↦
                subst (ResultOf ids port injective distinct h l i n c xs m ys p member to honest)
                  (sym (response_counted c m.packet m.sender n counts))
                  (counted-Settled ids port injective distinct h l i n c xs m ys p member to honest
                    e counts)
            | inr refused ↦ stays vote_resp (response_ignored c m.packet m.sender n refused)
          ]
      cases append_req e =
          silent-Settled ids port injective distinct h l i n c xs m ys p member to honest
            (handled ids port injective distinct h l i n c xs m ys p member to honest append_req).0
            (append_entries-IsQuiet c m.packet m.sender n)
            (dispatch-IsDurable c m.packet m.sender n append_req p.durable)
            (dispatch-IsElected c m.packet m.sender n append_req p.elected)
      cases append_resp e = stays append_resp refl
