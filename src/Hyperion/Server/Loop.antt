-- ===== src/Hyperion/Server/Loop.antt =====
-- hyperion_stream/network/server.py: the rounds of `handle_client`, and how much input each takes.
use python_portfolio.Prelude.{
  ltb→le, ℕ, zero, suc, ◌+◌, ◌≤◌, ◌<◌, ◌≡◌, refl, ap, inl, inr, not, Option, none, some, List, [],
  ◌∷◌, arith, length, take, drop, length-drop, pos, ltb, Bool-cases, ◌==◌, nat_eq, bytes_eq,
  string_eq, Bytes,
}
use python_portfolio.Struct
use python_portfolio.Struct.{Value, raw, int, unsigned, calcsize}
use python_portfolio.Hyperion.Protocol.{magic, header_struct, header_size, max_packet_size}
use python_portfolio.Hyperion.Engine.{HyperionEngine, Clock}
use python_portfolio.Hyperion.Server.{
  CommandError, End, Session, Round, closed, again, process_command, send, response_header, answer,
  after_header, serve_one, continue_with, handle_client,
}

module _ (crc32 : Bytes → ℕ) (error_text : CommandError → Bytes)
    (report : HyperionEngine → Bytes) where
  send-rest :
      (t : ℕ) (rest r : Bytes) (reply : Bytes × HyperionEngine) (header : Option Bytes)
      (s s' : Session)
      → send crc32 error_text report t rest reply header s ≡ again r s'
      → r ≡ rest
  send-rest t rest r (response, e) none s s' h = ground arith
  send-rest t rest r (response, e) (some header) s s' h = ground arith

  answer-rest :
      (t : ℕ) (rest r : Bytes) (reply : Bytes × HyperionEngine) (s s' : Session)
      → answer crc32 error_text report t rest reply s ≡ again r s'
      → r ≡ rest
  answer-rest t rest r (response, e) s s' h =
      send-rest t rest r (response, e) (response_header crc32 error_text report response) s s' h

  after_header-shorter :
      (c : Clock) (v : Option (List Value)) (input rest : Bytes) (s s' : Session)
      → after_header crc32 error_text report c v input s ≡ again rest s'
      → length rest ≤ length input
  after_header-shorter c (some (raw m ∷ int (pos t) ∷ int f ∷ int r ∷ int (pos len) ∷ [])) input
        rest s s' h =
      elim (Bool-cases (not (m == magic))) [
        | inl other ↦ ground (arith, other)
        | inr same ↦ elim (Bool-cases (ltb max_packet_size len)) [
          | inl large ↦ ground (arith, same, large)
          | inr small ↦ elim (Bool-cases (ltb (length input) len)) [
            | inl missing ↦ ground (arith, same, small, missing)
            | inr there ↦ omega (
              arith,
              ap length (
                  answer-rest t (drop len input) rest
                    (process_command crc32 error_text report c t (take len input) s.engine) s s'
                    (rw (same, small, there) at (h))),
              length-drop len input,
            )
          ]
        ]
      ]
  after_header-shorter c v input rest s s' h = ground arith

  -- The rest of the input after a round is 12 bytes shorter at the least.
  serve_one-shorter :
      (c : Clock) (input rest : Bytes) (s s' : Session)
      → serve_one crc32 error_text report c input s ≡ again rest s'
      → length rest + 12 ≤ length input
  unfolding serve_one
  serve_one-shorter c input rest s s' h = elim (Bool-cases (ltb (length input) header_size)) [
    | inl short ↦ ground (arith, short)
    | inr long ↦ omega (
      arith,
      ltb→le (length input) header_size long,
      length-drop header_size input,
      after_header-shorter c (Struct.unpack header_struct (take header_size input))
          (drop header_size input) rest s s' (rw long at h),
    )
  ]

  -- The loop ends on whatever a client sends: a round for each byte and one more are enough.
  pub handle_client_returns :
      (clocks : ℕ → Clock) (fuel : ℕ) (input : Bytes) (s : Session)
      → length input < fuel
      → (r : End × Session) × (handle_client crc32 error_text report fuel clocks input s ≡ some r)
  unfolding handle_client
  handle_client_returns clocks zero input s h = absurd (omega arith)
  handle_client_returns clocks (suc fuel) input s h =
      cases (serve_one crc32 error_text report (clocks s.request_count) input s) refl
        (λ rest s'. handle_client_returns clocks fuel rest s')
    where
      cases :
          (r : Round)
          → serve_one crc32 error_text report (clocks s.request_count) input s ≡ r
          → ((rest : Bytes) (s' : Session)
              → length rest < fuel
              → (o : End × Session) × (handle_client crc32 error_text report fuel clocks rest s'
                  ≡ some o))
          → (o : End × Session) × (continue_with crc32 error_text report r
                (handle_client crc32 error_text report fuel clocks)
              ≡ some o)
      cases (closed why s') e later = ((why, s'), refl)
      cases (again rest s') e later =
          later rest s'
            (omega (arith, h, serve_one-shorter (clocks s.request_count) input rest s s' e))
