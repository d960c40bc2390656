-- ===== src/Hyperion/Server/Frames.antt =====
-- hyperion_stream/network/server.py: requests sent one behind the other, and the end of the loop.
use python_portfolio.Prelude.{
  ℕ, zero, suc, ◌+◌, ◌^◌, ◌≤◌, ◌<◌, ◌≡◌, refl, ap, ◌∙◌, inl, inr, Bool, true, false, Option, none,
  some, List, [], ◌∷◌, ◌++◌, append_assoc, append-nil, arith, length, take, drop, length-append,
  take-append, drop-append, All, pos, ltb, if◌then◌else◌, lt→ltb, le→ltb, Bool-cases, nat_eq,
  bytes_eq, string_eq, Bytes, to_be,
}
use mathlib.Core.Path.{subst}
use python_portfolio.Struct
use python_portfolio.Struct.{Value, raw, int, unsigned, calcsize}
use python_portfolio.Struct.RoundTrip.{length-pack, unpack-pack}
use python_portfolio.Hyperion.Protocol.{magic, header_struct, header_size, max_packet_size}
use python_portfolio.Hyperion.Engine.{HyperionEngine, Clock}
use python_portfolio.Hyperion.Telemetry.{inc_counter}
use python_portfolio.Hyperion.Text.{decimal}
use python_portfolio.Ouroboros.Text.{codes}
use python_portfolio.Hyperion.Server.{
  CommandError, End, eof, failed, Session, process_command, response_header, answer, after_header,
  serve_one, continue_with, handle_client,
}

pub record Request : Type 0 where
  pub msg_type : ℕ
  pub flags : ℕ
  pub reserved : ℕ
  pub payload : Bytes

-- The numbers fit the fields of the header, and the payload is one that the server takes.
pub record IsRequest (q : Request) : Type 0 where
  pub type_fits : q.msg_type < 2 ^ 16
  pub flags_fit : q.flags < 2 ^ 8
  pub reserved_fits : q.reserved < 2 ^ 8
  pub accepted : length q.payload ≤ max_packet_size

abbrev header_of : Request → Bytes
header_of q =
    magic
    ++ (to_be 2 q.msg_type
        ++ (to_be 1 q.flags ++ (to_be 1 q.reserved ++ (to_be 4 (length q.payload) ++ []))))

-- The bytes of a request.
abbrev pub frame : Request → Bytes
frame q = header_of q ++ q.payload

abbrev pub frames : List Request → Bytes
frames [] = []
frames (q ∷ qs) = frame q ++ frames qs

abbrev header_values : Request → List Value
header_values q =
    raw magic
    ∷ int (pos q.msg_type)
    ∷ int (pos q.flags)
    ∷ int (pos q.reserved)
    ∷ int (pos (length q.payload))
    ∷ []

header_packed :
    (q : Request) → IsRequest q → Struct.pack header_struct (header_values q) ≡ some (header_of q)
unfolding Struct.pack
header_packed q h = rw (
  lt→ltb q.msg_type (256 ^ 2) h.type_fits,
  lt→ltb q.flags (256 ^ 1) h.flags_fit,
  lt→ltb q.reserved (256 ^ 1) h.reserved_fits,
  lt→ltb (length q.payload) (256 ^ 4) (omega (arith, h.accepted)),
)

header_unpacked :
    (q : Request) → IsRequest q → Struct.unpack header_struct (header_of q) ≡ some (header_values q)
header_unpacked q h = unpack-pack header_struct (header_values q) (header_packed q h)

length-header_of : (q : Request) → IsRequest q → length (header_of q) ≡ 12
unfolding calcsize
length-header_of q h = length-pack header_struct (header_values q) (header_packed q h)

cut_take : (n : ℕ) (xs ys : Bytes) → length xs ≡ n → take n (xs ++ ys) ≡ xs
cut_take n xs ys e = subst (λ k. take k (xs ++ ys) ≡ xs) e (take-append xs ys)

cut_drop : (n : ℕ) (xs ys : Bytes) → length xs ≡ n → drop n (xs ++ ys) ≡ ys
cut_drop n xs ys e = subst (λ k. drop k (xs ++ ys) ≡ ys) e (drop-append xs ys)

module _ (crc32 : Bytes → ℕ) (error_text : CommandError → Bytes)
    (report : HyperionEngine → Bytes) where
  -- A request that has been answered: the four bytes of the reply's length and the reply stand behind all
  -- that was written before, and the request is counted.
  abbrev pub answered : Request → Bytes × HyperionEngine → Session → Session
  answered q (response, e) s = record {
    engine = e;
    telemetry = inc_counter (codes "hyperion_bytes_sent_total") (length response) [] (
        inc_counter (codes "hyperion_requests_total") 1 ((codes "type", decimal q.msg_type) ∷ [])
          s.telemetry);
    written = s.written ++ (to_be 4 (length response) ++ response);
    request_count = s.request_count + 1;
  }

  -- A reply whose length fits four bytes is sent, and a longer one ends the connection.
  abbrev pub after_reply :
      Bool → Request → Bytes × HyperionEngine → Session → (Session → End × Session) → End × Session
  after_reply true q reply s rest = rest (answered q reply s)
  after_reply false q reply s rest = (failed, record s { engine = reply.1 })

  -- The requests handled in turn, with no bytes in between.
  unfoldable pub respond_all : (ℕ → Clock) → List Request → Session → End × Session
  respond_all clocks [] s = (eof, s)
  respond_all clocks (q ∷ qs) s =
      let reply =
        process_command crc32 error_text report (clocks s.request_count) q.msg_type q.payload
          s.engine in
      after_reply (ltb (length reply.0) (2 ^ 32)) q reply s (respond_all clocks qs)

  serve_one-header :
      (c : Clock) (hdr body : Bytes) (s : Session)
      → length hdr ≡ header_size
      → serve_one crc32 error_text report c (hdr ++ body) s
        ≡ after_header crc32 error_text report c (Struct.unpack header_struct hdr) body s
  unfolding serve_one
  serve_one-header c hdr body s e = rw (
    le→ltb (length (hdr ++ body)) header_size (omega (arith, e, length-append hdr body)),
    cut_take header_size hdr body e,
    cut_drop header_size hdr body e,
  )

  after_header-frame :
      (c : Clock) (q : Request) (rest : Bytes) (s : Session)
      → IsRequest q
      → after_header crc32 error_text report c (some (header_values q)) (q.payload ++ rest) s
        ≡ answer crc32 error_text report q.msg_type rest
            (process_command crc32 error_text report c q.msg_type q.payload s.engine)
            s
  after_header-frame c q rest s h = rw (
    le→ltb max_packet_size (length q.payload) h.accepted,
    le→ltb (length (q.payload ++ rest)) (length q.payload)
        (omega (arith, length-append q.payload rest)),
    take-append,
    drop-append,
  )

  serve_one-frame :
      (c : Clock) (q : Request) (rest : Bytes) (s : Session)
      → IsRequest q
      → serve_one crc32 error_text report c (frame q ++ rest) s
        ≡ answer crc32 error_text report q.msg_type rest
            (process_command crc32 error_text report c q.msg_type q.payload s.engine)
            s
  serve_one-frame c q rest s h =
      ap (λ b. serve_one crc32 error_text report c b s) (append_assoc (header_of q) q.payload rest)
      ∙ serve_one-header c (header_of q) (q.payload ++ rest) s (length-header_of q h)
      ∙ ap (λ v. after_header crc32 error_text report c v (q.payload ++ rest) s)
          (header_unpacked q h)
      ∙ after_header-frame c q rest s h

  response_header-fits :
      (response : Bytes)
      → response_header crc32 error_text report response
        ≡ (if ltb (length response) (2 ^ 32) then some (to_be 4 (length response)) else none)
  unfolding Struct.pack
  response_header-fits response = elim (Bool-cases (ltb (length response) (2 ^ 32))) [
    | inl fits ↦ rw fits (ap some (append-nil _))
    | inr long ↦ rw long refl
  ]

  continue-answer :
      (q : Request) (rest : Bytes) (reply : Bytes × HyperionEngine) (s : Session)
      (loop : Bytes → Session → Option (End × Session)) (k : Session → End × Session)
      → ((s' : Session) → loop rest s' ≡ some (k s'))
      → continue_with crc32 error_text report
          (answer crc32 error_text report q.msg_type rest reply s)
          loop
        ≡ some (after_reply (ltb (length reply.0) (2 ^ 32)) q reply s k)
  continue-answer q rest (response, e) s loop k h =
      elim (Bool-cases (ltb (length response) (2 ^ 32))) [
        | inl fits ↦ rw (response_header-fits response, fits) (h (answered q (response, e) s))
        | inr long ↦ rw (response_header-fits response, long) refl
      ]

  -- Take requests whose numbers fit the fields of the header and whose payloads are no longer than the
  -- 32 MiB that the server takes, sent one behind the other, each as its header and its payload with
  -- no checksum behind it, and fewer than 12 bytes behind them all. Each request is handled whole and in
  -- order. Its reply goes behind all that was written before, with its length in four bytes in front,
  -- and the request and the bytes sent are counted; a reply too long for four bytes ends the
  -- connection with nothing written. Behind the last request the connection ends and the loose bytes
  -- are dropped. A round for each request and one for the end are enough.
  pub handle_client-frames :
      (clocks : ℕ → Clock) (qs : List Request) (tail : Bytes) (fuel : ℕ) (s : Session)
      → All IsRequest qs
      → length tail < header_size
      → length qs < fuel
      → handle_client crc32 error_text report fuel clocks (frames qs ++ tail) s
        ≡ some (respond_all clocks qs s)
  unfolding handle_client respond_all
  handle_client-frames clocks qs tail zero s h short enough = absurd (omega arith)
  handle_client-frames clocks [] tail (suc fuel) s h short enough =
      unfold serve_one in rw (lt→ltb (length tail) header_size short)
  handle_client-frames clocks (q ∷ qs) tail (suc fuel) s (hq, h) short enough =
      let c = clocks s.request_count in
      ap
        (λ r.
          continue_with crc32 error_text report r
            (handle_client crc32 error_text report fuel clocks))
        (ap (λ b. serve_one crc32 error_text report c b s) (append_assoc (frame q) (frames qs) tail)
          ∙ serve_one-frame c q (frames qs ++ tail) s hq)
      ∙ continue-answer q (frames qs ++ tail)
          (process_command crc32 error_text report c q.msg_type q.payload s.engine) s
          (handle_client crc32 error_text report fuel clocks) (respond_all clocks qs)
          (λ s'. handle_client-frames clocks qs tail fuel s' h short (omega arith))
