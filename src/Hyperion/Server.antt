-- ===== src/Hyperion/Server.antt =====
-- hyperion_stream/network/server.py: the commands, and the loop that serves one connection.
--
-- A connection's input is all that the client sends before it closes. What is not in this program's
-- code is an argument: `zlib.crc32`, the text of an exception, and the text of the engine's report,
-- whose floating-point format is not modelled.
pub mod Commands
pub mod Frames
pub mod Loop
use python_portfolio.Prelude.{
  ℕ, zero, suc, ◌+◌, not, Option, none, some, List, [], ◌∷◌, ◌++◌, arith, length, take, drop, any,
  Result, ok, err, pos, ltb, if◌then◌else◌, ◌==◌, nat_eq, bytes_eq, string_eq, Bytes,
}
use python_portfolio.Ouroboros.Text.{codes}
use python_portfolio.Struct
use python_portfolio.Struct.{Value, raw, int, unsigned, calcsize}
use python_portfolio.Hyperion.Text.{decimal, split_at, decodes}
use python_portfolio.Hyperion.Telemetry.{PrometheusExporter, inc_counter}
use python_portfolio.Hyperion.Protocol.{magic, header_struct, header_size, max_packet_size}
use python_portfolio.Hyperion.Engine.{HyperionEngine, EngineError, Clock, write, read}

-- What `process_command` catches: an exception of the engine, or a key that is not UTF-8.
pub data CommandError : Type 0 where
  engine_error : EngineError → CommandError
  unicode_error : CommandError

-- Why the connection was closed. `failed` is any other exception, which the handler logs.
pub data End : Type 0 where
  eof bad_magic too_large incomplete failed : End

pub record Session : Type 0 where
  pub engine : HyperionEngine
  pub telemetry : PrometheusExporter
  pub written : Bytes
  pub request_count : ℕ

-- A round of the loop: closed, or open with the rest of the input.
pub data Round : Type 0 where
  closed : End → Session → Round
  again : Bytes → Session → Round

module _ (crc32 : Bytes → ℕ) (error_text : CommandError → Bytes)
    (report : HyperionEngine → Bytes) where
  abbrev pub set_reply : Result EngineError ℕ × HyperionEngine → Bytes × HyperionEngine
  set_reply (ok seq, e) = (codes "OK_SET:" ++ decimal seq, e)
  set_reply (err x, e) = (codes "ERR_SET:" ++ error_text (engine_error x), e)

  -- The part of command 1 behind `payload.find(b'|')`
  abbrev pub set_key : Clock → Option (Bytes × Bytes) → HyperionEngine → Bytes × HyperionEngine
  set_key c none e = (codes "ERR_FORMAT", e)
  set_key c (some (key, value)) e =
      if decodes key
      then set_reply (write crc32 c key value e)
      else (codes "ERR_SET:" ++ error_text unicode_error, e)

  -- Command 1
  unfoldable pub set_command : Clock → Bytes → HyperionEngine → Bytes × HyperionEngine
  unfolding split_at
  set_command c payload e = set_key c (split_at b'|' payload) e

  -- `if val:`
  abbrev pub get_reply : Result EngineError (Option Bytes) × HyperionEngine → Bytes × HyperionEngine
  get_reply (ok (some (b ∷ bs)), e) = (b ∷ bs, e)
  get_reply (ok _, e) = (codes "ERR_NOT_FOUND", e)
  get_reply (err x, e) = (codes "ERR_INTERNAL", e)

  -- Command 2
  unfoldable pub get_command : Bytes → HyperionEngine → Bytes × HyperionEngine
  get_command payload e =
      if decodes payload then get_reply (read crc32 payload e) else (codes "ERR_INTERNAL", e)

  unfoldable pub process_command : Clock → ℕ → Bytes → HyperionEngine → Bytes × HyperionEngine
  unfolding set_command get_command
  process_command c msg_type payload e =
      if msg_type == 1
      then set_command c payload e
      else if msg_type == 2
      then get_command payload e
      else if msg_type == 99
      then (report e, e)
      else (codes "ERR_UNKNOWN_CMD", e)

  -- METRICS after a request
  abbrev pub count_request : ℕ → ℕ → PrometheusExporter → PrometheusExporter
  count_request msg_type resp_len m =
      inc_counter (codes "hyperion_bytes_sent_total") resp_len []
        (inc_counter (codes "hyperion_requests_total") 1 ((codes "type", decimal msg_type) ∷ []) m)

  -- The header of the response, the response, and what is counted.
  abbrev pub send : ℕ → Bytes → Bytes × HyperionEngine → Option Bytes → Session → Round
  send msg_type rest (response, e) none s = closed failed (record s { engine = e })
  send msg_type rest (response, e) (some header) s = again rest (record {
    engine = e;
    telemetry = count_request msg_type (length response) s.telemetry;
    written = s.written ++ (header ++ response);
    request_count = s.request_count + 1;
  })

  -- struct.pack("!I", len(response))
  abbrev pub response_header : Bytes → Option Bytes
  response_header response = Struct.pack (unsigned 4 ∷ []) (int (pos (length response)) ∷ [])

  abbrev pub answer : ℕ → Bytes → Bytes × HyperionEngine → Session → Round
  answer msg_type rest (response, e) s =
      send msg_type rest (response, e) (response_header response) s

  -- Once the header is read.
  abbrev pub after_header : Clock → Option (List Value) → Bytes → Session → Round
  after_header c
        (some (raw m ∷ int (pos msg_type) ∷ int flags ∷ int res ∷ int (pos payload_len) ∷ [])) rest
        s =
      if not (m == magic)
      then closed bad_magic s
      else if ltb max_packet_size payload_len
      then closed too_large s
      else if ltb (length rest) payload_len
      then closed incomplete s
      else answer msg_type (drop payload_len rest)
          (process_command c msg_type (take payload_len rest) s.engine) s
  after_header c _ rest s = closed failed s

  -- One round of `while True`
  unfoldable pub serve_one : Clock → Bytes → Session → Round
  unfolding process_command
  serve_one c input s =
      if ltb (length input) header_size
      then closed eof s
      else after_header c (Struct.unpack header_struct (take header_size input))
          (drop header_size input) s

  abbrev pub continue_with :
      Round → (Bytes → Session → Option (End × Session)) → Option (End × Session)
  continue_with (closed why s) loop = some (why, s)
  continue_with (again rest s) loop = loop rest s

  -- handle_client, for at most the given number of rounds; `none` says that these were too few. A
  -- request sees the clock by its number.
  unfoldable pub handle_client : ℕ → (ℕ → Clock) → Bytes → Session → Option (End × Session)
  unfolding serve_one
  handle_client zero clocks input s = none
  handle_client (suc fuel) clocks input s =
      continue_with (serve_one (clocks s.request_count) input s) (handle_client fuel clocks)
