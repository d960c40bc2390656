-- ===== src/Hyperion/Server/Commands.antt =====
-- hyperion_stream/network/server.py: what a client that sets a key and then gets it is told.
use python_portfolio.Prelude.{
  ℕ, ◌≡◌, refl, ap, ◌∙◌, true, false, Option, none, some, [], ◌∷◌, ◌++◌, arith, All, Result, ok,
  err, ◌==◌, nat_eq, bytes_eq, string_eq, beq_refl, Bytes,
}
use python_portfolio.Ouroboros.Text.{codes}
use python_portfolio.Hyperion.Text.{decimal, split_at-join, decodes}
use python_portfolio.Hyperion.Engine.{HyperionEngine, EngineError, Clock, write, read}
use python_portfolio.Hyperion.Engine.Reads.{IsSharded, read-write}
use python_portfolio.Hyperion.Server.{
  CommandError, set_reply, set_key, set_command, get_reply, get_command, process_command,
}

-- The reply to a GET of a key with the value.
abbrev pub found : Bytes → Bytes
found [] = codes "ERR_NOT_FOUND"
found (b ∷ bs) = b ∷ bs

module _ (crc32 : Bytes → ℕ) (error_text : CommandError → Bytes)
    (report : HyperionEngine → Bytes) where
  set_reply_ok :
      (r : Result EngineError ℕ × HyperionEngine) {seq : ℕ}
      → r.0 ≡ ok seq
      → set_reply crc32 error_text report r ≡ (codes "OK_SET:" ++ decimal seq, r.1)
  set_reply_ok (ok n, e) h = ground arith
  set_reply_ok (err x, e) h = cc

  get_reply-found :
      (value : Bytes) (r : Result EngineError (Option Bytes) × HyperionEngine)
      → r.0 ≡ ok (some value)
      → (get_reply crc32 error_text report r).0 ≡ found value
  get_reply-found value (err x, e) h = cc
  get_reply-found value (ok none, e) h = ground arith
  get_reply-found [] (ok (some []), e) h = refl
  get_reply-found [] (ok (some (b ∷ bs)), e) h = ground arith
  get_reply-found (b ∷ bs) (ok (some []), e) h = ground arith
  get_reply-found (b ∷ bs) (ok (some (c ∷ cs)), e) h = ground arith

  -- A SET of a UTF-8 key that has no "|" to any value, where the engine stores it, is answered with the
  -- sequence number; a GET of the key that follows is answered with the value, but with
  -- ERR_NOT_FOUND if the value is empty.
  pub set_then_get :
      (c c' : Clock) (key value : Bytes) (e : HyperionEngine) {seq : ℕ}
      → IsSharded e
      → All (λ b. (b == b'|') ≡ false) key
      → decodes key ≡ true
      → (write crc32 c key value e).0 ≡ ok seq
      → let (reply, e') = process_command crc32 error_text report c 1 (key ++ (b'|' ∷ value)) e in
        (reply ≡ codes "OK_SET:" ++ decimal seq)
        × ((process_command crc32 error_text report c' 2 key e').0 ≡ found value)
  unfolding process_command set_command get_command
  set_then_get c c' key value e {seq} h plain utf8 stored =
      let set =
        ap (λ o. set_key crc32 error_text report c o e) (split_at-join b'|' key value plain) in
      let stored' = set_reply_ok (write crc32 c key value e) stored in
      rw (set, utf8, stored')
        (
          refl,
          get_reply-found value (read crc32 key (write crc32 c key value e).1)
              ((read-write crc32 c key value key e h stored).2 ∙ rw (beq_refl key)),
        )
