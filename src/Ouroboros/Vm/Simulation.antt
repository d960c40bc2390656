-- ===== src/Ouroboros/Vm/Simulation.antt =====
-- The machine on the bytes of a straight-line program.
use python_portfolio.Prelude.{
  ℕ, zero, suc, ◌+◌, ◌*◌, ◌/◌, ◌%◌, ◌≤◌, ◌<◌, ◌≡◌, refl, ap, Option, some, List, [], ◌∷◌, ◌++◌,
  append_assoc, append-nil, arith, length, get_elem?, length-append, Result, ok, err, ◌>>=◌, lt→ltb,
  le→ltb, nat_eq, bytes_eq, string_eq, Bytes, get_elem?-append_at, get_elem?-append_right,
}
use python_portfolio.Ouroboros.Text.{Text}
use python_portfolio.Ouroboros.Opcodes.{
  OpCode, load_const, load_name, store_name, byte, by_byte, by_name,
}
use python_portfolio.Ouroboros.Opcodes
use python_portfolio.Ouroboros.Compiler.{Const, CodeObject, constant, arg_bytes}
use python_portfolio.Ouroboros.Vm.{
  Memory, VmError, VirtualMachine, Next, continue, step, execute, read_arg, run_loop, run, proceed,
}
use python_portfolio.Ouroboros.Vm.Assembly.{
  Instr, push, store, load, add, sub, mul, eq, print, exec, exec_all,
}

-- The bytes `bs` are the instruction, over the tables of constants and names.
module _ (consts : List Const) (names : List Text) where
  abbrev pub HasIndex : {A : Type 0} → List A → A → OpCode → Bytes → Type 0
  HasIndex xs a op bs =
      (i : ℕ) × (i < 65536) × (get_elem? xs i ≡ some a) × (bs ≡ byte op ∷ arg_bytes i)

  abbrev pub Encodes : Instr → Bytes → Type 0
  Encodes (push arg) bs = HasIndex consts (constant arg) load_const bs
  Encodes (store arg) bs = HasIndex names arg.1 store_name bs
  Encodes (load arg) bs = HasIndex names arg.1 load_name bs
  Encodes add bs = bs ≡ byte Opcodes.add ∷ []
  Encodes sub bs = bs ≡ byte Opcodes.sub ∷ []
  Encodes mul bs = bs ≡ byte Opcodes.mul ∷ []
  Encodes eq bs = bs ≡ byte Opcodes.eq ∷ []
  Encodes print bs = bs ≡ byte Opcodes.print ∷ []

  abbrev pub EncodesAll : List Instr → Bytes → Type 0
  EncodesAll [] bs = bs ≡ []
  EncodesAll (i ∷ is) bs =
      (b : Bytes) × (rest : Bytes) × (bs ≡ b ++ rest) × Encodes i b × EncodesAll is rest

module _ (consts : List Const) (names : List Text) where
  Encodes-length : (i : Instr) (bs : Bytes) → Encodes consts names i bs → 0 < length bs
  Encodes-length (push arg) bs (_, _, _, e) = rw e (omega arith)
  Encodes-length (store arg) bs (_, _, _, e) = rw e (omega arith)
  Encodes-length (load arg) bs (_, _, _, e) = rw e (omega arith)
  Encodes-length add bs e = rw e (omega arith)
  Encodes-length sub bs e = rw e (omega arith)
  Encodes-length mul bs e = rw e (omega arith)
  Encodes-length eq bs e = rw e (omega arith)
  Encodes-length print bs e = rw e (omega arith)

by_byte-byte : (op : OpCode) → by_byte (byte op) ≡ some op
unfolding by_byte
by_byte-byte load_const = refl
by_byte-byte _ = refl

abbrev at : ℕ → Memory → VirtualMachine
at ip m = record { ip = ip; memory = m }

-- Reads of the code behind the bytes `pre`.
module _ (pre : Bytes) (op : OpCode) (code : Bytes) where
  fetch :
      (consts : List Const) (names : List Text) (rest : Bytes) (m : Memory)
      → code ≡ pre ++ (byte op ∷ rest)
      → let co : CodeObject = record { co_code = code; co_consts = consts; co_names = names } in
        step co (at (length pre) m) ≡ execute co op (length pre + 1) m
  unfolding step
  fetch consts names rest m e =
      let read : get_elem? code (length pre) ≡ some (byte op) =
        rw e (get_elem?-append_at pre (byte op) rest) in
      rw (read, by_byte-byte op)

  read_arg-arg_bytes :
      (i : ℕ) (rest : Bytes)
      → i < 65536
      → code ≡ pre ++ (byte op ∷ (arg_bytes i ++ rest))
      → read_arg code (length pre + 1) ≡ ok i
  unfolding read_arg
  read_arg-arg_bytes i rest small e =
      let hi : get_elem? code (length pre + 1) ≡ some (i / 256 % 256) =
        rw e (get_elem?-append_right pre (byte op ∷ (arg_bytes i ++ rest)) 1) in
      let lo : get_elem? code (length pre + 2) ≡ some (i % 256) =
        rw e (get_elem?-append_right pre (byte op ∷ (arg_bytes i ++ rest)) 2) in
      let place : length pre + 1 + 1 ≡ length pre + 2 = omega arith in
      let whole : i / 256 % 256 * 256 + i % 256 ≡ i = omega arith in
      rw (hi, place, lo) (ap ok whole)

-- One step of the machine on the bytes of an instruction does what the instruction means, and
-- moves behind them.
module _ (consts : List Const) (names : List Text) (pre code : Bytes) where
  abbrev co : CodeObject
  co = record { co_code = code; co_consts = consts; co_names = names }

  abbrev moved : Bytes → Result VmError Memory → Result VmError Next
  moved bs r = r >>= λ m. ok (continue (at (length pre + length bs) m))

  step-exec :
      (i : Instr) (bs rest : Bytes) (m : Memory)
      → Encodes consts names i bs
      → code ≡ pre ++ (bs ++ rest)
      → step co (at (length pre) m) ≡ moved bs (exec i m)
  unfolding execute exec
  step-exec (push arg) bs rest m (i, small, found, e) h =
      let h' = rw e at h in
      let place : length pre + 1 + 2 ≡ length pre + length bs = rw e (omega arith) in
      rw (
        fetch pre load_const code consts names (arg_bytes i ++ rest) m h',
        read_arg-arg_bytes pre load_const code i rest small h',
        found,
        place,
      )
  step-exec (store arg) bs rest m (i, small, found, e) h =
      let h' = rw e at h in
      let place : length pre + 1 + 2 ≡ length pre + length bs = rw e (omega arith) in
      rw
        (
          fetch pre store_name code consts names (arg_bytes i ++ rest) m h',
          read_arg-arg_bytes pre store_name code i rest small h',
          found,
          place,
        )
        (ground arith)
  step-exec (load arg) bs rest m (i, small, found, e) h =
      let h' = rw e at h in
      let place : length pre + 1 + 2 ≡ length pre + length bs = rw e (omega arith) in
      rw
        (
          fetch pre load_name code consts names (arg_bytes i ++ rest) m h',
          read_arg-arg_bytes pre load_name code i rest small h',
          found,
          place,
        )
        (ground arith)
  step-exec add bs rest m e h =
      rw (fetch pre Opcodes.add code consts names rest m (rw e at h), e) (ground arith)
  step-exec sub bs rest m e h =
      rw (fetch pre Opcodes.sub code consts names rest m (rw e at h), e) (ground arith)
  step-exec mul bs rest m e h =
      rw (fetch pre Opcodes.mul code consts names rest m (rw e at h), e) (ground arith)
  step-exec eq bs rest m e h =
      rw (fetch pre Opcodes.eq code consts names rest m (rw e at h), e) (ground arith)
  step-exec print bs rest m e h =
      rw (fetch pre Opcodes.print code consts names rest m (rw e at h), e) (ground arith)

module _ (consts : List Const) (names : List Text) (code : Bytes) where
  abbrev finished : Result VmError Memory → Option (Result VmError VirtualMachine)
  finished r = some (r >>= λ m. ok (at (length code) m))

  proceed-moved :
      (pre bs : Bytes) (r : Result VmError Memory)
      (loop : VirtualMachine → Option (Result VmError VirtualMachine))
      (later : Memory → Result VmError Memory)
      → ((m : Memory) → loop (at (length pre + length bs) m) ≡ finished (later m))
      → proceed (moved consts names pre code bs r) loop ≡ finished (r >>= later)
  proceed-moved pre bs (ok m) loop later h = h m
  proceed-moved pre bs (err e) loop later h = refl

  at_end :
      (fuel : ℕ) (pre : Bytes) (m : Memory)
      → code ≡ pre
      → run_loop fuel (co consts names pre code) (at (length pre) m) ≡ finished (ok m)
  unfolding run_loop
  at_end zero pre m e = rw (e, le→ltb (length pre) (length pre) (omega arith))
  at_end (suc fuel) pre m e = rw (e, le→ltb (length pre) (length pre) (omega arith))

  run_loop-exec_all :
      (is : List Instr) (fuel : ℕ) (pre bs : Bytes) (m : Memory)
      → length is ≤ fuel
      → EncodesAll consts names is bs
      → code ≡ pre ++ bs
      → run_loop fuel (co consts names pre code) (at (length pre) m) ≡ finished (exec_all is m)
  unfolding run_loop exec_all
  run_loop-exec_all [] zero pre bs m f e h = at_end zero pre m (rw (e, append-nil) at h)
  run_loop-exec_all [] (suc fuel) pre bs m f e h = at_end (suc fuel) pre m (rw (e, append-nil) at h)
  run_loop-exec_all (i ∷ is) zero pre bs m f e h = absurd (omega arith)
  run_loop-exec_all (i ∷ is) (suc fuel) pre bs m f (b, rest, e, hb, hs) h =
      let h' : code ≡ pre ++ (b ++ rest) = rw e at h in
      let inside : length pre < length code = rw h' (
        omega (
          arith,
          length-append pre (b ++ rest),
          length-append b rest,
          Encodes-length consts names i b hb,
        )) in
      rw (lt→ltb _ _ inside, step-exec consts names pre code i b rest m hb h')
        (proceed-moved pre b (exec i m) _ (exec_all is) λ m'. rw length-append at (
          run_loop-exec_all is fuel (pre ++ b) rest m' (omega arith) hs
            (rw (← append_assoc) at h')))

-- The machine, started at the first byte, runs the bytes of a straight-line program to their end,
-- and does what the program means: the same stack, variables and output, or the same exception.
-- One round for each instruction is enough.
pub run-exec_all :
    (consts : List Const) (names : List Text) (is : List Instr) (code : Bytes) (fuel : ℕ)
    (m : Memory)
    → EncodesAll consts names is code
    → length is ≤ fuel
    → run fuel (record { co_code = code; co_consts = consts; co_names = names }) m
      ≡ some (exec_all is m >>= λ m'. ok (record { ip = length code; memory = m' }))
unfolding run
run-exec_all consts names is code fuel m e f =
    run_loop-exec_all consts names code is fuel [] code m f e refl
