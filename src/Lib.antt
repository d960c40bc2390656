-- ===== src/Lib.antt =====
-- python_portfolio: the verification library of the portfolio's programs.
--
-- The repository holds five independent programs. The library covers the parts of them that keep
-- state, translate data or compute:
--   helix_consensus, the election of a Raft cluster over UDP;
--   ouroboros_vm, an assembler and a stack machine;
--   hyperion_stream, a key-value server over a write-ahead log;
--   nebula_graph, an in-memory property graph with an index and a query language;
--   synapse_autograd, matrices, tensors with automatic differentiation, and an optimiser.
--
-- Prelude passes on the names that all files share: Boolean tests and equality, lists measured by
-- native numbers, results, signed integers, dictionaries in the order of insertion, big-endian words.
-- Struct is Python's `struct` in network byte order, with its round trips in Struct/RoundTrip.
--
-- Helix
--   Rpc           helix_consensus/helix/rpc.py: Packet.pack and Packet.unpack, byte for byte
--   Storage       helix_consensus/helix/storage.py: save_state as a list of file operations, load_state
--   Node          helix_consensus/helix/node.py: RaftNode as a record; each handler takes the node, the
--                 clock and its argument and returns the node and the datagrams that it sends
--   Node/Events   everything that can happen to a node, as a type; what holds after any run of events
--                 is in Durable, Voting and Election
--   Cluster       the nodes of helix_consensus/simulation.py and the datagrams between them, as a step
--                 relation; Cluster/Votes is the account of given and counted votes that every step
--                 keeps, and Cluster/Safety what follows for the leaders
-- A datagram goes through Rpc.unpack to handle_message, which saves term and vote through Storage before
-- it answers. Messages are packets; that a term of 2^64 or more cannot be packed is in Rpc alone.
--
-- Ouroboros
--   Text          the `str` methods that the assembler uses, on ASCII code points
--   Opcodes       ouroboros_vm/ouroboros/opcodes.py: the class OpCode
--   Compiler      ouroboros_vm/ouroboros/compiler.py: _tokenize, _generate, _fix_jumps and the tables
--   Vm            ouroboros_vm/ouroboros/vm.py: run on fuel, one unit for each round of its loop;
--                 Vm/Assembly gives instructions a meaning without bytecode, and Vm/Simulation and
--                 Compiler/Correct relate the two
-- The machine's integers are unbounded, as Python's are; a program that loops for ever has no fuel
-- that is enough, and straight-line programs need a round for each instruction.
--
-- Hyperion
--   Protocol      hyperion_stream/core/protocol.py: BinaryMeta, BinaryMessage and the message classes
--   Wal           hyperion_stream/storage/wal.py: WalSegment and WalManager over byte mappings
--   Engine        hyperion_stream/storage/engine.py: shards, write and read
--   Telemetry     hyperion_stream/utils/telemetry.py: counters and gauges
--   Server        hyperion_stream/network/server.py: process_command, and handle_client on fuel, where a
--                 unit for each byte of the input and one more are enough
-- The server hands a command to the engine, which logs the value through Wal before its shard holds it.
-- A double is the 64 bits of its encoding. zlib.crc32, the text of an exception and the text of the
-- metrics report are arguments. Tasks interleave at awaits only; nothing is awaited between the parts
-- of a write, so that commands are steps.
--
-- Nebula
--   Primitives    nebula_graph/core/primitives.py: nodes, edges, and properties that are integers or texts
--   Storage       nebula_graph/core/storage.py: the edges and the adjacency lists of GraphStorage;
--                 Represents, in Storage/Insertion, is the one list of edges that all of them stand for
--   Index         nebula_graph/index/inverted.py: PropertyIndex and IndexManager
--   Query         nebula_graph/query/parser.py: QueryParser over tokens
--   Execution     nebula_graph/main.py: ExecutionEngine.execute on a parsed query
--   Traversal     nebula_graph/core/algorithms.py: the breadth-first search on fuel, for which a round for
--                 each edge and one more are enough
--   Paths         nebula_graph/core/algorithms.py: the search by Dijkstra on fuel, for which a round
--                 for each edge and two more are enough (Paths/Rounds); Paths/Ways is the walk back,
--                 Paths/Sound and Paths/Thorough what a round keeps, Paths/Answers
--                 what the rounds come to, Paths/Walks the path
--   Weights       whole numbers in the place of the floats that weigh edges
--   Cluster       nebula_graph/cluster/raft.py: one node of the Raft sketch, with events for the rounds of
--                 its main loop, the end of an election's sleep, and messages
-- The execution asks the index first and scans the store if the index has no hit. Sets are lists with
-- nothing twice; the order in which the execution iterates over one is an argument. The source takes any
-- float as a weight; here a weight is a whole number of either sign, so that sums are exact, and the
-- theorem on Paths asks for weights that are not negative.
--
-- Synapse
--   Scalar        the numbers: Python's floats are a parameter, and the laws of exact arithmetic are a
--                 hypothesis of what needs them; Scalar/Sum and Scalar/Pairing are sums and inner products
--   Linalg        synapse_autograd/synapse/linalg.py on lists of lists; Linalg/Tables, Product and Cells
--                 give each operation on the table of a function of two indices
--   Tensor        synapse_autograd/synapse/tensor.py: a heap of tensors, an operation's closure as data;
--                 Tensor/Backward is the backward pass, Tensor/Order its order, and Tensor/Gradient
--                 what it computes
--   Optim         synapse_autograd/synapse/optim.py: SGD.step and SGD.zero_grad
--   Training      synapse_autograd/main_training_demo.py: Layer, MLP and an epoch; Training/Forward is
--                 what a call of the network returns
-- An operation makes a tensor whose closure names its operands by their places in the heap; backward runs
-- the closures, and the optimiser reads the gradients. The calls of build_topo go no deeper than the
-- place of the tensor, so that one more is fuel enough. The hypothesis IsExact holds of exact numbers;
-- floats obey it up to rounding. What holds without it, such as the products of matrices, is about the
-- sums in the order of the loops.
--
-- Not modelled: Linalg.randn and the data of the training script; of nebula_graph the lexer, whose
-- regular expressions are Python's, and the Path of the primitives; sockets, signals, locks and logging;
-- the demonstration scripts; the exception classes with their texts; Python's limit on the depth of calls,
-- which ends build_topo on a deep graph; in the cluster of Helix, a crash between two saves of one handler.
pub mod Prelude
pub mod Struct
pub mod Helix
pub mod Ouroboros
pub mod Hyperion
pub mod Nebula
pub mod Synapse
