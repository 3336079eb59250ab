-- ===== src/Lib.antt =====
-- A model of the Ledger Bitcoin application (with the Babylon extensions): the code by which a
-- device with little memory reads data of any size from a host that it does not trust, and some of
-- the code that it decides and displays with.
--
-- The parts, and how they fit together. A command APDU comes in (`Apdu`,
-- src/boilerplate/apdu_parser.c) and its data become a cursor over bytes (`Buffer`,
-- src/common/buffer.c, on `Bytes`, src/common/read.c and write.c, and `Varint`,
-- src/common/varint.c). A handler that needs more data interrupts the command: it sends a request
-- and waits for the host's answer (`Client`, `process_interruption` of
-- src/boilerplate/dispatcher.c). On this stand the calls of src/handler/lib: `Client.LeafHash`
-- (get_merkle_leaf_hash.c) asks for a leaf of a Merkle tree and climbs the proof to the root that
-- the device knows, by the directions of `Merkle` (src/common/merkle.c, merkle.h);
-- `Client.Preimage` (get_preimage.c, get_merkle_preimage.c) asks for the bytes behind a hash;
-- `Client.Map` (get_merkle_leaf_element.c, get_merkle_leaf_index.c, get_merkleized_map*.c,
-- check_merkle_tree_sorted.c) combines them to maps of keys to values. `Parser`
-- (src/common/parser.c) reads a stream through two buffers, and `Bip32` (src/common/bip32.c,
-- src/swap/bip32_path.c) reads derivation paths. `Client.Stream` (stream_preimage.c,
-- stream_merkle_leaf_element.c, stream_merkleized_map_value.c) hands a value to a callback piece
-- by piece. `Wallet` reads the header of a wallet policy and the texts of keys
-- (src/common/wallet.c), with the extended keys decoded by `Base58` (src/common/base58.c).
-- `Io` (src/boilerplate/io.c) builds and sends the responses and keeps the timeouts, and
-- `Dispatcher` (src/boilerplate/dispatcher.c) chooses the handler of a command and sees to an answer;
-- there the size of the message array is a parameter, and a handler is a function on the state.
-- `Policy` holds the syntax tree of a policy, computes what a miniscript may cost and ask for
-- (`compute_miniscript_policy_ext_info` of src/common/wallet.c) and checks that it is sane
-- (src/handler/lib/policy.c). `Sessions` is the storage of MuSig2 sessions
-- (src/musig/musig_sessions.c), and `Script` the kinds and the display of output scripts
-- (src/common/script.c).
--
-- How code and model correspond. A function keeps its name and the order of its arguments. A byte
-- array is a list of natural numbers; a pointer is a list with an offset, or the tail of a list. A
-- `size_t` has 32 bits, as on the devices, and wraps where the code can make it wrap; a cast
-- writes its `%`. A function with out parameters returns them beside its result; `none` or an `err
-- n` is the failure -1 or -n. `Client.M` passes the state on: the APDU buffer, the read buffer,
-- the messages that the host has still to send and those sent to it. The host is any list of
-- messages: a theorem holds whatever it sends. A message is cut at IO_APDU_BUFFER_SIZE of the
-- device's SDK, taken as 260: a header of 5 bytes and at most 255 data bytes.
--
-- Loops. A loop with a counter recurses on what is left of it. `while (true)` in the leaf proof
-- and the loops for preimages recurse on fuel: each turn takes a message of the host, and the fuel
-- is one more than the number of messages. A host that sends messages without bytes or elements keeps
-- the code in these loops as long as it likes; against any other host the number of turns is bounded
-- by what the first message announces, and `Client.Spends` counts the messages that a call takes. The
-- loops of `merkle_get_ith_direction` and `ceil_lg` get 33 turns, which `Merkle.Directions` shows to
-- be enough for trees of at most 2 ^ 31 leaves; a loop out of fuel gives `none` or `stuck`,
-- which is no result of the code.
--
-- Policies. A node of the syntax tree is its flags and its token; relative pointers are the nodes
-- that they point to. An int16_t is its 16 bits, so that -1 is 0xffff also in the uint16_t tables
-- of a `thresh`. `Policy.Solutions` describes miniscript independently of the code: the canonical
-- satisfactions and dissatisfactions of each token, by the table of the miniscript reference, as
-- lists of stack items and timelocks. It also says what the parser has checked of a tree
-- (`IsParsed`): thresholds, the length of a list, and an expression of type K under `c:`.
-- `Policy.Analysis` is one induction on the tree; `Policy.Stack`, `Policy.Signatures` and
-- `Policy.Timelocks` are its three uses, each the rules of `Policy.Rules` for all tokens.
--
-- SHA-256 is the library of the device, the parameter `Merkle.Sha256`: hashing in pieces gives the
-- hash of the pieces one after the other, and a hash has 32 bytes. That hashes do not collide is
-- not assumed: a theorem that needs it gives a pair of different messages with one hash instead.
--
-- Not modelled: the user interface, the handlers of the commands, the parser of
-- descriptor templates and the scripts made from them, the PSBT code, elliptic curves, and the
-- encoders of addresses. The state of a callback is returned only by a call that succeeds.
pub mod Common
pub mod Bytes
pub mod Varint
pub mod Buffer
pub mod Merkle
pub mod Apdu
pub mod Client
pub mod Sessions
pub mod Script
pub mod Io
pub mod Dispatcher
pub mod Parser
pub mod Bip32
pub mod Base58
pub mod Wallet
pub mod Policy
