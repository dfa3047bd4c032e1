-- ===== src/Lib.antt =====
-- A verification library for ForgeNX Engine, a solo mining pool for SHA-256d coins. The pool takes a
-- block template from a coin's node, makes a coinbase transaction with a gap for two extranonces,
-- sends miners its halves and a Merkle branch (Stratum V1) or a job (Stratum V2), and puts a block
-- together when a miner solves a header.
--
-- The parts and the files that model them:
--   pkg/coinbase/script.go: Coinbase/Script; its integers in Coinbase/VarInt, its heights in
--     Coinbase/Height.
--   pkg/coinbase/builder.go: Coinbase/Builder (BuildCoinbaseParts, AssembleCoinbase,
--     AddWitnessData), Coinbase/VarInt (readVarInt), Coinbase/Merkle (MerkleRoot,
--     ComputeMerkleRootFromBranches). Coinbase/Parse is a reader of transactions that is no part of
--     the program: Coinbase/Layout states against it what the builder makes.
--   pkg/engine/jobmanager.go: Engine/Jobs (the state, look-ups, pruning), Engine/Jobs/Refresh
--     (refreshTemplate, pollLoop), Engine/Jobs/Sessions (RegisterAddress, UnregisterAddress),
--     Engine/Branches (computeStratumMerkleBranches), Engine/Words (swapHashEndianness).
--   pkg/engine/sharevalidator.go: Engine/Shares (the checks of ValidateShare), Engine/Shares/Submit
--     (what it does with the outcome), Engine/Words (swapEndianWords).
--   pkg/engine/rejections.go: Engine/Rejections.
--   pkg/stratum/vardiff.go: Stratum/VarDiff. pkg/mesh/activity.go: Mesh/Activity.
--   pkg/mesh/balancer.go: Mesh/Balancer (how far a fleet is from its target, difficultyFit),
--     Mesh/Moves (the moves of a round), Mesh/Placement (what is kept of them, SettledUntil).
--     sort.Slice is the record Sorting, any function that keeps what holds of all elements; math.Max
--     is an argument.
--   pkg/stratumv2/channel.go: Sv2/Channel (channels, jobs, extranonces), Sv2/Accounting (RecordShare,
--     FlushPendingDiff).
--   pkg/stratumv2/codec.go: Sv2/Wire (the field codec), Prelude/Bytes (the little-endian readers).
--   pkg/stratumv2/messages.go: Sv2/Decode, Sv2/Encode, Sv2/EncodeJob.
--   pkg/stratumv2/pow.go: Sv2/Pow (headers, hashing, the Merkle folding), Sv2/Target (targets and
--     ValidateShare).
--   pkg/coin/difficulty.go: Coin/Difficulty. pkg/coin/rtt.go: IsRTTDataValid, in Engine/Shares/Submit.
--   pkg/coin: Coin/Bech32, Coin/Segwit, Coin/Base58 and Coin/CashAddr are the address formats.
--     Coin/Standard, Coin/Outputs and Coin/Block are the method bodies that the coins share, and
--     Coin/Bitcoin, DigiByte, BitcoinIi, BitcoinCash, ECash, Fractal and Generic are the coins, each
--     with its parameters and methods. Coin/Types and Coin/Generic have the records of coin.go, and
--     Coin/Interface the interface that pkg/engine calls a coin through.
--   pkg/noderpc/types.go: Coin/Template, the block template.
--
-- Bytes are natural numbers below 256 and a slice is a list of them; a Go string is the list of its
-- bytes, and the texts of pkg/coin are ASCII. Machine integers keep their wrap-around, written as
-- remainders; an int64 is an integer, with int64_sub of Coin/Outputs for its subtraction. Errors
-- are values: Option, or Result with an error type of the component, one constructor for each
-- message. SHA-256 and RIPEMD-160 are not code of the repository: the record Sha256 of
-- Coinbase/Merkle stands for the first, any function to 32 bytes, the second is a plain argument.
--
-- Objects that mutate are records that each operation takes and returns. The job manager shares its
-- jobs between a map and the latest job, so they stand in a store that both refer to; a Go map is an
-- association list (Prelude/Table), and where the code runs through one, in the order of that list.
-- Locks are left out: every operation that takes one is one step. The clock is an argument, in
-- nanoseconds, read once in each operation. Floating point is the record Floats of Prelude/Float, any
-- operations on any type, and a law of floats that a theorem needs is a hypothesis. Callbacks, the
-- node and the statistics are what an operation returns: a job to broadcast, or a list of effects.
--
-- Loops are structural recursion over the list that they run through. The others run on fuel that
-- is enough: eight rounds for the bytes of an int64 height, the number of hashes for a Merkle tree,
-- whose levels halve, the number of bits for the inner loop of ConvertBits, the length of a Base58
-- text for the bytes of its number, 33 rounds for the bytes of a target, of which 32 are allowed, and
-- the number of jobs for pruning them.
--
-- Not modelled: frames and the Noise transport, the sessions and servers of both protocols, the
-- formula of the real-time target, which is floating point, the mesh but for its log and the moves of
-- its balancer, the HTTP APIs, configuration, logging, and network I/O.
pub mod Prelude
pub mod Coinbase
pub mod Coin
pub mod Engine
pub mod Sv2
pub mod Stratum
pub mod Mesh
