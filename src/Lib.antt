-- ===== src/Lib.antt =====
-- SimpleFT: a node of a chain of blocks that are proposed by sortition, voted on, and committed with
-- a threshold signature of a quorum of the votes (a quorum certificate).
--
-- The parts of the program and how they meet. A node (core/node.go) takes requests from clients
-- through an RPC handler (core/rpc_handler.go), which gives them serial numbers and puts them into a
-- pool. `ProposeBlockLoop` waits for a height of the candidate chain, draws lots for the next one, and
-- broadcasts either a block with requests of the pool or the message that it lost. `HandleMsgsLoop`
-- checks the signature of each message and starts a goroutine for it. The goroutines start one
-- another: a block goes into the pending blocks, from there into the candidate chain, and is voted for
-- once per height; votes are counted, and where there are votes of a quorum a certificate is built;
-- the certificate commits the ancestors of its block from the candidate chain, and then the
-- certificates that wait extend the chain.
--
-- The files.
--   Base          helpers: lists, maps and strings of Go, numbers, hex and decimal text
--   Data          the values that nodes exchange: core/block.go, core/vote.go, core/msg_type.go,
--                 core/rpc_handler.go, sortition/sortition_utils.go
--   Keys          the codecs of the threshold keys (sign/sign_tools.go); under it RoundTrip
--   Config        Config and LoadConfig (config/config.go); under it Clusters, on the loop over the
--                 cluster, and Generate: the tool of config_gen/main.go, with Tables, Nodes, Reading
--                 (what viper and the key libraries promise), Written (a file) and Loads (the
--                 files, loaded)
--   Hashing       encode and the hashes of core/utils.go and core/block.go; the signatures of
--                 sign/sign_tools.go over the primitives of the libraries
--   Equality      Equal of requests and blocks (core/rpc_handler.go, core/block.go); under it Chains:
--                 Equal of chains (core/chain.go)
--   Quorum        quorumNum of NewNode, and the threshold of config_gen/main.go
--   Node          the state of a node and NewNode (core/node.go, core/chain.go); under it
--     Broadcast     broadcast, verifySigED25519
--     Votes         BroadcastVote, handleVoteMsg, checkIfQuorumVotes, buildBlockWithQC
--     Candidates    handleNewBlock, tryUpdateCandidateChain, tryExtendCandidateChain
--     Commit        handleNewBlockQC, CommitAncestorByBlockQC, tryExtendChain
--     Sortition     handleSortitionMsg, the round and the seed of ProposeBlockLoop
--     Proposing     selectBlock, the rest of a round of ProposeBlockLoop
--     Tasks         the goroutines as tasks, HandleMsgsLoop, and the steps of a node
--     Runs, Counts  rules for what every run of a node keeps, and for what a run counts
--     OneVote, Lock, Ready, Stored, Heights   what every run of a node keeps; under Ready, Signatures:
--                   what extractPartialSigs gives for a certificate
--     Text          the String methods of core/block.go and core/chain.go; under it Laws
--     Ballots       the votes that stand behind what a node stores; under it Kept, Committed
--                   (what certificates commit) and Steps
--     Sample, Tests a cluster of one node over toy primitives, and its runs
--   Network       several nodes (main.go, core/node.go) and the messages between them; under it
--                 Backing and Vouched (every stored vote was broadcast by its sender), Quorums (two
--                 quorums of a cluster meet), Agreement, Justified (what is committed) and Forks, a run
--                 after which the committed chains of two nodes differ
--   Rpc           NewRequest in every interleaving of calls, with the packaging of requests
--   Sortitioner   NewSortitioner, Once and HashRatio (sortition/sortition_utils.go), and where NewNode
--                 panics on its threshold; under it Inputs
--   Transport     the connections and their pool (conn/net_transport.go, conn/net_conn.go); under it
--     Wire          the frame of SendMsg, handleMsg and handleConn; under it Delivered
--     Sharing       the goroutines that share the pool, in every interleaving; under it Owned, Steps and
--                   Runs (the owners of connections), Carried and Received (what the other side gets)
--     Transmit      the loop of broadcast over the pool; under it Rounds, and Refines: against the loop
--                   of Node/Broadcast, which is told what becomes of each attempt to send
--     Establish     EstablishP2PConns (core/node.go); under it Filled
--     Listening     the loop that accepts connections; under it Delays
--   Starting      main of main.go, StartP2PListen and StartRPCListen (core/node.go) and the transport of
--                 conn/tcp_transport.go, over what net and net/rpc do; under it Ports
--
-- How the code is modelled. A goroutine is a task of the system state. A step of the system is a
-- message that arrives, a request, a round of `ProposeBlockLoop`, or a run of any one of the tasks up
-- to the point where it gives up the lock (`BroadcastVote` and `handleNewBlockQC` take it twice, and are
-- two tasks each); its `go` statements add tasks. A run is any list of such events, so that a theorem
-- on all runs holds of every interleaving. A task that takes the lock waits while it is held by a
-- goroutine that has returned without giving it up; a send on the channel waits while the channel is
-- full. A panic ends the run. Reads that the code makes without the lock (`buildBlockWithQC` of its
-- block, `ProposeBlockLoop` of the candidate chain) belong to the step of their task. A round of
-- `ProposeBlockLoop` is one step of a run, made of `selectBlock` and the rest; the theorem on rounds
-- takes the states of the two parts apart. Of a round's broadcast, the step runs what can panic; its
-- attempts to send stand in Node/Broadcast and Transport.
--
-- A network is a system for each name. An event at a node is any message with any signature, or a step
-- of its own, so that messages are delayed, lost, repeated and reordered at will, and a faulty node is
-- the messages that it is made to have sent. That the signatures of the other nodes are not forged is
-- a hypothesis on the run.
--
-- Maps are lists of entries; a range statement goes through them in an order that is an argument, or
-- in the order of the list. Two maps of the node hold the same inner map of blocks after
-- `tryExtendCandidateChain`, and a write through one is seen through the other: these inner maps
-- stand in a heap and the outer maps hold addresses. Strings are lists of bytes, slices are nil or a
-- list. Numbers are uint64, and each sum that the code makes on them is taken modulo 2^64. The
-- quotient in `quorumNum` is a float64 in the code; below 2^51 nodes its ceiling is the one here.
-- The inner loop of `CommitAncestorByBlockQC` goes down from a height and is a recursion on it. The
-- decimal text of a number has as much fuel as the number, and each digit uses one.
--
-- A connection is an address into a heap, as it is shared between the pool and the goroutines. What
-- dialing gives and how many bytes the network lets through before a step of `SendMsg` fails are part
-- of an event; the bytes that have gone out are kept with the connection. The other side is
-- `handleConn` on these bytes. It recurses on fuel, and each message takes at least the byte of its
-- tag, so that fuel above the number of bytes is enough. An int is an integer of any size, a
-- float64 is given by its bits, and the operations on it are an argument. The configuration tool ends
-- in a panic or with the files that it writes; a range statement goes over a map in the order of its
-- list.
--
-- The msgpack codec, viper, the random function of the sortition, the generation of keys, and the
-- marshalling of scalars and points are arguments as well.
-- JSON, SHA-256, Ed25519 and the threshold signatures of kyber are the functions of
-- `Hashing.Primitives`, where those of Ed25519 panic on some keys (`none`), and theorems hold for all of these functions unless they say what they need.
-- What the network does to an attempt to send is an argument of `broadcast`; what chance does is an
-- argument of a round.
--
-- The loop of `listen` takes what `Accept` returns from its events. A call of `net.Listen` is given the
-- addresses at which the process listens already; what is said of ports is for those from 1 to 65535,
-- as port 0 asks for any free port and a higher one is refused.
--
-- Not modelled: the contexts of the transport, which nothing cancels; the methods of the TCP stream of
-- conn/tcp_transport.go, which hand on calls of the net package; the client (client/main.go), which is
-- a call of net/rpc behind a command line; logging; the shutdown of a node, which only the tests ask for.
pub mod Base
pub mod Data
pub mod Keys
pub mod Config
pub mod Hashing
pub mod Equality
pub mod Quorum
pub mod Node
pub mod Network
pub mod Rpc
pub mod Sortitioner
pub mod Transport
pub mod Starting
