-- ===== src/Lib.antt =====
-- PA-BFT: a committee of nodes agrees on a chain of blocks with an adaptive quorum (pbft/).
--
-- A node keeps one consensus state for each sequence number. A proposal (PREPARE) makes the node
-- vote; votes are counted, and 2f + 1 VOTEs, or what the adaptive quorum asks for when a timer ends,
-- are announced in a COLLATE message; collate messages let the others follow. Committed proposals go
-- to the executor of the node, which executes them in the order of their sequence numbers. A view
-- change replaces the primary.
--
-- The files and the code that they model:
--   Message      pbft/consensus/pbft_msg_types.go: the messages
--   State        pbft/consensus/pbft_impl.go: State, MsgLogs, CreateState, verifyMsg, Prepare
--   State.Voting, State.Collating   the same file: Vote and VoteAQ; Collate, CollateAQ, FillHoleVoteMsgs
--   State.Access the setters, the predicates, and ClearMsgLogs and Redo_SetState of
--                pbft/consensus/pbft_view_impl.go
--   State.Tally, .Quorum, .Missed, .Intersection, .Adaptive, .Filling, .Preparing, .Equivocation
--                proofs about them
--   ViewChange   pbft/consensus/pbft_view_impl.go: VCState, ViewChange; proofs in ViewChange.Quorum
--   Node         pbft/network/node.go: the record Node
--   Node.Primary pbft/network/view.go: the view, the epoch and the primary
--   Node.Execute pbft/network/node.go: executeMsg; proofs in Node.Log, Node.Order,
--                Node.Rounds, Node.Chain (the log as the chain of decided proposals),
--                Node.Agreement (two nodes), Node.Progress (that it returns)
--   Node.Threads pbft/network/node.go and PrepareMsgMaking of pbft/network/proxy_server.go: sending,
--                starting the thread of a sequence number, proposing; proofs in Node.Starting
--   Node.Handlers   pbft/network/node.go: GetPrepare, GetVote, GetCollate; proofs in Node.Handling and
--                Node.Following
--   Node.Dispatch   pbft/network/node.go: dispatchMsg, resolveMsg; proofs in Node.Routing
--   Node.Filling pbft/network/view.go: FindStableCheckpoint, FillHole; proofs in Node.Checkpoint,
--                Node.Fills, Node.Holes
--   Node.ViewChanging   pbft/network/view.go: StartViewChange, GetViewChange, GetNewView; proofs in
--                Node.Dropping, Node.Cutting, Node.Untouched, Node.Installing, Node.Renewing (the log)
--   Node.Timers  pbft/network/node.go, startTransitionWithDeadline, and NumOfPhase of
--                pbft/consensus/util.go: starting and stopping the timers of the phases; proofs in
--                Node.Waiting
--   Node.Expiry  pbft/network/node.go, startTransitionWithDeadline: the message of a thread, and the
--                end of a timer; proofs in Node.Expiring
--   Server       pbft/network/proxy_server.go and NewNode of pbft/network/node.go: one message of
--                receiveLoop, NewServer, sendGenesisMsgIfPrimary; proofs in Server.Entering and
--                Server.Genesis
--   Server.Listening   receiveLoop as a loop, setReceiveLoop and DialOtherNodes of
--                pbft/network/proxy_server.go; proofs in Server.Breaking, Server.Dialing and
--                System.Beginning
--   Server.Signing   Sign and Verify of pbft/consensus/util.go, and SignatureMsg of
--                pbft/consensus/pbft_msg_types.go
--   Server.Sending   sendMsg and logErrorMsg of pbft/network/node.go, broadcast and attachSignatureMsg of
--                pbft/network/proxy_server.go; proofs in Server.Delivery and Server.Cooling
--   Launch       pbft/main.go, GenSeedNodeTables, and pbft/gen_nodelist.go; proofs in Launch.Tables and
--                Launch.NodeList
--   Launch.Listing   main of pbft/gen_nodelist.go; proofs in Launch.Writing
--   Launch.Starting   pbft/main.go: main, the node table and the keys; proofs in Launch.Keys and
--                Launch.Loading
--   System       the goroutines of NewNode and startTransitionWithDeadline (pbft/network/node.go) and of
--                receiveLoop as one step relation. Proofs: System.Frames, System.Marks and System.Safety
--                (the log and the counters); System.Mail and the modules that use it, up to
--                System.Validity and System.Origin (what the channels and threads hold)
--   System.Viewing   the same relation with the view changes of pbft/network/view.go; proofs in
--                System.Cutting, System.Renewing and System.Origin
--   System.Lingering   the threads that a view change has taken out of States (pbft/network/view.go) and
--                that go on with what they have; proofs in System.Sweeping and System.Lasting
--   System.Network   several nodes with such threads, pbft/network/node.go and
--                pbft/network/proxy_server.go: what one sends, any may receive; proofs in
--                System.Outgoing, System.Leaving, System.Passing, System.Relaying (what goes out),
--                System.Silence and System.Integrity
--   Base         tests, machine words, lists, maps, channels, outcomes, and what holds of a result
--   Tests        the theorems at concrete inputs
--
-- How the code is read. A method that mutates its receiver returns the new record; a mutex makes a
-- method one step, and concurrent handlers are a sequence of such steps. An int32 or int64 is its
-- bit pattern, a natural number, and the operations on it wrap; comparisons are those of the signed
-- values. The table's length and what is computed from it (F) are plain numbers. A Go map is an
-- association list in the order of first insertion. Votes are held by pointers, which are addresses
-- here, because FillHoleVoteMsgs compares them. A buffered channel is the list of what was sent and
-- not received, and a send on a full one blocks. A handler takes the node and the state of its
-- thread. A nil dereference and an index out of range are panics (Base.Outcome). The clock is an
-- argument.
--
-- Digest, that is JSON and SHA-256, is a parameter of Prepare: a function that may fail, with no
-- law. So are the reading of a received message (Server.Wire), the encoding and the connection of a
-- sender (Server.Sending.Link), SHA-256 and ECDSA (Server.Signing.Ecdsa, with the private key of the
-- node), the files and the parsers of keys (Launch.Starting.Disk), what the reads and dials of a socket
-- give (arguments of Server.Listening), and the entry that a `range` over a map yields first
-- (Node.Threads.Env). Where a theorem needs a law of one of them, it is a hypothesis: that the first
-- entry stands in the map, that JSON decodes what it has encoded and makes no message up, that a
-- signature is found right.
--
-- The steps of System leave open what the code does not settle: which goroutine is next, when a timer
-- ends, whether a send succeeds. A timer may end there at any time, also one that was stopped, and a
-- goroutine may act after it has taken the word to exit. A handler is one step, though the code holds no
-- lock over the whole of it: what another goroutine does in the middle of a handler is not in the
-- relation, but for the test of Prepared, where the goroutine that comes second may add after the first
-- (late_mark of Node.Handlers). A thread keeps its counters of votes and its log together until
-- FillHoleVoteMsgs, which raises the counter and not the log; a theorem that asks for a tallied log
-- (IsTallied of State.Tally) is about threads before that.
--
-- Fuel. The inner loop of executeMsg deletes a waiting proposal in each round, so it gets one unit
-- more than there are waiting proposals; the loops of FillHole and of the view change get one unit
-- more than the numbers that they pass, and so does the search for the threads that a view change
-- drops. That this is enough is proved.
--
-- Bounds. Theorems on the counters ask that the votes or messages stay below 2 ^ 31, the range of an
-- int32. The arrays Committed and Prepared have 1000 cells; an index past them is a panic, so an
-- execution that returns stays below 1000.
--
-- Not modelled: SHA-256 and ECDSA themselves (pbft/consensus/util.go), setRoute and Start, which serve
-- HTTP (pbft/network/proxy_server.go), the limit of goroutines that send at once, the copies of the
-- Gorilla hub and client, the commented-out checkpoints, the decoding of the files of
-- pbft/gen_nodelist.go, and pbft/node.go, an older copy of the node that nothing uses. When a timer
-- ends is not modelled. In System.Viewing a thread that a view change drops takes no more steps, while
-- in the code its message goroutine goes on; System.Network has these steps too.
mod Base
pub mod Message
pub mod State
pub mod ViewChange
pub mod Node
pub mod Server
pub mod System
mod Tests
pub mod Launch
