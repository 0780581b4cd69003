-- ===== src/Lib.antt =====
-- Verification of parts of the network monorepo: the packages that run a peer-to-peer
-- publish/subscribe network. Trackers keep an overlay topology for each stream and tell the nodes whom
-- to connect to; nodes forward messages and drop duplicates; subscribers put the messages of each
-- publisher's chain in order and ask for those that are missing.
--
-- The library follows the packages:
--   Prelude: Booleans, lists, texts, and JavaScript's sets and objects with string keys.
--   Network: packages/network/src. NumberPair and Detector (logic/DuplicateMessageDetector.ts),
--     Topology (logic/OverlayTopology.ts), MessageBuffer (helpers/MessageBuffer.ts), Counter
--     (logic/InstructionCounter.ts), StreamManager (logic/StreamManager.ts), Throttler
--     (logic/InstructionThrottler.ts), RetryManager (logic/InstructionRetryManager.ts), LocationManager
--     (logic/LocationManager.ts), Tracker (logic/Tracker.ts), SeenSet (helpers/SeenButNotPropagatedSet.ts
--     and identifiers.ts), Node and its child Handlers (logic/Node.ts).
--   Protocol: packages/protocol/src. MessageRef (protocol/message_layer/MessageRef.ts), OrderedChain
--     (utils/OrderedMsgChain.ts), Ordering (utils/OrderingUtil.ts),
--     Validations (utils/validations.ts), Json (the values of untyped fields and arrays), StreamMessage
--     (protocol/message_layer), TrackerLayer (protocol/tracker_layer), ControlLayer
--     (protocol/control_layer).
--   Broker: packages/broker/src/plugins/storage. Batch (Batch.ts), BatchManager (BatchManager.ts), Bucket
--     (Bucket.ts).
-- Each module declares the state of its class as a record and one function per method, named as the
-- method is in the spelling of this library; its children prove its properties, and its child Tests
-- runs it on small inputs.
--
-- State is passed explicitly; a method that throws returns a sum or an Option. Sets and objects are lists
-- in the order of insertion, with string keys compared by their characters; names of Object.prototype are
-- not used as keys. Reading or changing a node that a topology lacks, and inserting a batch that is gone,
-- does nothing here, where the code throws a TypeError. The counter of a status is -1 or a natural number;
-- other numbers that the code counts with are natural numbers, without the loss of precision from 2^53 on.
-- Timers are flags or lists of armed timers, and what they run are steps of their own. Random choice
-- (`shuffleArray`, `pickRandomElement`), the package `heap` and the handlers of a chain are parameters,
-- and the ids that `uuidv4` makes are arguments, with hypotheses where a theorem needs any.
--
-- A tracker and a node give their outputs in order: what they emit and send, and what they call of other
-- parts. A node's asynchronous handlers are cut at their awaits, and what comes after one is an event
-- of its own. The tracker registry is a function from stream keys to addresses: it is not empty, and ids
-- of streams hold no `::`, for which the registry throws. The package `lru-cache`, the printing of
-- numbers, JSON.stringify and JSON.parse are parameters. Messages are written to arrays and read
-- from them; their fields are values of any type, which the constructors check.
--
-- Two loops run on fuel: the loop over the disconnection targets, whose fuel is their number, since each
-- round takes one, and the loop of `checkQueue`, whose fuel is the size of the queue, since each round
-- takes one message.
--
-- Not modelled: logging and debug output, texts of errors, connections over WebSocket and WebRTC, the
-- servers of the tracker and the broker, signing and encryption, Cassandra, the client and the command line
-- tools.
pub mod Broker
pub mod Network
pub mod Prelude
pub mod Protocol
