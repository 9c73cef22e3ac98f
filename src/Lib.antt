-- ===== src/Lib.antt =====
-- Verification library of MARS (Multipath Adaptive Reliable Service), a Named Data Networking
-- forwarder with multipath path discovery and rate-controlled data transmission.
--
-- The parts of the program and their files:
--
-- * mars/fw/fw/multipath.go, the forwarding strategy, under Multipath. A prefix is first explored
--   by path discovery: its next hops are grouped into tiers by cost (Multipath/Hops), the tiers
--   are probed one after the other (Multipath/Discovery), and the node converges for the prefix
--   when the upstream faces have reported so or when a tier has no valid face left
--   (Multipath/Convergence). Interests are handled in Multipath/Interest, Nacks and Data in
--   Multipath/Feedback. A handler is a function from the state of the prefix (Multipath/State, the
--   source's `PathDiscoveryInfo` under its lock) to the state it leaves, with the packets that it
--   sends appended to a log. Multipath/Events joins the handlers into one step function.
-- * The scheduled failure of one face of a consumer's forwarder (same file), in Multipath/Failure.
--   Path discovery arms it, and data transmission polls it.
-- * Data transmission (same file), in Transmission. Each upstream face has a control state that
--   all forwarding threads share (Transmission/Control): threads note how many Interests wait for
--   it, one thread turns the face's tokens into budgets of the threads (Transmission/Budget), and
--   each thread takes its budget. An Interest is sent at once or assigned to a face by a weighted
--   round robin (Transmission/Assign) and queued (Transmission/Queue, Transmission/Forward); a
--   tick of the thread sends what the budgets allow (Transmission/Drain). Transmission/Runs joins
--   them into the events of a thread. `float64` is a type with operations (Transmission/Floats),
--   an argument of every definition; a theorem that needs a law of them states it.
-- * The routing daemon (mars/dv), in Routing. A neighbour's advertisement updates the routing
--   information base (mars/dv/table/rib.go in Routing/Rib, mars/dv/dv/table_algo.go in
--   Routing/Update), which is advertised in turn with the poison reverse. The base and the
--   announced prefixes become routes of the forwarder by commands (mars/dv/table/fib.go in
--   Routing/Fib, `updateFib` in Routing/Sync). Announced prefixes are replicated by published
--   operations (mars/dv/table/prefix_table.go in Routing/Prefixes). Names are a type with a hash
--   and an equality (Routing/Names).
-- * The link service of a face (mars/fw/face/ndnlp-link-service.go), in Faces: packets are cut into
--   fragments (Faces/Send) and reassembled in a ring of 16 buffers (Faces/Receive). Encoding and
--   parsing of frames are generated code and arguments.
-- * The tables of the forwarder (mars/fw/table), in Tables: the FIB-strategy tree (fib-strategy-tree.go
--   in Tables/Strategy, over the name trees of Tables/Tree), the dead nonce list (dead-nonce-list.go
--   in Tables/DeadNonces), the content store with its replacement policy (pit-cs-tree.go and
--   cs-lru.go in Tables/ContentStore) and the pending Interests (pit-cs-tree.go and pit-cs.go in
--   Tables/Pit). The routing information base (rib.go in Tables/Routes) is a tree of routes whose
--   changes rewrite the next hops of the FIB below the changed entry.
-- * A forwarding thread (mars/fw/fw/thread.go), in Forwarding: the pipelines of Interests
--   (Forwarding/Incoming), of Data, Nacks and expiry (Forwarding/Pipelines) and the outgoing ones
--   (Forwarding/Outgoing) work on the tables and call a strategy, a record of callbacks, of which
--   best-route and multicast are two (bestroute.go and multicast.go in Forwarding/Strategies).
--   What is sent is the packets handed to faces, which may still drop them.
--
-- Numbers are natural numbers; a 64-bit operation that can wrap has its modulus written out. A
-- map with `true` entries only is a list of its keys, a string a list of bytes, a name the list
-- of its rendered components, a time a number of nanoseconds. Loops over slices and maps are
-- structural recursions, so no fuel is needed. In Transmission a prefix, used as a key only, is
-- a number.
--
-- Not modelled: logging, the CSV statistics, the rate law and the estimates in floating point,
-- packet encoding (what decoding gives is an argument of the handlers), timers, sockets and
-- transports, management. Of the forwarder's tables, the hash table form of the FIB; of the
-- routing daemon, the exchange of advertisements and the faces of neighbours. The ndnd library
-- (mars/std) is called only, and the baselines are other projects' code.
pub mod Faces
pub mod Forwarding
pub mod Multipath
pub mod Prelude
pub mod Routing
pub mod Tables
pub mod Transmission
