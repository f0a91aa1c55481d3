-- ===== src/Lib.antt =====
-- Verification library of the artdaq data acquisition framework: the parts that decide where an event
-- goes and which fragments answer a request for it.
--
-- The program. Board readers make fragments of data; event builders collect the fragments of one
-- event. A routing manager hands out the builders: a builder sends a token for each free buffer, and
-- a routing policy turns tokens into routes from sequence IDs to ranks. A sender asks for routes and
-- a builder asks a board reader for data by a request, a sequence ID with a timestamp. Requests wait
-- in a request buffer, fragments in a fragment buffer, and the fragment buffer answers the pending
-- requests, removes them from the request buffer, and counts the sequence IDs up. A builder puts the
-- fragments of an event together in a buffer of shared memory, asks for those that are missing through
-- a request sender, and releases the event to art when it is complete or has timed out. Every process
-- is commanded from outside through the same state machine of run states.
--
-- The files, with the code that they model:
--   Prelude      shared names: lists and tests over native numbers, `ℤ` for `int`, the wrap-around of
--                `uint64_t`, and the order of keys (Prelude/Ord).
--   Map          `std::map`, `std::set` and `std::unordered_map` as lists of pairs.
--                Trim: the loops that erase from the front down to a size.
--   RequestBuffer
--                artdaq/DAQrate/RequestBuffer.cc: push, GetNextRequest, RemoveRequest, waiting.
--                Served, Push and Next hold the facts about them.
--   FragmentBuffer
--                artdaq/DAQrate/FragmentBuffer.cc. Fill: Reset, AddFragmentsToBuffer and its wait.
--                Check: checkDataBuffer, sendEmptyFragments, checkSentWindows. Modes, Window and
--                Sequence: the request modes. Apply: applyRequests. Depth, Window/Contents,
--                Sequence/Contents, Answers and Due hold the facts about them. It uses the request
--                buffer's own operations.
--   FragCounter  artdaq/DAQrate/detail/FragCounter.hh: fragments received for each slot.
--   RequestSender
--                artdaq/DAQrate/detail/RequestSender.cc: the requests that are sent again and again.
--   Commandable  artdaq/Application/Commandable.cc and detail/Commandable_sm.cpp, over parameters for the
--                context of statemap.h and the virtual functions. Transitions: the state classes.
--                Commands: the commands from outside. Automaton: the same as a plain automaton.
--                Refines, Executes and Legal hold the facts about them.
--   EventManager artdaq/DAQrate/SharedMemoryEventManager.cc, over a parameter for `SharedMemoryManager`.
--                Subruns: rolloverSubrun. Buffers: complete_buffer_, check_pending_buffers_. Open:
--                getBufferForSequenceID_, AddFragment. Write: WriteFragmentHeader,
--                DoneWritingFragment. Run: startRun to endOfData, init fragments. Owned, Opened,
--                Release, Refill and EndOfData hold the facts about them.
--   DataSender   artdaq/DAQrate/DataSenderManager.cc: where a fragment is sent, over TableReceiver and
--                FragCounter. Laws: the turns of the destinations. Sent: what becomes of a fragment.
--   PortManager  artdaq/DAQdata/PortManager.cc: ports and group addresses; Configure: UpdateConfiguration.
--   TableReceiver
--                artdaq/DAQrate/detail/TableReceiver.cc: the routing table at a sender.
--   Routing/Packet
--                artdaq/DAQrate/detail/RoutingPacket.hh: modes, rows and tables.
--   Routing/Tokens, Restore, Turns
--                the members of artdaq/RoutingPolicies/RoutingManagerPolicy.hh that the policies
--                share, and the loops that RoundRobin and PreferSameHost have in common.
--   Routing/Policy
--                the interface of a policy: its two virtual functions, with the law that both give
--                out tokens only. The policies are instances of it and the manager takes any.
--   Routing/RoundRobin, NoOp, CapacityTest, PreferSameHost
--                the *_policy.cc files of artdaq/RoutingPolicies.
--   Routing/Manager
--                artdaq/RoutingPolicies/RoutingManagerPolicy.cc: the route cache, GetCurrentTable and
--                GetRouteForSequenceID; Receivers: AddReceiverToken and Reset.
--
-- How code becomes definitions. An object is a record of its members, and a method is a function from
-- the old record to the new one and the result, and runs as one step. (The source holds the mutex of a
-- request buffer for that long, and in a fragment buffer that of one data buffer at a time.) An
-- exception is a result of its own, and so is a loop of the source that never ends. Where the source
-- reads past the end of a container, which is undefined, the model goes on as if the search had ended
-- there: subrun_from, copy_fragments and window_requests, each with a note where it is defined.
-- `uint64_t` sums and differences wrap, the event manager's `int` counts of events and of over-size
-- fragments are 32 bits that wrap, and the conversions to `int` cut to 32 bits. The count of writers in a
-- buffer is kept as it is, and so are the port numbers of PortManager, sums of `int` that the source
-- leaves undefined from 2 ^ 31 on. A reading of the clock, `rand()`, and what other threads do during a
-- wait are arguments. Log messages and metrics leave no trace.
--
-- Loops are recursion on the list they walk over. Some run on a number: the turns of RoundRobin
-- take the number of tokens and one more, which is enough as each turn spends a token, and the loops
-- that count `next_sequence_id_` up take the distance to their end. The wait for a request in
-- applyRequests takes the list of what happens in its rounds, of which the source has at most 100. The
-- loop of endOfData counts down from the number of open events, as in the source. A command that is
-- passed on to the state above runs on the depth of the maps of states, three; a pass goes up one map
-- and at most one such pass happens. The retries of a send count down from the configured number.
--
-- Not modelled: sockets, shared memory and DDS (artdaq/TransferPlugins, artdaq/RTIDDS, TokenReceiver,
-- TokenSender and RequestReceiver of artdaq/DAQrate/detail), art modules, generators, XML-RPC, application start-up and
-- configuration, which call other libraries for nearly all they do. `Fragment` and
-- `ContainerFragmentLoader` are classes of artdaq-core: a fragment has the fields that this code
-- reads, and a container the list of what its loader was given. Of SharedMemoryEventManager the processes
-- of art are left out. RoutingManagerCore has logic of its own and is not in the library yet.
mod Prelude
pub mod Map
pub mod FragCounter
pub mod RequestSender
pub mod Commandable
pub mod DataSender
pub mod EventManager
pub mod FragmentBuffer
pub mod RequestBuffer
pub mod PortManager
pub mod Routing
pub mod TableReceiver
