-- ===== src/Lib.antt =====
-- NetServerStepbyStep: a reactor network library in C++ (v1.0 to v1.7), modelled as it stands in v1.7,
-- its last stage, with the earlier stages where they differ.
--
-- The parts and how they interact. An EventLoop owns an Epoller and a TimerQueue; a Channel is a
-- descriptor with the events that are watched for, and tells the Epoller of each change through its
-- loop. A TcpServer makes a TcpConnection for each accepted descriptor and keeps it in a map under its
-- name; a connection has a Channel, an input Buffer and an output Buffer. The loop polls, and runs
-- `Channel::handleEvents` of each active channel, which runs the handlers of the channel's owner.
--
-- Files:
--   Base           helpers: Boolean tests, lists over native numbers, slices of an array, masks, and
--                  Base/Faults, where `Outcome` is a run that ends with a value or at a fault.
--   Os             system calls as a record of operations, with the laws of the manual pages.
--   Buffer         v1.7/src/Buffer.h, v1.7/src/Buffer.cpp: `read_fd` is readFd, `make_space` is
--                  makeSpace, and so on. Bounds and Contents have the invariant, Queue the refinement.
--   Channel        v1.7/src/Channel.h, v1.7/src/Channel.cpp: Dispatch is handleEvents, Update the
--                  methods that end in update(), Registration and Changes the agreement with epoll.
--   Epoller        v1.7/src/Epoller.h, v1.7/src/Epoller.cpp.
--   TcpConnection  v1.7/src/TcpConnection.h, v1.7/src/TcpConnection.cpp: a `Link` is a connection with
--                  the poller. Send, Write and Shutdown are about the operations of these names
--                  (Shutdown about a CONNECTED connection),
--                  Drain about repeated write events.
--   TcpServer      v1.7/src/TcpServer.h, v1.7/src/TcpServer.cpp, and the handlers of connections that
--                  run callbacks: a `World` has the poller, the objects by address, and the map.
--                  Open and Close are about opening and closing, Lifetime about what is
--                  read of an object after it, Reading about the bytes that a peer
--                  sends, Names about the names. Table is the
--                  map, Invariant what holds of a whole server, with Renewal, Closing and Opening for
--                  the steps that keep it, and Events the work of a server in its loop, with Keeping,
--                  Handlers, Arrivals, Dispatch and Reach about what they keep and what a run
--                  reaches, and Rounds one round of the loop over the acceptor and the connections,
--                  with Storing, Accepting and Running.
--   TimerQueue     v1.7/src/TimerQueue.h, v1.7/src/TimerQueue.cpp: Set is std::set, Clock the wait that
--                  is set, Invariant the soundness of a queue, Expired, Round and Read are parts of
--                  handleTimingRead, Add and Cancel are addTimer and cancelTimer,
--                  Life the constructor and destructor.
--   EventLoop      v1.7/src/EventLoop.h, v1.7/src/EventLoop.cpp: a `Reactor` is the loop with its poller
--                  and the channels. Run is about `loop`, Timing has runAt, runAfter and runEvery.
--   Acceptor       v1.7/src/Acceptor.h, v1.7/src/Acceptor.cpp, v1.7/src/Sockets.h, v1.7/src/Sockets.cpp.
--   Address        v1.7/src/Address.h, v1.7/src/Address.cpp.
--   Thread         v1.7/src/Thread.h, v1.7/src/Thread.cpp: Steps has the interleavings, Gate
--                  what holds of them.
--   Earlier        Polling has Channel and Epoller of v1.5 (v1.5/src/Channel.h, v1.5/src/Channel.cpp,
--                  v1.5/src/Epoller.cpp), Refinement compares them with v1.7. Server is
--                  v1.4/src/TcpConnection.cpp and v1.4/src/TcpServer.cpp, with Close about closing.
--                  Echo is v1.0/EchoServer.cpp, with Replies about what it sends and
--                  Serving about the whole program, and EchoPoll v1.1/src/Epoller.cpp and
--                  v1.1/src/EventLoop.cpp, with Fairness and Looping about the same. ChannelMap is
--                  v1.2/src/Epoller.cpp, v1.2/src/Channel.cpp and v1.2/src/EventLoop.cpp, with
--                  Rounds, over Handling and Agreement, against v1.1. Looping is
--                  v1.3/src/EventLoop.cpp, v1.3/src/Epoller.cpp and v1.3/src/Channel.cpp, with
--                  Running, over Agreement and Dispatch, against v1.7. Buffered is
--                  v1.5/src/TcpConnection.cpp, with Agreement and Calls against v1.7, and its Server
--                  v1.5/src/TcpServer.cpp, with Ending about closing.
--   Apps           the callbacks of v1.7/Test/EchoServerTest.cpp, v1.7/Test/DiscardServerTest.cpp and
--                  v1.7/Test/DayTimeServerTest.cpp on the server: Echo, Discard and DayTime.
--   Tests          the theorems on concrete inputs, with a machine that keeps the laws of Os.
--
-- Conventions. A member function is a definition with the words of its name. State is passed on
-- explicitly; an object that others point to stands in a map from addresses, where `none` is an object
-- that is gone, so that a read of it is the fault `use_after_free`. `assert` is compiled in. Numbers
-- are natural numbers; `size_t` of Buffer wraps at 2 ^ 64, and the increment
-- of `nextConnIdx_`, an `int`, beyond the greatest one is the fault `overflow`; `undefined` is undefined
-- behaviour of the standard library. Event masks are numbers, with EPOLLIN 1,
-- EPOLLOUT 4 and EPOLLHUP 16. Time points are nanoseconds, intervals microseconds. An array has at most
-- 2 ^ 63 - 1 bytes. Two recursions are on fuel: `digits` (std::to_string), where the number itself plus
-- one is enough, and `run_while` (EventLoop::loop), which gives `none` for a loop that still runs.
-- Other loops are recursions over the list that the code goes over.
--
-- Not modelled: prints; the other parts of the earlier versions; the main functions
-- of the test programs. The user's callbacks, the clock and the system calls are parameters.
pub mod Base
pub mod Buffer
pub mod Os
pub mod Channel
pub mod Epoller
pub mod TcpConnection
pub mod TimerQueue
pub mod TcpServer
pub mod EventLoop
pub mod Earlier
pub mod Thread
pub mod Acceptor
pub mod Address
pub mod Apps
mod Tests
