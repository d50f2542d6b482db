-- ===== src/Lib.antt =====
-- ServerCore, a C++ server runtime: its byte buffers, text validation, addresses, codecs, send queues,
-- sessions, dispatch, channels, ticks and request data, as functions on values and as steps of threads,
-- with what makes each of them correct.
--
-- The parts and how they meet. A connection receives bytes and appends them to a `FrameReader`
-- (src/Protocol/Framing.cpp), which owns the store of a `FrameCodec::Reader`
-- (include/ServerCore/Protocol/FrameCodec.h). The codec cuts the stream into frames, each a length of
-- four bytes and a body, and hands each body to the callback of the frame reader, which queues a copy
-- if the admission function of the caller lets it in and the allocator grants it. `EncodeFrame` and
-- `EncodeTo` are the other direction. A body is text or binary: `IsValidUtf8` (src/Core/Utf8.cpp)
-- decides the first, `BinaryReader` and `BinaryWriter` (src/Protocol/BinaryIO.cpp) read and write the
-- second. What a connection sends waits in a `SendQueue`, counted in a budget that all connections of a
-- host share. A session is a connection with a number, which the `SessionRegistry` issues. An HTTP
-- request is routed by its path. `ByteBuffer` (src/Core/ByteBuffer.cpp) is the byte queue that the
-- layers share.
--
-- A message that was decoded goes to the `Dispatcher`, which hands it to the handler of its type, and
-- work for the thread of the sessions goes to the `JobQueue`. Tasks pass values through the bounded
-- channel and the latest value of include/ServerCore/Runtime/Channel.h, and whoever has to wait leaves
-- a `CompletionSubscription` there: the channel keeps its weak handle, the number of the subscription
-- here, and completes it when there is something to do. `ScheduleTicks` runs work at fixed intervals
-- on the timer scheduler. The HTTP side takes a request apart by route patterns, percent encoding,
-- fields and cookies, and finds the client behind trusted proxies, which are networks of addresses.
--
-- Base: names of the libraries and lemmas that all parts share; Base.Lists has lists over the native
--   numbers, Base.Store the stores that `memcpy` and `memmove` write to, Base.Bits the bit operations.
-- Core.Error: include/ServerCore/Core/Error.h. A `Status` is its code.
-- Core.ByteBuffer: `ByteBuffer`; Fifo has the effect of each call on the live bytes, Contract the
--   bounded queue that the buffer is measured against.
-- Core.Completion: src/Core/CompletionSubscription.cpp, as its users see it; Settling has what stays so
--   once a subscription ended, Threads the critical sections under any number of threads and
--   Threads.Quiet what holds when `Reset` returns.
-- Core.Endpoint, Core.Network: src/Core/Endpoint.cpp; Printing has `ToString`, RoundTrip an address
--   that is written and parsed, Prefix the bits that a network compares.
-- Core.Utf8: `IsValidUtf8`; Scalar has the encoding of Unicode scalar values.
-- Protocol.FrameCodec: the reader and the encoder. Stream has the parse of a whole stream, Chunks its
--   behaviour under concatenation, Pump, Room, Loop and Reading the steps of the reader against it,
--   RoundTrip the whole way from bodies to bodies.
-- Protocol.Framing: `FrameReader` and `EncodeFrame`; Copying has the callback, Ending and Delivery
--   one `Append` against the parse, Offers and Answers the admission and the allocator, Lifecycle all calls.
-- Protocol.BinaryIo: `BinaryReader`, `BinaryWriter` and, in Negotiation, `NegotiateProtocol`; Digits
--   has the bytes of a number, Items typed values, Positions, Values and RoundTrip what the
--   calls do with them.
-- Protocol.BinaryMessage, Protocol.DatagramCodec: src/Protocol/BinaryMessage.cpp and
--   include/ServerCore/Protocol/DatagramCodec.h, a payload behind a type or a token and a number.
-- Net.SendBudget: the counters of src/Core/AtomicBudgetInternal.h and src/Net/SendBudgetInternal.cpp.
-- Net.SendQueue: src/Net/SendQueueInternal.cpp, what a connection has yet to send; Accounting has the
--   counters, Shared all queues of a host over one budget, Stream the bytes in their order.
-- Session.Registry: src/Session/SessionRegistry.cpp, the sessions of a host under numbers that the
--   process gives out once; Lookup has what `Find` sees, Numbers the sets of numbers, Fresh the life
--   of a number.
-- Dispatch.Dispatcher, Dispatch.JobQueue: src/Dispatch/Dispatcher.cpp and src/Core/JobQueue.cpp;
--   Table has a registration, Routing the messages of a handler, Alike those of other types, Frozen the
--   table after Freeze, Order the jobs through the queue.
-- Runtime.Channel: `BoundedChannel`; Steps has the outcomes of its critical sections, Bounds its counter
--   and limits, Wakeups and Waiting the subscriptions that it keeps, Calls and Liveness what they are
--   told, Delivery and Closing the values.
-- Runtime.LatestValue: `LatestValue`; Versions has the values, Watchers the subscriptions.
-- Runtime.Ticks: `ScheduleTicks` of src/Runtime/TickRunner.cpp; Counting has the ticks and the intervals.
-- Web.RoutePattern: src/Web/RoutePattern.cpp; Segments has what a request path becomes, Precedence the
--   choice between routes, Captures the parameters, Escapes text with percent signs.
-- Web.Policy, Web.Forwarded, Web.TrustedProxy: src/Web/PolicyInternal.h and src/Web/TrustedProxy.cpp, the
--   header values and the walk over them; Fuel has the end of the loops, Chain the trust along the walk.
-- Web.ResponseEncoding: `EncodeChunk` of src/Web/ResponseEncoding.cpp; Chunks has what a chunk says.
-- Web.RequestData, Web.Cookies: src/Web/RequestData.cpp; Percent has the encoding, Fields the queries and
--   forms, Bytes the tests of a byte, Parsing and Printing the two cookie headers, Attributes,
--   Plain and Rules what a reader finds between the semicolons of the second.
-- A byte is a number below 256, which a theorem says where it counts; `size_t` has 64 bits. A C++
-- pointer to a context is the context. The pump of the codec has one unit of fuel more than there are
-- unread bytes, and the loop of `Append` one more than there are new bytes: each round takes a header
-- or a byte, so that the fuel is never used up, which the theorems on `append` include. The parse of
-- a stream has its length for fuel. The loop over the pairs of a forwarded hop has its text for fuel, of
-- which each pair takes a byte. Numbers are written with ten digits at most, and a byte has three.
--
-- Threads: an operation is the sequence of its critical sections, each a function on the state, and a run
-- is any list of them, so that whatever the scheduler does is a run. What another thread does between
-- two sections is an argument where only a value matters, as in the compare-and-swap loops of the
-- budgets, and a step of the run elsewhere.
--
-- What code outside the repository decides is an argument: the allocator, the admission function and
-- the handlers of the caller, the clock, the stop tokens, and whether the C++ library grants memory.
--
-- Not modelled: the messages of a status, sockets, threads, files and logs, the HTTP server and the
-- host that wires the parts; the head of a response; exhausted memory in the trusted proxies; the
-- signed numbers of the binary codec; the waits for send capacity.
pub mod Base
pub mod Core
pub mod Protocol
pub mod Net
pub mod Session
pub mod Dispatch
pub mod Runtime
pub mod Web
