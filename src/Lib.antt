-- ===== src/Lib.antt =====
-- Verification of horse-rpc, an RPC client library in C++ after Tars.
--
-- A call is a RequestPacket that the client encodes with TarsOutputStream, puts behind a length
-- and sends over a Transceiver; the bytes that come back collect in a TC_NetWorkBuffer, which
-- cuts them into packets; TarsInputStream decodes each into a ResponsePacket, and the
-- AdapterProxy of the endpoint finds the waiting request in its TC_TimeoutQueueNew and counts
-- the result, or shuts the endpoint off. Threads hand requests to each other through
-- TC_LoopQueue.
--
-- Tars: the wire format of src/include/client/protocol/Tars.h.
--   Tars.Wire has the types of the heads and the decode exceptions, as the monad of a decoder: a
--   function of the cursor that returns or throws with the cursor where the C++ leaves it.
--   Tars.Reader is BufferReader and the Tars…Buf and readFromHead macros. Its children are
--   Skip (TarsSkipToTag as `seek`, skipField as `skip_field`, skipToStructEnd) and Fields (the
--   overloads of TarsInputStream::read). At, Takes, Widths, Ints, Values, Containers and Absent
--   say what a read returns where given bytes stand in the buffer; Bounds says where a cursor
--   can be. Tars.Writer is BufferWriter and the overloads of TarsOutputStream::write.
--   Tars.Layout states the bytes of each field without a stream; Tars.RoundTrip joins the two
--   sides. Integers are signed numbers that wrap to words of 8 to 64 bits; a Char is kept as
--   its byte. The host is taken to be little-endian. A buffer is a list of numbers below 256;
--   the sums of the cursor are not wrapped, since it stays within 2^32 of the end.
--   Fuel: skip_field and the loops that call it have one unit more than the buffer has bytes.
--   Each nested call and each round has read the byte of a head, so this is enough; a run out
--   of fuel is the result `stuck`, which the theorems exclude.
-- Packet: src/include/client/protocol/RequestF.h. Request and Response are the two packets with
--   resetDefautlt, writeTo and readFrom; Maps has the string maps that both carry.
-- Net: src/include/util/tc_network_buffer.h and src/util/tc_network_buffer.cpp. Net.Buffer is
--   TC_NetWorkBuffer with its chunks; Contents, Header, Frames and Streams relate it to the
--   bytes that it holds. A chunk is below 2^32 bytes, since Buffer::add takes a uint32_t.
-- Protocol: Frame is tarsRequest and AppProtocol::parse, Responses with Heads and Outcome are the
--   response functions of ProxyProtocol (src/include/client/AppProtocol.h), and Current is the
--   server's side in src/client/Current.cpp. Requests, Replies, HeadReads and Partial follow a
--   packet over the stream, and Calls joins both directions. The bytes that lie behind a buffer
--   of 20 bytes, which the code reads, are a parameter.
-- Queues: LoopQueue is src/include/client/util/tc_loop_queue.h, with the list that it stands for
--   in Views and the calls as values in Calls. TimeoutQueue is
--   src/include/client/util/tc_timeout_queue_new.h; Counts, Valid, Sends and Expiry carry its
--   invariant, Reach its reachable states, Order the order of sending, and Requests what it
--   promises. An iterator is the id of its node, and the time is an argument of the calls that read
--   it. The erase of an iterator to no node, which C++ does not define, changes nothing here; in the
--   reachable states each iterator that is erased has its node.
-- Coroutine: the coroutines of a client thread, in src/include/client/CoroutineScheduler.h and
--   src/client/CoroutineScheduler.cpp. Links are the circular lists of CoroutineInfo over a
--   memory of pointers, with the list that each stands for in Rings. Scheduler is
--   CoroutineScheduler with its five lists; a coroutine's address is its uid. Lists, MoveTo and
--   Moves say what a move between lists keeps, Growth, Start, TakeFree and Creation how
--   coroutines are made, Wakeups, Statuses and Timeouts how they are woken, and Finish how they
--   end. Steps are the calls with who may make them; Reach has the invariant, and Run the loops
--   of run and tars_run, with Called for whom the wake-ups call, Turn for what a turn leaves, and Turns for who has one. What a coroutine does between two jumps is any sequence of steps that
--   ends in the main coroutine, a parameter. The rounds of run are given by their times. The
--   sum in sleep is not wrapped, and the negation of INT_MIN there, which C++ does not define,
--   is 2^31.
-- Client: Adapter is the part of src/client/AdapterProxy.cpp that shuts an endpoint off.
--   Connection is the connection of src/client/Transceiver.cpp with AdapterProxy::checkActive; Valid has
--   its reachable states, and Checks what checkActive answers. EndpointManager is
--   getNextValidProxy of src/client/EndpointManager.cpp, over any checkActive. Invocation is
--   the life of a request in src/client/AdapterProxy.cpp: invoke, doInvoke, finishInvoke and
--   doTimeout over the timeout queue, for shared connections; Owned counts the requests, Ready,
--   Calls, Returns and Timeouts carry the counts through each call, and Runs through all of
--   them. What sendRequest returns is any function of the connection and the message. The send
--   loop has the length of the send list as fuel, and doTimeout one unit more than there are
--   requests; the end of the fuel is a failure, which Runs excludes. Sending is sendRequest,
--   doRequest and send of src/client/Transceiver.cpp, over any answers of the socket; the loops
--   have the length of the buffer as fuel, since a call of ::send that succeeds takes at least
--   one byte.
-- Base: numbers, words, bytes and lists that the parts share.
--
-- Not modelled: floating-point fields, the overloads for raw pointers and enums, and what an out
-- parameter holds behind a throw; the JSON and display members; timeout(data_functor&) of the
-- timeout queue; the iterators of the network buffer; receiving in Transceiver, and
-- AdapterProxy with one request at a time per connection. The stacks of coroutines and the
-- jumps between them are assembly; of a scheduler that terminates, destroy is left out.
-- The asserts on the position in a chunk and on the id behind generateId are left out: the
-- invariants of the network buffer and of the scheduler imply them. Sockets, threads, the update of endpoints, HTTP and the server are left out so far. malloc's
-- memory, the answers of the sockets, and the comparison with the float ratio are parameters.
pub mod Base
pub mod Tars
pub mod Packet
pub mod Queues
pub mod Net
pub mod Protocol
pub mod Coroutine
pub mod Client
