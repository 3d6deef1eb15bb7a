-- ===== src/Lib.antt =====
-- A verification library for nbsdk, an SDK in C++: buffers, an event loop, a websocket messenger,
-- URLs and requests, logging and locking, and its signal processing.
--
-- Which file models which part, by paths from the repository's root:
--
-- Memory/Fifo.antt      memery/fifo_buffer.cc, memery/include/fifo_buffer.h. `FifoBuffer` is the class's
--   record of fields; create, get_data_len, set_capacity, read, write, read_offset_locked and
--   write_offset_locked are its functions, in snake case. Memory/Queue.antt is the contract: a queue of
--   bytes with a capacity. Children: Valid (the invariant), Around (the two copies round the end of the
--   array), Read, Write, Resize (one function each), Refine (any run of calls against the queue), Order
--   (first in, first out), Threads (calls of several threads around the mutex).
-- Memory/Buffer.antt    memery/include/buffer.h. `Buffer` is `BufferT<T>` for any T; its members have
--   their names in snake case, the constructors are create, create_from and move_construct, `at` is
--   operator[], `equals` is operator==. Children: Valid, Grow, Append, Move, Compare, and Access (the
--   shorter constructors, the pointer, the iterators and operator!=).
-- Memory/Copy.antt      memcpy and `size_t` arithmetic. Memory/Checked.antt: the ends of a member.
-- Base/EventLoop.antt   base/include/event_loop.h, base/event_loop.cc: the loop, with what it does with its
--   io_context and its threads as actions. Threads shows that none is left over.
--   Leaving has `Exit` in steps, among threads that run handlers; Leaving/Ends shows that it returns.
--   Race has `Loop` in the steps of several callers, Race/Threads and Race/Passed how many threads they start.
-- Base/Nlog.antt        base/include/nlog.h, base/nlog.cc: a message from its constructor to its destructor,
--   whose effects are a list, and the macros `log`, `log_if` and `check`. Paths has the theorems.
-- Base/CriticalSection.antt  base/include/critical_section.h, base/critical_section.cc. Threads lets any
--   number of threads take their steps in any order.
-- Math/Transform.antt   math/include/fft.h: the interface of the two transforms, with what a client may
--   rely on. Math/Heap.antt: the memory and the plans of the FFTW library, and the loops over arrays.
-- Math/Fftw.antt        math/fftw.h, math/fftw.cc, and Math/Ifftw.antt math/ifftw.h, math/ifftw.cc. Law fills
--   the interface, Life follows an object from its constructor to its destructor. Math/Factory.antt:
--   math/fft_factory.cc.
-- Math/GccPhat.antt     math/gcc_phat.cc: the search for the peak of the cross-correlation. Window shows
--   that it stays inside, Peak which value it finds. Estimate is the constructor and Execute, over two
--   `Transform`s, and Estimate/Delay what it returns.
-- Net/Session.antt      net/messenger/websocket_session.h and .cc. A member returns the object and the
--   operations and callbacks that it set going; `complete` gives each operation its handler. Children:
--   System (the session among its callers and the network, as a step relation), Writes (one write at a
--   time), Order (what is sent, in which order), Stall (what a failed write does), Shown (small members).
-- Net/Messenger.antt    net/include/messenger_interface.h, net/messenger/websocket_messenger.h and .cc.
--   It runs the session's handlers and takes their callbacks. Children: Recovery, System, Late (a wait
--   of the timer that `Close` cancels), Calm, Closing,
--   Shown (small members), Owner (the messenger with its event loop, and net/messenger/messenger_factory.cc).
-- Net/Url.antt          net/include/http_url.h, net/http/http_url.cc. `Builder` is HttpUrl::Builder; its
--   members have their names in snake case, with set_ where the source has Scheme, Host and Port. Children:
--   Parse (the parts of `Parse`, in the order of the source), View (HttpUrl itself), Normal, Entries,
--   Leaves and Made (what every builder satisfies), Queries (the query as a set of pairs), Segments (how a
--   path is added), Members (small members), Trip and Front (what the parts of `Parse` do up to
--   the path), Pieces (a query as its pieces), Refill (a map filled in its order), Tail (the query and the
--   fragment in `Parse`), Free (texts without the bytes that `Parse` cuts at), Roundtrip, Parts (what
--   `HttpUrl` cuts out of its text), NoPath.
-- Net/Request.antt      net/include/http_request.h, net/http/http_request.cc: the builder of a request, and
--   the request. Headers has its theorems, Members the small members.
-- Net/Call.antt         net/http/http_call.cc and the headers of the call, the client and the response,
--   which do nothing yet.
-- Net/Strings.antt      what that code uses of std::string, std::regex, atoi and streams, with the order of
--   strings in Strings/Order, searches in Strings/Search and numbers in Strings/Decimal. Net/Params.antt: std::set and std::map by their order, with their laws in
--   Params/Sets and Params/Maps. Prelude/Int.antt: `int`.
--
-- How the parts interact: a `WebsocketMessenger` owns a `WebsocketSession`, which calls it back, and the
-- `EventLoop` whose threads run both. A `GCCPhat` calls the transforms through their interface. The
-- buffers are used by no other part. A request holds a URL, which it parses when it is given a text.
--
-- Choices. Bytes are natural numbers that are only moved. `size_t` and `uint32_t` sums wrap where the
-- source adds; a FifoBuffer's capacity is taken to be at most 2^63, so that the sum of a position and a
-- length fits. Memory from `new` holds arbitrary values, a function from the index. A copy outside an
-- array, a division by zero and a removal from an empty vector are undefined behaviour and have no
-- result; for the buffers and the messenger the theorems show that they do not happen. A copy of no elements from or to a null pointer does
-- nothing. A failed CHECK ends the process, as it does on Unix. The
-- digits of a number n are written in at most n + 1 rounds, which are enough (Strings/Decimal); no other
-- recursion has fuel.
--
-- The handlers of a session run one at a time, since the code gives them one strand; a client's calls
-- stand between them. Which operation ends next, and with which error code, is up to the environment.
-- What a listener does when it is called is a parameter: the calls that it makes. A cancelled wait of the
-- timer ends with the code operation_canceled.
--
-- `tolower` is taken as it is in the C locale, which
-- changes ASCII letters only. A text of a URL is taken to be shorter than npos, as every std::string is. `Parse` ends in true, in false,
-- in the exception of a `substr`, or, where `atoi` cannot give the number, in undefined behaviour; the first
-- three leave a builder.
--
-- An object of the FFTW library is a cell of a heap that each transform has for itself; what a plan
-- computes is a parameter with the length of its result, doubles are any type with the operations that
-- the code uses, and memory is there when it is asked for. The doubles in gcc_phat.cc that hold sizes are
-- exact. A `std::mutex` knows which thread holds it; to lock it twice, or to unlock it from another thread,
-- is undefined.
--
-- Not modelled: an `Exit` of an event loop beside another call of it, the callbacks that throw while the
-- messenger's destructor runs, a destructor that runs on a thread
-- which it waits for, the ids of base/platform.cc, the macros and type aliases of base/include, the test
-- program, and the libraries under third, which are other projects'.
pub mod Prelude
pub mod Memory
pub mod Base
pub mod Math
pub mod Net
