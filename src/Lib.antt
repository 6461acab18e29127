-- ===== src/Lib.antt =====
-- Models of the C++ programs of nim-brokers, and of the core code they stand on, with the theorems
-- about them.
--
-- nim-brokers lets components talk through brokers (requests, events, signals) that are addressed
-- by a broker context. Its libraries are called from C++ through generated classes, and C++ plugins
-- serve requests through a fixed C interface. The programs that are modelled:
--
-- * Torpedo (examples/torpedo/cpp_example/main.cpp): a terminal client that creates two captains in
--   two contexts, attaches four listeners to each, lets them duel, and draws the boards in every
--   round until the game ends or q is pressed.
--   - Torpedo/Config.antt: Config, printUsage and parseArgs; Torpedo/EventLog.antt: EventLog.
--   - Torpedo/Ansi.antt, Torpedo/Cells.antt: the escape codes, ownSymbol, enemySymbol, coordLabel,
--     printOwnCell and printEnemyCell; Torpedo/Board.antt: makeGrid, printGridHeader, printGridRow and
--     printBoard; Torpedo/Status.antt: what drawScreen prints under the boards; Torpedo/Screen.antt:
--     drawScreen.
--   - Torpedo/RawTerminal.antt: RawTerminal on a POSIX system, with the terminal's settings and the
--     bytes that wait; the calls of termios succeed, and a select without a byte behind it reads none.
--   - Torpedo/Messages.antt: the texts of the listeners of registerCallbacks.
--   - Torpedo/Session.antt: the state of main, the trace of the calls it makes, and the monad of its
--     steps; Torpedo/Session/Setup.antt: contexts, listeners and requests up to the start;
--     Torpedo/Session/Rounds.antt: the loop; Torpedo/Session/Main.antt: cleanup, the early returns and
--     the destructors, which shut Blue and then Red down.
--   The generated library is a parameter: what it answers to each call depends on all the calls
--   before. A listener's messages are received before each read of the log. The loop runs on fuel,
--   one unit a round; run_ends gives the fuel that is enough. Texts hold no zero byte where they are
--   printed by %s, delays are counted in hundredths of a second, and numbers in decimal take fuel
--   that every 32-bit number stays below.
-- * The device monitor (examples/ffiapi): a library and its clients in C++ and in C, which add devices,
--   list, query and remove them, send two readings by a one-way signal, and count the events received.
--   - Monitor/Types.antt: the values and the interface of the generated C++ class, a parameter of the
--     client; Monitor/Provider.antt: the providers of nimlib/mylib.nim; Monitor/Session.antt: these
--     providers behind the interface, as documented: handles from 1, handle 0 for all callbacks, signals
--     and events handled in the client's next pause.
--   - Monitor/Cpp.antt, Monitor/Cpp/Queries.antt and Monitor/Cpp/Main.antt: cpp_example/main.cpp, its
--     callbacks, its parts and main with the destructor; Monitor/Cpp/Async.antt: the asynchronous
--     queries as moves of the main thread and the delivery thread. The lines that the callbacks of these
--     print, the size of their window, and the timeout of a call are left out: a callback may run at any
--     time after its call.
--   - Monitor/C/Types.antt: mylib.h with texts and arrays that may be NULL; Monitor/C/Callbacks.antt,
--     Monitor/C/Queries.antt and Monitor/C/Main.antt: example/main.c, with the results that are not
--     freed yet and the contexts that are not shut down yet; Monitor/C/Bound.antt: the library behind
--     that interface.
--   A callback runs in a pause of the client. Readings are counted in hundredths, the clock shows one
--   time during a run, and the parts of main are in Client.antt's monad, where a step can return from
--   main, be undefined, or wait for ever.
-- * The interface library (examples/ffiapi/hierlib): Hier/Impl.antt has HierImpl and WidgetImpl of
--   nimlib/hierlib.nim, Hier/Client.antt cpp_example/main.cpp with its assertions. A one-way message is
--   handled after a number of the client's pauses, and each of the three loops that wait makes a number
--   of pauses before its deadline; both are parameters. The int32 arithmetic is on integers, and
--   creating the context is taken to succeed.
-- * The persistence example (examples/persistence): Persist/Server.antt has the facade and its backends
--   (nimlib), for all the facades of a process, on the contexts of Context.antt; Persist/Client.antt
--   and Persist/Client/Program.antt have cpp_example/main.cpp with its assertions. An event goes out if a callback is registered for it, and
--   is handled after a number of the client's pauses; the loops that wait make a number of pauses before
--   their deadline, 400 in the program; both are parameters. Files are read and written without an
--   error. The third scenario, with its two threads, is left out.
-- * The storage plugin (examples/extapi/cpp_plugin/plugin.cpp): Extapi/Plugin.antt has attach,
--   detach and the ports they open and close, with the class Port of the generated header
--   (brokers/internal/ext_codegen_hpp.nim), Extapi/Plugin/Storage.antt the requests. The host is a
--   parameter in the same way; Extapi/Abi.antt has its table and the status codes of
--   brokers/broker_ext.h. The loop of compact has 200 rounds, counted down.
-- * The application that hosts a library (examples/extapi/cpp_host_lib/main.cpp): Extapi/HostLib.antt has
--   main and Builder::open of the generated header; the library and its host's table are a parameter,
--   of which storagelib with the provider of SaveNote (examples/extapi/nimlib/storagelib.nim) is an
--   instance in Extapi/HostLib/Passes.antt.
-- * The codec library (examples/extapi/cpp_cimport/codec.cpp): Extapi/Codec.antt, with the wrap-around
--   of 32 and 64 bits written out.
-- * The benchmark driver (test/ffibench/perf_driver.cpp): Bench/Stats.antt has summarize,
--   Bench/Perf.antt the request scenario, Bench/Perf/Events.antt the event scenario and main. A run is
--   an order in which calls complete and events are delivered, for any number of threads and of calls
--   of each; the wait for the events ends with its list of batches, which stands for the deadline.
-- * The concurrent stress test (test/ffibench/stress_mt.cpp): Bench/StressMt.antt. A run is an order in
--   which the threads' calls complete, for any number of threads and of calls of each; the library is
--   a parameter, whose reply may depend on all the calls before.
-- * The shutdown stress test (test/ffibench/stress_shutdown.cpp): Bench/StressShutdown.antt, where the
--   order of a cycle ends when its threads are told to stop.
-- * The test of foreign deliveries (test/ffibench/stress_event_no_nim.cpp): Bench/NoNim.antt. The wait
--   ends with its list of batches, which stands for the deadline.
-- * The queues between threads: Queue/Ring.antt has VyukovMpscRing of brokers/internal/mt_queue.nim,
--   Queue/Ring/Retired.antt the end of a consumer in pollCell of brokers/internal/mt_transport.nim,
--   Queue/Response.antt a response slot (ResponseSlotPool) with the calls that the requester, the
--   provider, a canceller and clearProvider make on it in brokers/internal/mt_request_broker.nim. A run
--   is a list of moves of any number of threads, in any order; each move makes at most one access to
--   what the threads share, and the memory orderings of the source are taken to make such orders all
--   there are. Positions are uint64 and generations uint32 with their wrap-around; the theorems are for
--   runs that are shorter than these ranges. A ring's history of claims and receipts is kept beside it.
--   A slot is taken by itself, since no operation touches another; the free-list is the count of the
--   slot's index on it, and a request reaches the provider once. The limit of withTimeout (chronos)
--   can end a wait before or after the poller has settled the request, which is two kinds of moves
--   (end_wait and end_wait_late), since giveUp does not tell them apart; InTime says of a run that the
--   second does not occur in it.
--   Spilled payloads and the wakers are left out.
-- * Broker contexts (brokers/broker_context.nim), the addresses in all of these: Context.antt.
--
-- Prelude.antt passes on the libraries' names and has lists over the native numbers, signed
-- integers, texts as lists of bytes, and C's decimal conversions.
--
-- Not modelled: floating-point output and printSideBySide, which nothing calls; the
-- pauses; the thread's current context and its lock; the sharded free-list and the payload
-- cells of the queues; the other examples and drivers; the macros that generate code; vendored code, which the programs reach only through
-- generated code.
mod Prelude
pub mod Client
pub mod Torpedo
pub mod Monitor
pub mod Hier
pub mod Persist
pub mod Extapi
pub mod Bench
pub mod Context
pub mod Queue
