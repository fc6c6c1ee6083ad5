-- ===== src/Lib.antt =====
-- Verification of librtaio, a network protocol between a server and its clients over Boost.Asio.
--
-- The program. A client (src/api) sends packets to a server; the server's acceptor
-- (src/core/network/async_acceptor.cpp) keeps a set of sessions (src/core/network/session_handler.cpp),
-- one for each client, which read a packet's header, then its body, and answer. A packet is an array of
-- FIELD values (src/protocol/packet_protocol.h) that serialize_packet writes to an output stream and two
-- decoders read from an input stream (src/protocol/packet_protocol.cpp); the streams (src/common) put
-- words in network order.
--
-- The files.
--   Base: names of the library passed on, tests on numbers, lists as arrays, and Outcome, how a run of
--     a function ends: done with a result, aborted by assert, thrown, or fault (an access outside an
--     array).
--   Stream: src/common. Host holds what the machine, the compiler and Boost give; ByteOrder is
--     net_stream.cpp, Buffer io_streambuf.h, Output output_stream.cpp, Input input_stream.cpp; their
--     child modules prove what words and arrays become. Values is about arrays in the memory of hosts
--     of either byte order, RoundTrip about floats.
--   Protocol: src/protocol and src/include/error_code.h. Field has the types, numbers and message
--     macros; Wire describes a packet without the code; Encode is serialize_packet, Decode the two
--     decoders, Fields copy_fields and fields_size; Messages has the messages of the connection
--     service; Send is what both sides do to send a message; RoundTrip joins both directions,
--     and Kinds does so for one field: an integer or, in Kinds/Arrays, an array; Cut says what a body
--     that is cut short is decoded to.
--   Network: src/core/network. Acceptor is async_acceptor.cpp, Session is session_handler.cpp and
--     api_network.cpp; Session/Receive, ReceiveHeader, Reject, AnyHeader, Requests, Replay,
--     ShortBody, Closing and Faults say what a session does with what it reads; Scope says what it
--     can do to the acceptor, whatever it reads. Alone says that a session does not depend on the
--     acceptor. Exchange follows a client's first request to the answer, Exchange/Answer the answer
--     back to the client, and Exchange/Program the sample program and its session to the end of
--     both. Service is network_server.cpp with all sessions and their acceptor; its modules
--     Isolation and Interleaving say what sessions do to each other, Soundness what holds in every
--     state, Client, Accepted and Leaving how one client is served among others from its accept to
--     its disconnection, Refusal what a failed accept leads to, Ending how the service ends, and
--     CutShort how a client ends it. Work says when there is work. Registry is an abstract service, a
--     function from addresses to sessions with the rules by which it serves; Registry/Refines and Registry/Run relate the two, and Order uses that for events of
--     two clients.
--   Api: src/api. Client is rtdb_client_impl.cpp and Program rtdb_client.cpp and
--     src/test/client_main.cpp; Receive and LongAnswer say what a client makes of what it reads.
--   App: src/libs/app.cpp, file.h, config.h, daemon.h and src/main.cpp. Args is parse_args, PidFile
--     the pid file, Config IniConfig (with boost::property_tree as a parameter), Signals
--     signal_handler and the loop of MyApp::run, Daemon daemonize (Daemon/Calls how each call may end, Daemon/Ends how all may),
--     Process how a part of the program ends, Stop kill_process, and Init init and main; Init/Life
--     follows a daemon from its start to its end, Init/Stopping a daemon and the process that stops it,
--     and Init/Refused says when a daemon is not started.
--   The modules Tests apply the theorems at concrete inputs.
--
-- How state corresponds. A stream is a record of its buffer (bytes done, bytes to come), its state and the
-- host's order. A session is a record of the members of session_handler and of the asynchronous operation
-- that is pending; complete_read, fail_read and complete_write are the events by which Boost.Asio ends that
-- operation, with any bytes, and run the handler that was bound to it. The receive buffer is the storage of the
-- vector as far as it is known, and has room for a header at least. Integers are native numbers with
-- their wrap-around written out: a 64-bit value of a FIELD is its bit pattern, to_int and to_size are the
-- casts of the source. Memory behind a pointer is a list of bytes. `now` is the value of time(NULL) while a
-- handler runs. A service is the sessions by their addresses, and the acceptor with its set; its events are
-- what Boost.Asio completes. The service returns when no accept and no
-- operation of a session is under way. Where a handler does what is undefined, nothing is said of what follows. The file system is a map from paths; the answers of fork, kill and the like
-- are parameters. The loops of the protocol go over the fields, elements or pieces given. Two loops wait
-- for other processes: that of kill_process is followed for a given number of tests, which is enough when
-- it is above the test at which the file is gone; that of MyApp::run goes over the sleeps and the signals
-- that come in each, which the process handles, ignores or is ended by. A failed assert in the server's thread
-- is a SIGABRT among them, in a sleep or while the thread is joined.
--
-- Taken as given: the checksum of Boost is a function of a block of bytes with 32-bit values, and may
-- differ between hosts only where a theorem does not ask for SameCrc; floating-point conversions are
-- functions of the compiler; std::istream, std::ostream and std::streambuf as the standard describes
-- them; a read of Boost.Asio stores at most the bytes asked for. Memory does not run out.
--
-- Not modelled: logging and the copy of log4z (src/libs/log4z.cpp); what usage and welcome print; the two
-- threads of the server's process, which share only the io_service and g_quit (the service and the
-- application are separate models); signals that stop a process, and those that come before the loop of
-- MyApp::run; the lock of the acceptor, since one thread runs all handlers; that
-- threads of a client wait for each other at its lock; src/common/singleton.h, a template that nothing
-- uses and that cannot be compiled when something does; src/api/dllmain.cpp, two functions with empty
-- bodies.
pub mod Base
pub mod Stream
pub mod Protocol
pub mod Network
pub mod Api
pub mod App
