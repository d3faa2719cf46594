-- ===== src/Lib.antt =====
-- TCP echo servers for Linux and their clients. The largest is the multi-worker server of
-- src/servers/multi_worker_nonblocking_io_multiplexing_server.h and src/servers/server_main.cpp,
-- from its command line to the bytes that it echoes. A server object sets up a listening socket,
-- registers it with an epoll instance and starts worker threads. Each worker waits for events; an
-- event of the listening socket makes it accept connections, an event of a connection makes it
-- read, echo and arm the descriptor again. The workers share one map from descriptors to the data
-- of the connections, and epoll events carry raw pointers to that data.
--
-- Common holds what every part shares: integers, lists on native numbers, maps, the outcomes of a
-- run (a value, an exception, undefined behaviour, fuel that has run out) with their rules, and
-- loops on fuel with the rules of total and partial correctness. Bytes holds `size_t` arithmetic
-- modulo 2^64 and byte buffers with bounds.
--
-- Os is the operating system that the program calls. It is no part of the repository, so it is a
-- parameter, the record `Os`; Os.Laws and Os.Kernel name what is relied on: `read` and `write`
-- transfer at most what they are asked to; an accepted descriptor was not open before; epoll
-- reports only pointers that it was given. Every call is recorded in a trace, with its answer; the
-- theorems speak of that trace.
--
-- Connection models `ConnectionData`, `handleConnectionEvent` and `rearmEpoll`. The buffer is a
-- list of 1024 bytes, a store outside of it is the fault `out_of_bounds`; and so is the logging of
-- a full buffer without a 0 as a C string. Each of the two loops runs on fuel; more than 1024
-- rounds are enough, since each round reads or writes at least one byte of the buffer or leaves.
--
-- Manager models `ConnectionDataManager`: `get`, `insert` and `remove` over a heap of objects; an
-- object that is no longer in the map is freed, and a use of it is the fault `dangling`.
--
-- Worker models the class `Worker`: `start`, `acceptConnections`, `closeConnection` and the
-- dispatch on the flags of an event. The loop of `acceptConnections` needs more fuel than clients
-- may wait in the queue. `start` never returns; the theorems hold after any number of its rounds.
-- The state is sound if the map and the heap agree, every connection in the map satisfies the echo
-- invariant, only open descriptors are in the map, nothing has come in or gone out on a closed
-- descriptor, and every pointer that epoll holds is live.
--
-- Setup models `setupServerTcpSocket`, with `close_fd` of src/utilities/file_descriptor.h. Server
-- models the server object and its `start` up to the joining of the threads; a thread reads the
-- member `server_sfd_` late, when it starts to run. In the source a thread may run from the moment
-- that it is made, while `start` goes on; in the model all of them start to run once the last has
-- been made. Server.Schedule interleaves the threads by whole rounds, Server.Interleave event by
-- event: a thread that has a turn waits, or handles the next of its events. Server.Start joins the
-- setup to the workers' invariant, and Server.Main is `main` of src/servers/server_main.cpp;
-- Os.Sockets names what is relied on there. Arguments reads the command line as each `main` does,
-- with the defaults of src/utilities/constants.cpp; `atoi` is a parameter.
--
-- Descriptor holds the interface of the class `file_descriptor`, which the other servers use and
-- the repository does not define; its methods are a parameter, and the move of such an object into
-- one that holds nothing is taken to make no call. Select models the loop of
-- src/servers/nonblocking_io_multiplexing_select_server.cpp, with descriptor sets as lists of
-- their members and FD_SET beyond FD_SETSIZE as a fault; Listener and EventLoop model
-- `setup_server_tcp_socket` and `epoll_event_loop` of src/utilities/server_utility.cpp, and
-- ReusePort its copy in src/servers/multi_worker_reuseport_nonblocking_io_multiplexing_server.h,
-- translated on its own. Their loops over `accept4` and `read` need more fuel than clients and
-- bytes wait in the kernel (Descriptor.Finite names what they rely on as the record `Finite`: each
-- successful `accept4` or `read` takes from what waits; the `select` server also relies on an
-- object made from a descriptor holding it), and the scan of a descriptor set more than
-- FD_SETSIZE.
--
-- Select.Main is `main` of the `select` server, and Edge that of
-- src/servers/nonblocking_io_multiplexing_edge_trigger_epoll_server.cpp. ReusePort.Workers models
-- the class `linux_concurrent_server`, the test server of src/servers/test_server.cpp and
-- src/servers/multi_worker_reuseport_nonblocking_io_multiplexing_server.cpp: a process forks its
-- workers, and each sets up a listening socket of its own. Where `fork` answers 0 the model goes
-- on as the child. Each loop that never ends is run for a number of rounds, which is an argument.
--
-- Blocking models src/servers/single_client_blocking_io_server.cpp and Fork models
-- src/servers/fork_process_per_connection_server.cpp, whose children run the same echo loop.
-- Descriptor.Closes names what they rely on in the class `file_descriptor`: its methods close
-- descriptors and make no other call. Fuel bounds the echo of one client and must exceed what the
-- clients still send.
--
-- Clients models src/clients/echo_client.cpp, and Clients.PingPong src/clients/multi_client.cpp,
-- whose eleven threads take turns call by call. Fcntl models `set_nonblocking` and
-- `is_nonblocking` of src/utilities/file_descriptor.h.
--
-- Logging models the log functions of src/utilities/print_utility.h and `log_client_info`, as what
-- one thread writes to `std::cout`; `inet_ntop` is a parameter, which gives no text where the text
-- does not fit. Logging.Entries reads such a log: an entry ends at a newline that no tab follows,
-- since the servers put a tab before the further lines of a message.
--
-- Not modelled: threads of the multi-worker server that run before `start` has made the last one;
-- the log calls inside the other parts (but for the reading of a connection's buffer), the
-- printing of what the blocking and the forking server have received, which may run behind their
-- buffer, log lines of several threads at once, `prctl`, the process names, `freeaddrinfo` and the
-- texts of error messages, which have no effect on the rest; threads of a server that interleave
-- inside the handling of one event; several processes at once.
--
-- Tests.Net and Tests.Counter are sample systems; the modules of Tests run the programs on them.
pub mod Common
pub mod Os
pub mod Arguments
pub mod Bytes
pub mod Connection
pub mod Manager
pub mod Worker
pub mod Setup
pub mod Server
pub mod Descriptor
pub mod Select
pub mod EventLoop
pub mod Listener
pub mod Logging
pub mod ReusePort
pub mod Blocking
pub mod Fork
pub mod Edge
pub mod Clients
pub mod Fcntl
pub mod Tests
