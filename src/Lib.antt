-- ===== src/Lib.antt =====
-- The verification library of vtb, a backend for virtual machines: guests connect over vhost-user
-- sockets that DPDK serves, and each pair of their queues is given to worker threads.
--
-- The program. `main` (vtb.cpp) reads the command line into ConfigManager, makes the port
-- controller of the mode on the command line, and starts the VhostController. DPDK calls the
-- VhostController when a guest comes, goes or changes a ring; it keeps the map of ports in
-- ConfigManager and sends a message over a local socket to the port controller, whose epoll worker
-- reads the messages and gives pairs of queues to port handlers, which launch the threads. All
-- parts log through one Logger with a flush thread.
--
-- Which file models which part:
--   Prelude        what the files share: Booleans and tests, integers, lists, texts, dictionaries
--                  in key order for std::map, the results `throws` and `undefined`, and `Exec` for
--                  a call that works on a state and may throw or be undefined.
--   Common         inc/common.h and src/common.cpp. Devices: the structs. Sockets: the two ends of
--                  the local sockets, over the answers of the system calls, with the calls as the
--                  result. Wire: a PortDeviceRingState as it lies in memory, which is what the
--                  program writes and reads. Terminal: the echo settings. Threads: their names.
--   Cmdline        CmdlineParser (src/cmdline_parser.cpp): the table, `parse`, `get<T>` in Values,
--                  `print_usage` in Usage; Settings, Lookup and Flags are about whole command
--                  lines.
--   Config         ConfigManager (src/config_manager.cpp): the table and `init`; the database in
--                  Config/Database.
--   PortMap        the map of ports of ConfigManager, one function for each method; a run is a list
--                  of calls (PortMap/Runs). Print is `print_portmap`, and Print/Table the table
--                  that it is to print, by columns. Spec says what the calls promise without
--                  arrays and loops, and Refinement that they keep it.
--   Logger         Logger and the streams (src/logger.cpp, src/messenger.cpp), as steps of the
--                  threads that log and of the flush thread.
--   Handler        PortHandler and PortHandlerLoopback (src/port_handler*.cpp): `start`, `stop`, the
--                  destructors and the threads.
--   Controller     the port controllers (src/port_controller*.cpp): notifications in Controller,
--                  the epoll worker in Poll, `start` and the destructors in Server, and the
--                  worker against the destructor in Teardown.
--   Vhost          VhostController (src/vhost_controller.cpp): the device callbacks in Vhost
--                  (Reconnect: a guest that comes again), the life of the driver in
--                  Vhost/Lifecycle.
--   Delivery       from a callback of DPDK over the socket to the handlers.
--   Session        the callbacks of a whole session of guests, the messages that they send, and what
--                  the port controller makes of them (Owners: the device of each handler).
--                  Instance is the pointer through which DPDK's callbacks find the
--                  VhostController.
--   Main           `main`; its wait for the signal in Waiting, as steps of the threads, the signal
--                  handler and whoever holds the mutex of the Logger.
--   Frontend       the program for trials (frontend/frontend.cpp): the set-up of the ports and the
--                  bursts; the frames in Frames, the loop and `main` in Program.
--   Tests          the theorems at concrete inputs, and runs of the definitions.
-- A class is a record of its members, and a method a function with the method's name on it. An
-- exception is a value with the text of `what()`; behaviour that the language leaves undefined (a
-- subscript out of range, a call on the null pointer) is a value of its own.
--
-- Bounds. A `uint16_t` member keeps its wrap-around, and an `int` that is parsed its range; the other
-- `int`s are integers without a bound. Only the loop of the frontend, which ends by a signal, takes
-- fuel: one more than the waits before the signal is enough. The other loops over arrays are
-- recursion on the rounds that are left, and the loops of the threads are lists of steps or of
-- rounds, in any order and of any length.
--
-- Parameters. The pools and rings of DPDK are the interface `Dpdk` of Handler.antt, and what it
-- documents of the names of pools is `PoolNames` of Handler/Restart.antt; the Ethernet header is
-- `EtherHeader` of Frontend/Frames.antt. What a life of the VhostController may call of DPDK, and
-- when, is `follow` of Vhost/Lifecycle/Follow.antt: the paths and the order of the calls. What DPDK
-- and the operating system answer elsewhere (sockets, epoll, the vhost library) is an argument.
--
-- Not modelled: the pipeline methods of the handlers and the loops of the controllers for Back2Back
-- and Emulator, which are empty; time (a wait may end at any step); writes to the abstract socket
-- that fail or are partial, in the callbacks (Common/Sockets has `send_packet` itself); the
-- demonstrations in tests; the log lines of the parts, except in Logger and in `main`.
pub mod Prelude
pub mod Common
pub mod PortMap
pub mod Cmdline
pub mod Config
pub mod Logger
pub mod Main
pub mod Session
pub mod Frontend
pub mod Handler
pub mod Controller
pub mod Vhost
pub mod Delivery
pub mod Tests
