-- ===== src/Lib.antt =====
-- The server of a messaging application for teams: clients send binary packets over connections, and the server
-- keeps users, teams, channels, threads, replies and private messages, and answers with packets.
--
-- The parts, and the files that model them:
--   * Prelude, Bytes, Map, Fields: lists, Boolean tests, byte strings, `char` arrays with a terminator, and
--     std::unordered_map as an association list; a new key is put behind the others, which is
--     one of the orders that the container may have.
--   * Protocol, Packet: common/protocol.hpp, common/limits.hpp, and the packets of
--     server/commands/command_utils.cpp. The packed structs are byte layouts, with the integers in the byte order
--     of a little-endian host.
--   * Models: server/models/, the classes User, Message, Thread, Channel and Team.
--   * Clients: server/core/client_manager/, the buffers and the context of every client.
--   * Server: the state that the handlers share (CommandContext of server/commands/command_context.hpp), how
--     packets are queued, and the identifiers (generateUuid, isUuidFormatValid).
--   * Commands: server/commands/, one function per handler on the whole state: Login, Logout, UserQueries, Use,
--     Subscription, PrivateMessages, Navigation with Named, Listing and Info, CreateRequest with CreateAnswers and Create.
--   * Dispatcher: server/commands/command_dispatcher.cpp, the table of the handlers and the loop
--     processClientIncomingPackets, on fuel.
--   * Sessions: properties of who is logged in where.
--   * Database: server/database/, the lines of the save files (Text, Time), saving (Save) and loading (Records, Loading,
--     Materialize, Load); Disk is the file system as the code uses it.
--   * Network: server/network/, receiving and sending with the calls of common/utils/Socket.cpp and System.cpp
--     below them.
--   * Manager: server/core/server_manager/server_manager.cpp, the service of one client (Service), the loop over the polled
--     descriptors (Rounds), and runPollLoop from loading to saving (Loop); the states that it reaches (Polled, Reached), and its
--     runs as relations (Execution).
--   * Launch: server/main.cpp, the arguments of the server.
--   * Examples: concrete data and runs.
--
-- The state is the record Server, with the fields of CommandContext. A handler is a function from the request and
-- the state to the state; the packets it sends stand in the outgoing buffers of the clients, and its calls of
-- ServerLogger in a list of events. Handlers that search for an unused identifier give an option, which is empty
-- where the search is out of attempts. A reference to an element of a vector is the element, and a change through it
-- is `update_if` with the test by which it was found.
--
-- What the system gives to the poll loop is a parameter of each turn: the events of poll, the results of read and write,
-- and the descriptor of an accepted connection, given those that are polled already. The loop ends where its list of turns
-- does, as the signal then has come. An exception that nothing catches is a result of its own.
--
-- Bounds and fuel: the loop over the packets takes fuel, and more fuel than the buffer has bytes is enough, as every packet
-- that is dispatched takes at least its header away. A round over the polled descriptors takes fuel for twice their
-- number, as an accepted client adds an entry that is not ready. The digits of a time take fuel for its value. The search for an identifier takes a number of attempts, and
-- it is enough that the candidates differ and are more than the identifiers in use. The random numbers, the clock
-- and std::sort are parameters (Env). The size of a payload is kept below 2 ^ 16 by the header. A user's counter of
-- sessions is a natural number without the upper bound of `int`.
--
-- Not modelled: the set-up of the listening socket, the signal handlers and the repetition of an interrupted poll
-- (server/core/server_manager), which are calls of the system; a file that is opened but cannot be
-- written whole, which leaves a part of it (server/database/save/save.cpp); the other calls of common/utils; the loading of the logging
-- library (server/core/logger), the classes of exceptions, CMD_HELP, which is not in the table, broadcastPacket and the
-- buildPacket of a vector, which no handler calls, and the client program (client).
pub mod Prelude
pub mod Bytes
pub mod Map
pub mod Protocol
pub mod Packet
pub mod Fields
pub mod Models
pub mod Clients
pub mod Server
pub mod Commands
pub mod Dispatcher
pub mod Sessions
pub mod Database
pub mod Network
pub mod Manager
pub mod Launch
pub mod Examples
