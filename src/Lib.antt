-- ===== src/Lib.antt =====
-- Verification of the chat programs in this repository.
--
-- The repository holds several chat programs in Go that share no code at run time: servers that
-- accept TCP connections and relay lines of text among their clients, and clients.
--
-- - `Evan's Work/newServer.go`: a server with a lobby and rooms, whose clients type commands
--   that begin with `!`. One goroutine, Listen, does all the work on rooms; each client has a
--   goroutine that reads its lines, one that writes to it, and one that relays its lines to the
--   lobby, and a room that is created starts a goroutine that sleeps until the room expires.
--   RoomServer/Types holds the structs and the constants, RoomServer/Rooms the methods of CRoom,
--   RoomServer/Lobby the methods of Lobby, and RoomServer/Events the steps of the goroutines.
--   The functions keep their names, in lower case: Lobby.EnterCRoom is `enter_c_room`,
--   CRoom.Broadcast is `broadcast`, and so on. The rest of RoomServer holds theorems: Effects,
--   what the handlers do to the server's memory; Invariant, Expiry, Deletion and Reach, the
--   agreement of the memory's parts in every history; Calm, Panics and Lasting, panics and
--   endless waits; Capacity, Delivery, Stall, Commands and Outcomes, as named.
--
-- - `Evan's Work/util/util.go`, `Evan's Work/server.go` and `Evan's Work/client.go`: a server
--   and its client that exchange lines such as `/enter room`. SlashChat/Codec is the encoding of
--   util.go, SlashChat/Action the command parsers of the server and the client, SlashChat/Util
--   the client registry, the messages and the log of util.go, SlashChat/Server the handler of a
--   line and the goroutines around it, SlashChat/Client the two loops of the client.
--   SlashChat/Reference is the handler of the earlier server `Evan's Work/serverref.go`, beside
--   the theorem that compares the two, and Reference/Runs its steps and whole histories.
--   Delivery, Wire, Registry and Slots hold theorems. Whether the log file can be opened and
--   written is part of the state.
--
-- - `ken/server.go`: a server of the same form as newServer.go, with one lobby goroutine and
--   rooms that expire, in which a client that leaves is taken off the lobby's list and its
--   channel is closed. LobbyServer/Types holds the structs and the constants,
--   LobbyServer/ChatRooms the methods of ChatRoom, LobbyServer/Lobby those of Lobby,
--   LobbyServer/Events the steps of the goroutines; Effects says what each operation makes of
--   the server's memory. Invariant, Lines, Expiry and Deletion hold the agreement of the
--   memory's parts, RoomSafety and Safety panics and endless waits, Relayed, Arrival and Reach
--   the books that each event keeps, History what holds in every history; Keeps, Capacity,
--   Commands and Delivery hold further theorems.
--
-- - `Evan's Work/Assign 2`: a server that is called by remote procedure calls, and its client.
--   RpcChat/Registry holds the maps of clients and rooms of `server/client.go` and
--   `server/cRoom.go`, RpcChat/Rooms the methods of CRoom, RpcChat/Receiver the calls of
--   `server/receiver.go`, RpcChat/Client what `client/main.go` makes of a line, and
--   RpcChat/ClientLoops the rounds of its loops. The server's goroutines run side by side: a
--   method is a Program, a tree of what it does next (a step on the memory, an operation on a
--   client's lock, a send, a receive), and RpcChat/System lets any goroutine take the next step.
--   A client's Mutex is a readers' and writer's lock whose writer first keeps new readers out
--   and then waits for the readers inside, as package sync documents. The registries' own locks
--   cover one step each. Locks holds the theorems on the clients' locks (Discipline and Calls,
--   the order in which the methods take them; Modes, Steps and History, every interleaving;
--   Waiting and Deadlock, the goroutines that wait for each other), Faults the calls and timers
--   that go wrong, Alone, Signals, Outcomes and Undisturbed what a room's goroutine comes to
--   while nobody interferes.
--
-- - `Evan's Work/newClient.go` and `ken/client.go`: console clients of two goroutines, one from
--   the connection to the console and one from the console to the connection. Console/Session
--   holds one round of each loop, main and the WaitGroup, Console/NewClient and Console/Ken the
--   two programs; Spec, Invariant, Refusal and Runs hold theorems on any order of the rounds.
--
-- - `Evan's Work/Assign4/src/connectToDB/main/testConnections.go`: a program that writes to a
--   document store and reads from it. ConnectToDb/Types holds the documents and the store's
--   driver, a record of calls over which the program is parametric, ConnectToDb/Program how a
--   piece of the program comes out, ConnectToDb/Connections connectToDB and main; Quiet and
--   Errors hold the theorems.
--
-- - `Evan's Work/endpoint/json/json.go`: an HTTP server that answers queries for messages.
--   JsonEndpoint holds its handlers, over a record of what they call in package util and in the
--   libraries, JsonEndpoint/Requests the theorem.
--
-- What the parts share: Prelude (library names, lists over native numbers, stores), Text (Go's
-- byte strings and the functions of packages strings and fmt that the programs call), Table
-- (Go's maps with string keys), Goroutine (a client's socket end and its writer goroutine, the
-- rendezvous on an unbuffered channel, and how a goroutine comes out of a piece of code: it gets
-- through, it waits for ever, or it panics) and Sleepers (the goroutines that sleep until a room
-- may have expired).
--
-- How the code is read. Memory is passed as a state; pointers are numbers into stores that are
-- functions, and a new object takes the next free number. A send on an unbuffered channel
-- succeeds when the receiving loop still runs, and the receiver then does one round of its loop
-- before anything else. The atomic steps of RoomServer and LobbyServer are the messages that the
-- lobby's goroutine takes from its channels, the failure of a connection, and the passing of
-- time; a history is any list of them, and time stands still within a step. JoinRoom and Join,
-- which main calls on its own goroutine, are steps too. In RpcChat a step is one interaction of
-- one goroutine. A step of SlashChat is one line handled to its end. The order in which Go
-- ranges over a map is a parameter. Times are nanoseconds of the server's clock, unbounded,
-- where Go's are 64-bit.
--
-- Not modelled: log output (but for the log file of util.go), the accept loops' failures, the
-- data races of the unsynchronised programs, and the copies of third-party libraries under
-- `Evan's Work/Assign4/src`. json.go does not compile against this repository's util.go, which
-- has neither QueryMessages nor the field JSONEndpointPort: both are parameters of the model.
-- The structs of connectToDB/model/model.go, which no code uses, are left out. No definition
-- runs on fuel: every loop of the models is over a list, and an endless loop of a goroutine is
-- one round of it, repeated by the history.
pub mod Prelude
pub mod RpcChat
pub mod Text
pub mod Goroutine
pub mod Sleepers
pub mod Table
pub mod RoomServer
pub mod SlashChat
pub mod LobbyServer
pub mod Console
pub mod ConnectToDb
pub mod JsonEndpoint
