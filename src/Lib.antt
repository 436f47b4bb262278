-- ===== src/Lib.antt =====
-- The server of the Bondage Club, in Rust: the rooms, the accounts and the limits of the process.
--
-- A client speaks to the server by Socket.IO events. Every handler takes the lock of one shared
-- `World`, reads and changes its tables, and emits events to its own socket, to others, or to a
-- Socket.IO room. Here a handler is a function from the world (and what it takes from outside) to the
-- new world and the list of what it sends.
--
-- The files and the sources that they model:
--   Protocol            src/protocol/mod.rs, src/socket_util.rs: emissions, event names, codes
--   State.ChatRoom      src/state/chatroom.rs: `ChatRoom`
--   State.Account       src/state/account.rs: `OnlineAccount`, the documents and what peers see of it
--   State.World         src/state/world.rs: `World`, a record with the fields of the struct
--   State.Consistency   the invariant of the tables, which the handlers rely on
--   State.RoomKey       the index of the rooms by name
--   Limits              src/limits/mod.rs: connections of an address, messages of a socket
--   Util.Validate       src/util/validate.rs; Util.JsonPath: src/util/json_path.rs
--   Server              src/handlers.rs, `check_message_rate` in front of a handler
--   Room.Roles, Room.Sync, Room.Leave, Room.Search, Room.Create, Room.Join
--                       src/room/mod.rs: one handler each, named as in the source
--   Room.Admin          src/room/admin.rs: the administration of a room, `Room.Admin.Update` the
--                       action "Update" and `Room.Admin.Effects` what is sent at the end
--   Chat, Chat.Permission, Chat.Updates, Chat.Targets
--                       src/chat/mod.rs: messages, who may change whom, and the updates
--   Relations.Ownership src/relations/mod.rs, handle_account_ownership: `Release` and `Trial` its branches,
--                       `Rules` the steps that an ownership may take
--   Relations.Lovership src/relations/mod.rs, handle_account_lovership: `Break`, `Offer`, `Accept`
--   Auth, Auth.Create, Auth.Reset, Auth.Login
--                       src/auth: one handler each; a login is `enqueue` and, with the mutex, `serve`
--   Account             src/account/mod.rs: the handlers `Beep`, `Difficulty` and
--                       `Email`, and `Flush` for the updates that were put off
--   Store               src/db/mod.rs: the writes to the database, as effects of a handler
--   Connection          src/handlers.rs: on_connection, on_login, the server information
--   Disconnect          src/handlers.rs: the cleanup at the end of a session, in its two halves, one to a
--                       lock; Prison: the snapshots of the sectors, from src/account/mod.rs
--   Reachable           the handlers together: the events, and the worlds they lead to
--   Base, Json          lists, maps, integers, texts, JSON values
--   Tests               runs at concrete inputs
--
-- How the code corresponds:
--   - A `HashMap` is an association list with one entry to a key; its order stands for the
--     unspecified one of the source. A `serde_json::Map` is a list of fields sorted by key. A JSON
--     number is an integer or the bit pattern of a float.
--   - An `i64` is an integer that wraps around where the code adds or subtracts; a cast to `i32` wraps.
--   - The lock makes a handler one step. What a handler sends after it releases the lock is computed
--     from the world at its end. The emissions stand in the order in which they are issued: the tasks
--     spawned for a room may complete in another. An emission to a socket that is gone has no effect,
--     and `state.io` is set before the first event.
--   - A handler that awaits the database is one step too, from its first read to its last: what other
--     handlers do between two of its awaits is not modelled. Its effects are its emissions and its writes
--     in order; the answers of the database, of bcrypt and of the mailer are arguments. A write stands
--     among the effects whether it succeeds or not.
--   - The time, the random id of a room and the random order of a shuffle are arguments. The Unicode
--     case tables, the cast of a float and the printer of JSON values are the fields of `Platform`,
--     and the theorems hold for every choice of them.
--   - `check_message_rate` is the function `rate_limited`, to be put in front of a handler.
--   - `kick` of `AdminEffects` is set by no action, and is left out.
--   - Every loop runs through a list. Only the printing of an integer has fuel, twenty digits, which
--     hold every 64-bit number.
--
-- Not modelled: logging, the start of the server, the queries of the databases and the delivery of the
-- mail, which are libraries' work, and so far the other handlers of src/account. What a cleanup writes
-- to the database is a result of its function.
pub mod Base
pub mod Json
pub mod Protocol
pub mod State
pub mod Limits
pub mod Util
pub mod Server
pub mod Room
pub mod Chat
pub mod Prison
pub mod Store
pub mod Relations
pub mod Connection
pub mod Account
pub mod Auth
pub mod Disconnect
pub mod Reachable
pub mod Tests
