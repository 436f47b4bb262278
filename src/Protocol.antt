-- ===== src/Protocol.antt =====
-- protocol/mod.rs and socket_util.rs: what the server sends, and the codes and events it names.
pub mod Events
pub mod Codes
use bc_server_rust.Base.{String, ℤ}
use bc_server_rust.Json.{Value}

abbrev pub MemberNumber : Type 0
MemberNumber = ℤ

-- One action on the Socket.IO layer. An action on a socket that is gone has no effect. The list that
-- a handler returns is the order in which the actions are issued; those to a room are spawned as
-- tasks, whose completion order the layer does not promise.
pub data Emission : Type 0 where
  emit : String → String → Value → Emission  -- one socket, event, payload
  emit_within : String → String → Value → Emission  -- every socket of a room
  emit_to_room : String → String → String → Value → Emission  -- a room without the source socket
  emit_io : String → Value → Emission  -- every socket
  join leave : String → String → Emission  -- socket, room
  disconnect : String → Emission
