-- ===== src/Room/Sync.antt =====
-- room/mod.rs: messages and snapshots to the sockets of a room.
use bc_server_rust.Base.{
  String, Bool, Option, none, some, List, [], ◌∷◌, ◌++◌, filter_map, if◌then◌else◌,
}
use bc_server_rust.Base.HashMap.{map_option}
use bc_server_rust.Json.{Value, int, text, object, insert_field, json_array, json_object, fields}
use bc_server_rust.Protocol.{MemberNumber, Emission, emit, emit_within, emit_to_room}
use bc_server_rust.Protocol.Events
use bc_server_rust.State.ChatRoom.{ChatRoom, socket_room_name, properties}
use bc_server_rust.State.Account.{OnlineAccount, to_synced_character_for_room}
use bc_server_rust.State.World.{World, get_by_member, get_room}

abbrev dictionary_field : Option Value → List (String × Value)
dictionary_field none = []
dictionary_field (some v) = ("Dictionary", v) ∷ []

abbrev pub message_payload : MemberNumber → String → String → Option Value → Value
message_payload sender content msg_type dictionary = json_object (
    dictionary_field dictionary
    ++ (("Sender", int sender) ∷ ("Content", text content) ∷ ("Type", text msg_type) ∷ []))

-- To the target alone where there is one, and else to the whole room.
unfoldable pub room_message :
    World
    → String
    → MemberNumber
    → String
    → String
    → Option MemberNumber
    → Option Value
    → List Emission
room_message w room_name sender content msg_type none dictionary =
    emit_within room_name Events.chat_room_message
      (message_payload sender content msg_type dictionary)
    ∷ []
room_message w room_name sender content msg_type (some target) dictionary =
    elim (get_by_member w target) [
      | none ↦ []
      | some a ↦
          emit a.socket_id Events.chat_room_message
            (message_payload sender content msg_type dictionary)
          ∷ []
    ]

abbrev source_socket : (String → Bool) → String → Option OnlineAccount → String
source_socket connected caller none = caller
source_socket connected caller (some a) = if connected a.socket_id then a.socket_id else caller

-- The character of `member` to the room, without the socket of `source` if that is connected.
unfoldable pub sync_character :
    (String → Bool) → World → String → MemberNumber → MemberNumber → List Emission
sync_character connected w caller member source = elim (get_by_member w member) [
  | none ↦ []
  | some acc ↦ elim acc.chat_room_id [
    | none ↦ []
    | some room_id ↦ elim (get_room w room_id) [
      | none ↦ []
      | some room ↦
          emit_to_room (source_socket connected caller (get_by_member w source))
            (socket_room_name room) Events.chat_room_sync_character
            (json_object (
              ("Character", to_synced_character_for_room acc room.members)
              ∷ ("SourceMemberNumber", int source)
              ∷ []))
          ∷ []
    ]
  ]
]

abbrev pub room_characters : World → ChatRoom → List Value
room_characters w room =
    filter_map
      (λ m.
        map_option (λ (a : OnlineAccount). to_synced_character_for_room a room.members)
          (get_by_member w m))
      room.members

-- The room and the characters in it, to one socket.
unfoldable pub sync_room_to_member : World → String → String → MemberNumber → List Emission
sync_room_to_member w sid room_id source_member = elim (get_room w room_id) [
  | none ↦ []
  | some room ↦
      emit sid Events.chat_room_sync (
        object (
          insert_field
            (insert_field (fields (properties room)) "Character"
              (json_array (room_characters w room)))
            "SourceMemberNumber" (int source_member)))
      ∷ []
]
