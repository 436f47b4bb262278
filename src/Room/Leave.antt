-- ===== src/Room/Leave.antt =====
-- room/mod.rs: taking a member out of a room.
pub mod Tables
pub mod Consistency
use bc_server_rust.Base.{
  String, Bool, true, false, Option, none, some, List, [], ◌∷◌, ◌++◌, without, is_empty,
  if◌then◌else◌, ◌==◌, int_eq, string_eq,
}
use bc_server_rust.Base.HashMap
use bc_server_rust.Json.{Value, int, text, json_array, json_object, unwrap_or}
use bc_server_rust.Protocol.{MemberNumber, Emission, emit_within, leave}
use bc_server_rust.Protocol.Events
use bc_server_rust.State.Platform.{Platform}
use bc_server_rust.State.ChatRoom.{ChatRoom, socket_room_name}
use bc_server_rust.State.Account.{OnlineAccount}
use bc_server_rust.State.World.{
  World, get_by_member, get_by_socket, get_room, update_room, remove_room,
}
use bc_server_rust.Room.Sync.{message_payload}

abbrev pub source_character : String → MemberNumber → Value
source_character name member =
    json_object
      (("Tag", text "SourceCharacter") ∷ ("Text", text name) ∷ ("MemberNumber", int member) ∷ [])

abbrev pub name_of : Option OnlineAccount → String
name_of none = ""
name_of (some a) = a.name

abbrev leave_socket : Option OnlineAccount → String → List Emission
leave_socket none name = []
leave_socket (some a) name = leave a.socket_id name ∷ []

abbrev reason_message : String → MemberNumber → Option String → Value → List Emission
reason_message name member none dict = []
reason_message name member (some content) dict =
    emit_within name Events.chat_room_message (message_payload member content "Action" (some dict))
    ∷ []

-- The message and the notice that those who stay receive.
abbrev farewell : ChatRoom → String → MemberNumber → Option String → Value → List Emission
farewell left name member reason dict =
    if is_empty left.members
    then []
    else (reason_message name member reason dict
        ++ emit_within name Events.chat_room_sync_member_leave
            (json_object (("SourceMemberNumber", int member) ∷ []))
          ∷ [])

abbrev pub drop_member : MemberNumber → ChatRoom → ChatRoom
drop_member m r = record r { members = without m r.members }

abbrev pub leave_chat : OnlineAccount → OnlineAccount
leave_chat a = record a { chat_room_id = none }

-- The member is out of the room, and its session in no room.
unfoldable pub detach : World → String → MemberNumber → World
detach w room_id member =
    let w' = update_room w room_id (drop_member member) in
    record w' {
      accounts_by_socket =
          HashMap.adjust_first (λ a. a.member_number == member) leave_chat w'.accounts_by_socket;
    }

module _ (P : Platform) where
  -- A room that nobody is left in goes.
  unfoldable pub close_if_empty : World → String → World
  close_if_empty w room_id = elim (get_room w room_id) [
    | none ↦ w
    | some r ↦ if is_empty r.members then remove_room P w room_id else w
  ]

  unfoldable pub leave_room_inner_reason :
      String → MemberNumber → Option String → Option Value → World → World × List Emission
  unfolding detach close_if_empty
  leave_room_inner_reason room_id member reason dictionary w =
      let target = get_by_member w member in
      let dict =
        unwrap_or dictionary (json_array (source_character (name_of target) member ∷ [])) in
      (
        close_if_empty (detach w room_id member) room_id,
        elim (get_room w room_id) [
          | none ↦ []
          | some room ↦
              let name = socket_room_name room in
              leave_socket target name ++ farewell (drop_member member room) name member reason dict
        ],
      )

  unfoldable pub leave_room_inner : String → MemberNumber → World → World × List Emission
  unfolding leave_room_inner_reason
  leave_room_inner room_id member w =
      leave_room_inner_reason room_id member (some "ServerLeave") none w

  unfoldable pub leave_room_on_disconnect :
      String → MemberNumber → String → World → World × List Emission
  unfolding leave_room_inner_reason
  leave_room_on_disconnect room_id member reason w =
      leave_room_inner_reason room_id member (some reason) none w

  -- `if let Some(rid) = acc.chat_room_id { leave_room_inner(…) }`.
  abbrev pub leave_at : MemberNumber → Option String → World → World × List Emission
  leave_at m none w = (w, [])
  leave_at m (some rid) w = leave_room_inner rid m w

  abbrev pub leave_current : OnlineAccount → World → World × List Emission
  leave_current acc w = leave_at acc.member_number acc.chat_room_id w

  -- `handle_chat_room_leave`, behind the message limit.
  unfoldable pub chat_room_leave : String → World → World × List Emission
  unfolding leave_room_inner
  chat_room_leave sid w = elim (get_by_socket w sid) [
    | none ↦ (w, [])
    | some acc ↦ leave_current acc w
  ]
