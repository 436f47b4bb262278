-- ===== src/Room/Join.antt =====
-- room/mod.rs: `handle_chat_room_join`.
pub mod Consistency
use bc_server_rust.Base.{
  String, Bool, true, false, not, ◌&&◌, Option, none, some, List, [], ◌∷◌, ◌++◌, map, contains,
  push, filter_map, if◌then◌else◌, ◌==◌, int_eq, string_eq,
}
use bc_server_rust.Json.{
  Value, null, int, text, array, object, cons, nil, find_field, json_array, json_object, as_str,
  is_text, ◌>>=◌,
}
use bc_server_rust.Base.Text.{is_empty_text}
use bc_server_rust.Protocol.{MemberNumber, Emission, emit, emit_to_room, join}
use bc_server_rust.Protocol.Events
use bc_server_rust.State.Platform.{Platform}
use bc_server_rust.State.ChatRoom.{ChatRoom, is_full, socket_room_name, member_list_json}
use bc_server_rust.State.Account.{
  OnlineAccount, to_synced_character_for_room, should_send_blacklist,
}
use bc_server_rust.State.World.{
  World, get_by_socket, get_by_member, get_room, get_room_by_name, update_room, update_account,
}
use bc_server_rust.Room.Roles.{has_any_role}
use bc_server_rust.Room.Leave.{leave_current, leave_room_inner, source_character}
use bc_server_rust.Room.Sync.{room_message, sync_room_to_member}
use bc_server_rust.Room.Create.{enter}

-- `ChatRoomJoinRequest` decodes from an object, and from a list of its one field.
unfoldable pub decode_join : Value → Option String
decode_join (object fs) = find_field fs "Name" >>= as_str
decode_join (array (cons v nil)) = as_str v
decode_join _ = none

-- Why a room cannot be joined, in the order of the tests.
unfoldable pub refusal : OnlineAccount → ChatRoom → Option String
unfolding has_any_role is_full
refusal acc room =
    if is_full room
    then some "RoomFull"
    else if contains room.ban acc.member_number
    then some "RoomBanned"
    else if not (has_any_role acc room room.access)
    then some "RoomLocked"
    else if is_text acc.chat_room_id room.id
    then some "AlreadyInRoom"
    else none

abbrev pub add_member : MemberNumber → ChatRoom → ChatRoom
add_member m r = record r { members = push r.members m }

unfoldable pub enter_room : String → String → MemberNumber → World → World
enter_room sid room_id m w =
    update_account (update_room w room_id (add_member m)) sid (enter room_id)

-- The members other than the one who joins for whom the test holds of their session.
abbrev others :
    World → (OnlineAccount → Bool) → MemberNumber → List MemberNumber → List MemberNumber
others w p m members = filter_map other members
  where
    other : MemberNumber → Option MemberNumber
    other n = if n == m then none else elim (get_by_member w n) [
      | none ↦ none
      | some a ↦ if p a then some a.member_number else none
    ]

abbrev character_of : Option OnlineAccount → List MemberNumber → Value
character_of none members = null
character_of (some a) members = to_synced_character_for_room a members

abbrev members_of : Option ChatRoom → List MemberNumber
members_of none = []
members_of (some r) = r.members

abbrev room_name_of : Option ChatRoom → String
room_name_of none = ""
room_name_of (some r) = socket_room_name r

unfoldable pub join_payload : World → OnlineAccount → List MemberNumber → Value
join_payload w acc members =
    let m = acc.member_number in
    json_object (
      ("SourceMemberNumber", int m)
      ∷ ("Character", character_of (get_by_member w m) members)
      ∷ ("WhiteListedBy", member_list_json (others w (λ a. contains a.white_list m) m members))
      ∷ (
        "BlackListedBy",
        member_list_json (
            others w (λ a. should_send_blacklist a.item_permission && contains a.black_list m) m
              members),
      )
      ∷ [])

abbrev respond : String → String → List Emission
respond sid code = emit sid Events.chat_room_search_response (text code) ∷ []

unfoldable pub announce : World → String → OnlineAccount → String → List Emission
unfolding join_payload
announce w sid acc room_id =
    let room = get_room w room_id in
    let name = room_name_of room in
    join sid name
    ∷ (respond sid "JoinedRoom"
        ++ (emit_to_room sid name Events.chat_room_sync_member_join
              (join_payload w acc (members_of room))
            ∷ (sync_room_to_member w sid room_id acc.member_number
                ++ room_message w name acc.member_number "ServerEnter" "Action" none
                    (some (json_array (source_character acc.name acc.member_number ∷ []))))))

module _ (P : Platform) where
  unfoldable pub move_to : String → OnlineAccount → String → World → World × List Emission
  unfolding leave_room_inner enter_room announce
  move_to sid acc room_id w =
      let (w1, left) = leave_current P acc w in
      let w2 = enter_room sid room_id acc.member_number w1 in
      elim (get_by_member w1 acc.member_number) [
        | none ↦ (w1, left ++ respond sid "AccountError")
        | some a ↦ (w2, left ++ announce w2 sid acc room_id)
      ]

  unfoldable pub join_for : String → String → OnlineAccount → World → World × List Emission
  unfolding move_to refusal get_room_by_name
  join_for sid name acc w = elim (get_room_by_name P w acc.environment name) [
    | none ↦ (w, respond sid "CannotFindRoom")
    | some room ↦ elim (refusal acc room) [
      | some code ↦ (w, respond sid code)
      | none ↦ move_to sid acc room.id w
    ]
  ]

  unfoldable pub chat_room_join : String → Value → World → World × List Emission
  unfolding join_for decode_join
  chat_room_join sid d w = elim (decode_join d) [
    | none ↦ (w, respond sid "InvalidRoomData")
    | some name ↦
        if is_empty_text name
        then (w, respond sid "InvalidRoomData")
        else elim (get_by_socket w sid) [
          | none ↦ (w, respond sid "AccountError")
          | some acc ↦ join_for sid name acc w
        ]
  ]
