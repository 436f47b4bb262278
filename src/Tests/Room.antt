-- ===== src/Tests/Room.antt =====
-- room/mod.rs at concrete inputs.
use bc_server_rust.Base.{
  ◌≡◌, refl, false, any, string_eq, int_eq, pos, some, none, [], ◌∷◌, int_beq, contains,
}
use bc_server_rust.Base.HashMap
use bc_server_rust.Base.Text.{trim}
use bc_server_rust.Util.Validate.{is_chat_room_name}
use bc_server_rust.Room.Roles.{has_any_role}
use bc_server_rust.Json.{find_field, insert_field, text, json_object}
use bc_server_rust.State.Platform.{plain}
use bc_server_rust.State.ChatRoom.{ChatRoom, is_full}
use bc_server_rust.State.World.{get_room_by_name, room_name_exists_any}
use bc_server_rust.State.Consistency.{IsConsistent}
use bc_server_rust.Room.Create.{
  ChatRoomCreateRequest, read_request, build_room, enter, create_for, chat_room_create,
}
use bc_server_rust.Room.Create.Consistency.{create_for_lem, chat_room_create-IsConsistent}
use bc_server_rust.Room.Join.{refusal, add_member, move_to, chat_room_join}
use bc_server_rust.Room.Join.Consistency.{move_to_lem, chat_room_join-IsConsistent}
use bc_server_rust.Room.Leave.{leave_room_inner_reason, chat_room_leave}
use bc_server_rust.Room.Leave.Consistency.{
  Left, leave_room_inner_reason-IsConsistent, chat_room_leave-IsConsistent,
}
use bc_server_rust.Tests.World.{
  lobby, lobby-IsConsistent, club, club-IsConsistent, room_data, ann, bea,
}

abbrev pub request : ChatRoomCreateRequest
request = record {
  name = "Club";
  description = "";
  background = "B";
  is_private = some false;
  locked = some false;
  visibility = some ("All" ∷ []);
  access = some ("All" ∷ []);
  space = none;
  game = none;
  admin = none;
  ban = none;
  whitelist = none;
  limit = none;
  block_category = none;
  language = none;
  map_data = none;
  custom = none;
}

-- The room that the payload of the tests asks for.
abbrev pub room : ChatRoom
room = build_room "r" (pos 5) ann request

read : read_request room_data ≡ some request
unfolding read_request find_field insert_field is_chat_room_name trim
read = refl

pub in_club : HashMap.get club.chat_rooms "r" ≡ some room
unfolding HashMap.get HashMap.insert HashMap.adjust club chat_room_create int_beq find_field
    insert_field is_chat_room_name trim build_room any
in_club = refl

pub ann_online : HashMap.get club.accounts_by_socket "a" ≡ some (enter "r" ann)
unfolding HashMap.get HashMap.insert HashMap.adjust club chat_room_create int_beq find_field
    insert_field is_chat_room_name trim build_room any
ann_online = refl

pub bea_online : HashMap.get club.accounts_by_socket "b" ≡ some bea
unfolding HashMap.get HashMap.insert HashMap.adjust club chat_room_create int_beq find_field
    insert_field is_chat_room_name trim build_room any
bea_online = refl

named : "Club" ≡ room.name
unfolding build_room
named = refl

chat_room_create-IsConsistent_example :
    IsConsistent plain (chat_room_create plain "a" "r" (pos 5) room_data lobby).0
unfolding HashMap.get
chat_room_create-IsConsistent_example =
    chat_room_create-IsConsistent plain lobby "a" "r" (pos 5) room_data lobby-IsConsistent refl

leave_room_inner_reason-IsConsistent_example :
    Left plain club "a"
      (enter "r" ann)
      (leave_room_inner_reason plain "r" (pos 1) (some "ServerLeave") none club).0
leave_room_inner_reason-IsConsistent_example =
    leave_room_inner_reason-IsConsistent plain club "a" "r" (enter "r" ann) (some "ServerLeave")
      none club-IsConsistent ann_online refl

chat_room_leave-IsConsistent_example : IsConsistent plain (chat_room_leave plain "a" club).0
chat_room_leave-IsConsistent_example = chat_room_leave-IsConsistent plain club "a" club-IsConsistent

chat_room_join-IsConsistent_example :
    IsConsistent plain (chat_room_join plain "b" (json_object (("Name", text "Club") ∷ [])) club).0
chat_room_join-IsConsistent_example =
    chat_room_join-IsConsistent plain club "b" (json_object (("Name", text "Club") ∷ []))
      club-IsConsistent

pub allowed : refusal bea room ≡ none
unfolding refusal int_beq contains build_room has_any_role is_full
allowed = refl

move_to_lem_example :
    (HashMap.get (move_to plain "b" bea "r" club).0.chat_rooms "r" ≡ some (add_member (pos 2) room))
    × (HashMap.get (move_to plain "b" bea "r" club).0.accounts_by_socket "b" ≡ some (enter "r" bea))
unfolding build_room
move_to_lem_example =
    move_to_lem plain club club-IsConsistent "b" bea room bea_online in_club allowed

create_for_lem_example :
    (HashMap.get (create_for plain "a" "r" (pos 5) request ann lobby).0.chat_rooms "r" ≡ some room)
    × (room.members ≡ pos 1 ∷ [])
    × (HashMap.get (create_for plain "a" "r" (pos 5) request ann lobby).0.accounts_by_socket "a"
        ≡ some (enter "r" ann))
    × (get_room_by_name plain (create_for plain "a" "r" (pos 5) request ann lobby).0 "PROD" "Club"
        ≡ some room)
unfolding HashMap.get int_beq any room_name_exists_any
create_for_lem_example =
    create_for_lem plain lobby lobby-IsConsistent "a" "r" (pos 5) request ann refl refl refl "Club"
      refl
