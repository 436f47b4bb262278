-- ===== src/Chat/Targets.antt =====
-- chat/mod.rs: what a member changes of another, with the permission of the target.
use bc_server_rust.Base.{
  String, Bool, true, false, not, ◌&&◌, ◌||◌, Option, none, some, List, [], ◌∷◌, any, contains,
  if◌then◌else◌, ◌==◌, int_eq, string_eq,
}
use bc_server_rust.Base.Text.{is_empty_text}
use bc_server_rust.Json.{Value, int, get_field, str_field, i64_field, is_array, json_object}
use bc_server_rust.Protocol.{MemberNumber, Emission, emit_within, emit_to_room}
use bc_server_rust.Protocol.Events
use bc_server_rust.State.Platform.{Platform}
use bc_server_rust.State.ChatRoom.{ChatRoom, socket_room_name}
use bc_server_rust.State.Account.{OnlineAccount, to_synced_character_for_room}
use bc_server_rust.State.World.{World, get_by_socket, get_by_member, update_account}
use bc_server_rust.Chat.{in_room}
use bc_server_rust.Chat.Permission.{chat_room_get_allow_item}

-- Some member of the room has the socket.
unfoldable pub has_socket : World → ChatRoom → String → Bool
has_socket w r sid =
    any (λ m. elim (get_by_member w m) [ none ↦ false | some a ↦ a.socket_id == sid ]) r.members

-- The pose is set where the payload has one.
abbrev pub with_pose : Option Value → OnlineAccount → OnlineAccount
with_pose none a = a
with_pose (some p) a = record a { active_pose = some p }

abbrev pub dressed : Value → Option Value → OnlineAccount → OnlineAccount
dressed appearance pose a =
    with_pose pose (record a { appearance = some appearance; delayed_appearance = some appearance })

module _ (P : Platform) where
  -- Who may change a character of the room.
  unfoldable pub may_change : World → OnlineAccount → ChatRoom → String → OnlineAccount → Bool
  unfolding has_socket chat_room_get_allow_item
  may_change w src r target_id target =
      not (contains r.ban src.member_number)
      && has_socket w r target_id
      && chat_room_get_allow_item P src target

  unfoldable pub character_for : String → String → Value → Value → World → World × List Emission
  unfolding in_room may_change to_synced_character_for_room
  character_for sid target_id appearance d w = elim (in_room w sid) [
    | none ↦ (w, [])
    | some (src, r) ↦ elim (get_by_socket w target_id) [
      | none ↦ (w, [])
      | some target ↦
          let change = dressed appearance (get_field d "ActivePose") in
          let payload = json_object (
            ("Character", to_synced_character_for_room (change target) r.members)
            ∷ ("SourceMemberNumber", int src.member_number)
            ∷ []) in
          if may_change w src r target_id target
          then (
            update_account w target_id change,
            emit_within (socket_room_name r) Events.chat_room_sync_single payload ∷ [],
          )
          else (w, [])
    ]
  ]

  unfoldable pub character_update : String → Value → World → World × List Emission
  unfolding character_for
  character_update sid d w = elim (str_field d "ID") [
    | none ↦ (w, [])
    | some target_id ↦ elim (get_field d "Appearance") [
      | none ↦ (w, [])
      | some appearance ↦
          if is_empty_text target_id || not (is_array appearance)
          then (w, [])
          else character_for sid target_id appearance d w
    ]
  ]

  -- A target who is in the room must allow it; a number that is not is passed on.
  unfoldable pub may_tell_item : World → OnlineAccount → ChatRoom → MemberNumber → Bool
  unfolding chat_room_get_allow_item
  may_tell_item w src r m =
      not (contains r.ban src.member_number)
      && (not (contains r.members m)
          || elim (get_by_member w m) [ none ↦ true | some t ↦ chat_room_get_allow_item P src t ])

  unfoldable pub item_for : String → MemberNumber → Value → World → World × List Emission
  unfolding in_room may_tell_item
  item_for sid m d w = elim (in_room w sid) [
    | none ↦ (w, [])
    | some (src, r) ↦
        let payload = json_object (("Source", int src.member_number) ∷ ("Item", d) ∷ []) in
        (
          w,
          if may_tell_item w src r m
              then emit_to_room sid (socket_room_name r) Events.chat_room_sync_item payload ∷ []
              else [],
        )
  ]

  unfoldable pub item_update : String → Value → World → World × List Emission
  unfolding item_for
  item_update sid d w = elim (i64_field d "Target") [
    | none ↦ (w, [])
    | some m ↦ elim (str_field d "Group") [ none ↦ (w, []) | some group ↦ item_for sid m d w ]
  ]
