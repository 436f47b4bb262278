-- ===== src/Chat/Updates.antt =====
-- chat/mod.rs: what a member changes of a character, and what the room is told of it.
use bc_server_rust.Base.{
  String, ◌||◌, Option, none, some, List, [], ◌∷◌, retain, length, leb, if◌then◌else◌, int_eq,
  string_eq,
}
use bc_server_rust.Base.Text.{is_empty_text}
use bc_server_rust.Json.{
  Value, Fields, null, int, text, object, insert_field, remove_field, get_field, str_field,
  is_object, is_array, is_string, as_array, fields, unwrap_or, json_object, json_array, ◌>>=◌,
}
use bc_server_rust.Protocol.{Emission, emit_to_room}
use bc_server_rust.Protocol.Events
use bc_server_rust.State.ChatRoom.{socket_room_name}
use bc_server_rust.State.Account.{OnlineAccount}
use bc_server_rust.State.World.{World, get_by_socket, get_room, update_account}

-- The Socket.IO room of a session that is in a room.
abbrev room_of : World → OnlineAccount → Option String
room_of w acc = acc.chat_room_id >>= λ rid. get_room w rid >>= λ r. some (socket_room_name r)

-- To the room of the session, without its own socket.
abbrev tell_others : World → String → OnlineAccount → String → Value → List Emission
tell_others w sid acc event payload = elim (room_of w acc) [
  | none ↦ []
  | some name ↦ emit_to_room sid name event payload ∷ []
]

-- The appearance that an expression brings along, of five items or more.
abbrev pub with_appearance : Option Value → OnlineAccount → OnlineAccount
with_appearance none a = a
with_appearance (some v) a = elim (as_array v) [
  | none ↦ a
  | some items ↦ if leb 5 (length items) then record a { appearance = some v } else a
]

unfoldable pub expression_for :
    String → String → Value → OnlineAccount → World → World × List Emission
expression_for sid group d acc w =
    let payload = json_object (
      ("MemberNumber", int acc.member_number)
      ∷ ("Name", unwrap_or (get_field d "Name") null)
      ∷ ("Group", text group)
      ∷ []) in
    (
      update_account w sid (with_appearance (get_field d "Appearance")),
      tell_others w sid acc Events.chat_room_sync_expression payload,
    )

unfoldable pub expression_update : String → Value → World → World × List Emission
unfolding expression_for
expression_update sid d w = elim (str_field d "Group") [
  | none ↦ (w, [])
  | some group ↦ elim (get_by_socket w sid) [
    | none ↦ (w, [])
    | some acc ↦ if is_empty_text group then (w, []) else expression_for sid group d acc w
  ]
]

-- The strings of a list, or the one string.
abbrev pose_of : Option Value → Value
pose_of none = json_array []
pose_of (some v) = elim v [
  | text s ↦ json_array (text s ∷ [])
  | other ↦ json_array (retain is_string (unwrap_or (as_array other) []))
]

unfoldable pub pose_update : String → Value → World → World × List Emission
pose_update sid d w =
    let pose = pose_of (get_field d "Pose") in
    elim (get_by_socket w sid) [
      | none ↦ (w, [])
      | some acc ↦
          if is_object d
          then (
            update_account w sid (λ a. record a { active_pose = some pose }),
            tell_others w sid acc Events.chat_room_sync_pose
                (json_object (("MemberNumber", int acc.member_number) ∷ ("Pose", pose) ∷ [])),
          )
          else (w, [])
    ]

abbrev arousal_keys : List String
arousal_keys = "OrgasmTimer" ∷ "OrgasmCount" ∷ "Progress" ∷ "ProgressTimer" ∷ []

-- A key of the payload is put in, and one that it has not is taken out.
unfoldable pub copy_keys : List String → Value → Fields → Fields
copy_keys [] d fs = fs
copy_keys (k ∷ ks) d fs =
    copy_keys ks d
      (elim (get_field d k) [ none ↦ remove_field fs k | some v ↦ insert_field fs k v ])

-- A key of the payload is put in.
unfoldable pub add_keys : List String → Value → Fields → Fields
add_keys [] d fs = fs
add_keys (k ∷ ks) d fs =
    add_keys ks d (elim (get_field d k) [ none ↦ fs | some v ↦ insert_field fs k v ])

unfoldable pub arousal_for :
    String → Value → OnlineAccount → Option Value → World → World × List Emission
unfolding copy_keys add_keys
arousal_for sid d acc (some (object settings)) w = (
  update_account w sid
      (λ a. record a { arousal_settings = some (object (copy_keys arousal_keys d settings)) }),
  tell_others w sid acc Events.chat_room_sync_arousal
      (object (add_keys arousal_keys d (fields (("MemberNumber", int acc.member_number) ∷ [])))),
)
arousal_for sid d acc _ w = (w, [])

unfoldable pub arousal_update : String → Value → World → World × List Emission
unfolding arousal_for
arousal_update sid d w = elim (get_by_socket w sid) [
  | none ↦ (w, [])
  | some acc ↦
      if is_object d || is_array d then arousal_for sid d acc acc.arousal_settings w else (w, [])
]

unfoldable pub map_data_update : String → Value → World → World × List Emission
map_data_update sid d w = elim (get_by_socket w sid) [
  | none ↦ (w, [])
  | some acc ↦
      if is_object d || is_array d
      then (
        update_account w sid (λ a. record a { map_data = some d }),
        tell_others w sid acc Events.chat_room_sync_map_data
            (json_object (("MemberNumber", int acc.member_number) ∷ ("MapData", d) ∷ [])),
      )
      else (w, [])
]
