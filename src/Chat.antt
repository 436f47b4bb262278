-- ===== src/Chat.antt =====
-- chat/mod.rs: the messages of a room, the game, and the question for the permission.
pub mod Permission
pub mod Updates
pub mod Targets
pub mod Consistency
pub mod Handlers
pub mod Guard
use Prim.Native.String
use bc_server_rust.Base.{
  ℕ, ℤ, pos, String, Bool, true, false, not, ◌&&◌, ◌||◌, Option, none, some, List, [], ◌∷◌, ltb,
  contains, if◌then◌else◌, ◌==◌, int_eq, string_eq,
}
use bc_server_rust.Base.Text.{trim}
use bc_server_rust.Json.{
  Value, Fields, int, float, text, bool, object, array, nil, cons, find_field, as_str, as_i64,
  get_field, str_field, i64_field, is_object, is_array, unwrap_or, json_object, ◌>>=◌,
}
use bc_server_rust.Protocol.{MemberNumber, Emission, emit, emit_within}
use bc_server_rust.Protocol.Events
use bc_server_rust.Protocol.Codes
use bc_server_rust.State.Platform.{Platform}
use bc_server_rust.State.ChatRoom.{ChatRoom, socket_room_name}
use bc_server_rust.State.Account.{OnlineAccount}
use bc_server_rust.State.World.{World, get_by_socket, get_by_member, get_room}
use bc_server_rust.Room.Create.{optional}
use bc_server_rust.Room.Sync.{message_payload}
use bc_server_rust.Util.Validate.{chat_message_max_length}
use Permission.{chat_room_get_allow_item}

-- protocol/mod.rs.
pub record ChatRoomMessage : Type 0 where
  pub content : Option String
  pub msg_type : Option String
  pub target : Option MemberNumber
  pub dictionary : Option Value

decode_fields : Option Value → Option Value → Option Value → Option Value → Option ChatRoomMessage
decode_fields c m t d = do
  content ← optional as_str c
  msg_type ← optional as_str m
  target ← optional as_i64 t
  dictionary ← optional (λ v. some v) d
  some (record { content = content; msg_type = msg_type; target = target; dictionary = dictionary })

-- A struct decodes from an object, and from a list of its four fields.
unfoldable pub decode_message : Value → Option ChatRoomMessage
unfolding decode_fields
decode_message (object fs) =
    decode_fields (find_field fs "Content") (find_field fs "Type") (find_field fs "Target")
      (find_field fs "Dictionary")
decode_message (array (cons c (cons m (cons t (cons d nil))))) =
    decode_fields (some c) (some m) (some t) (some d)
decode_message _ = none

-- The session of the socket, and the room that it is in.
unfoldable pub in_room : World → String → Option (OnlineAccount × ChatRoom)
in_room w sid =
    get_by_socket w sid >>= λ acc. acc.chat_room_id >>= λ rid. get_room w rid >>= λ r. some (acc, r)

-- The message as a member of the room sends it: to all of it, or to the target alone, who must be in it.
unfoldable pub deliver : World → OnlineAccount → ChatRoom → ChatRoomMessage → List Emission
deliver w acc r msg =
    let payload =
      message_payload acc.member_number (trim (unwrap_or msg.content ""))
        (unwrap_or msg.msg_type "") msg.dictionary in
    elim msg.target [
      | none ↦ emit_within (socket_room_name r) Events.chat_room_message payload ∷ []
      | some m ↦ elim (get_by_member w m) [
        | none ↦ []
        | some t ↦
            if contains r.members m
            then emit t.socket_id Events.chat_room_message payload ∷ []
            else []
      ]
    ]

abbrev is_sendable : ChatRoomMessage → Bool
is_sendable msg =
    contains Codes.chat_types (unwrap_or msg.msg_type "")
    && not (ltb chat_message_max_length (String.len (unwrap_or msg.content "")))

unfoldable pub chat_room_chat : String → Value → World → World × List Emission
unfolding decode_message in_room deliver
chat_room_chat sid d w = elim (decode_message d) [
  | none ↦ (w, [])
  | some msg ↦ elim (in_room w sid) [
    | none ↦ (w, [])
    | some (acc, r) ↦ (w, if is_sendable msg then deliver w acc r msg else [])
  ]
]

-- `rng` is the bit pattern of the random number.
unfoldable pub chat_room_game : String → ℕ → Value → World → World × List Emission
unfolding in_room
chat_room_game sid rng d w = elim (in_room w sid) [
  | none ↦ (w, [])
  | some (acc, r) ↦
      let payload =
        json_object (("Sender", int acc.member_number) ∷ ("Data", d) ∷ ("RNG", float rng) ∷ []) in
      (
        w,
        if is_object d || is_array d
            then emit_within (socket_room_name r) Events.chat_room_game_response payload ∷ []
            else [],
      )
]

module _ (P : Platform) where
  -- The answer, if the target is in the room of the one who asks.
  unfoldable pub allow_item_in : World → OnlineAccount → ChatRoom → MemberNumber → Option Bool
  unfolding chat_room_get_allow_item
  allow_item_in w src r m =
      if contains r.members m
      then get_by_member w m >>= (λ t. some (chat_room_get_allow_item P src t))
      else none

  unfoldable pub allow_item : String → Value → World → World × List Emission
  unfolding in_room allow_item_in
  allow_item sid d w =
      let m = unwrap_or (i64_field d "MemberNumber") (pos 0) in
      elim (in_room w sid) [
        | none ↦ (w, [])
        | some (src, r) ↦ elim (allow_item_in w src r m) [
          | none ↦ (w, [])
          | some b ↦ (
            w,
            emit sid Events.chat_room_allow_item
                  (json_object (("MemberNumber", int m) ∷ ("AllowItem", bool b) ∷ []))
                ∷ [],
          )
        ]
      ]
