-- ===== src/Account/Beep.antt =====
-- account/mod.rs: `handle_account_beep`.
use bc_server_rust.Base.{
  String, Bool, true, false, not, ◌||◌, Option, none, some, List, [], ◌∷◌, contains, if◌then◌else◌,
  ◌==◌, int_eq, string_eq,
}
use bc_server_rust.Json.{
  Value, null, bool, int, text, object, json_object, Fields, find_field, as_str, as_i64, i64_field,
  bool_field, is_number, is_text, unwrap_or, ◌>>=◌,
}
use bc_server_rust.Protocol.{MemberNumber, Emission, emit}
use bc_server_rust.Protocol.Events
use bc_server_rust.State.ChatRoom.{ChatRoom}
use bc_server_rust.State.Account.{OnlineAccount}
use bc_server_rust.State.World.{World, get_by_socket, get_by_member, get_room}
use bc_server_rust.Server.{Action}
use bc_server_rust.Prison.{text_or_null}
use bc_server_rust.Room.Roles.{role_list_is_restrictive}
use bc_server_rust.Room.Create.{optional}

-- protocol/mod.rs; `extra` is the whole payload, which has the same "IsSecret".
pub record AccountBeepRequest : Type 0 where
  pub member_number : Option MemberNumber
  pub beep_type : Option String
  pub message : Option String
  pub extra : Value

read_beep : Fields → Option AccountBeepRequest
read_beep fs = do
  member_number ← optional as_i64 (find_field fs "MemberNumber")
  beep_type ← optional as_str (find_field fs "BeepType")
  message ← optional as_str (find_field fs "Message")
  some (record {
    member_number = member_number;
    beep_type = beep_type;
    message = message;
    extra = object fs;
  })

unfoldable pub decode_beep : Value → Option AccountBeepRequest
unfolding read_beep
decode_beep (object fs) = read_beep fs
decode_beep _ = none

-- A friend of the target, its owner, or anyone with a leash.
unfoldable pub may_beep : OnlineAccount → OnlineAccount → Option String → Bool
may_beep src target beep_type =
    contains target.friend_list src.member_number
    || is_number (target.ownership >>= λ o. i64_field o "MemberNumber") src.member_number
    || is_text beep_type "Leash"

-- Where the sender is, if that is not a secret.
pub record Place : Type 0 where
  pub space : Value
  pub name : Value
  pub hidden : Value

abbrev no_place : Place
no_place = record { space = null; name = null; hidden = null }

abbrev place_of : ChatRoom → Place
place_of r = record {
  space = text r.space;
  name = text r.name;
  hidden = bool (role_list_is_restrictive r.visibility);
}

unfoldable pub sender_place : World → OnlineAccount → Bool → Place
unfolding role_list_is_restrictive
sender_place w src true = no_place
sender_place w src false = elim (src.chat_room_id >>= get_room w) [
  | none ↦ no_place
  | some r ↦ place_of r
]

unfoldable pub beep_payload : World → OnlineAccount → AccountBeepRequest → Value
unfolding sender_place
beep_payload w src req =
    let p = sender_place w src (unwrap_or (bool_field req.extra "IsSecret") false) in
    json_object (
      ("MemberNumber", int src.member_number)
      ∷ ("MemberName", text src.name)
      ∷ ("ChatRoomSpace", p.space)
      ∷ ("ChatRoomName", p.name)
      ∷ ("Private", p.hidden)
      ∷ ("BeepType", text_or_null req.beep_type)
      ∷ ("Message", text_or_null req.message)
      ∷ [])

unfoldable pub beep_to : World → OnlineAccount → OnlineAccount → AccountBeepRequest → List Emission
unfolding may_beep beep_payload
beep_to w src target req =
    if not (target.environment == src.environment)
    then []
    else if may_beep src target req.beep_type
    then emit target.socket_id Events.account_beep (beep_payload w src req) ∷ []
    else []

unfoldable pub handle_account_beep : String → Value → Action
unfolding decode_beep beep_to
handle_account_beep sid d w = elim (decode_beep d) [
  | none ↦ (w, [])
  | some req ↦ elim req.member_number [
    | none ↦ (w, [])
    | some m ↦ elim (get_by_socket w sid) [
      | none ↦ (w, [])
      | some src ↦ elim (get_by_member w m) [
        | none ↦ (w, [])
        | some target ↦ (w, beep_to w src target req)
      ]
    ]
  ]
]
