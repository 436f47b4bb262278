-- ===== src/Room/Admin/Effects.antt =====
-- room/admin.rs: what an action sends when its changes are made.
use bc_server_rust.Base.{
  String, Bool, false, ◌||◌, Option, none, some, List, [], ◌∷◌, ◌++◌, pos, if◌then◌else◌, ◌==◌,
  string_eq,
}
use bc_server_rust.Json.{Value, int, text, object, fields, insert_field, json_array, json_object}
use bc_server_rust.Protocol.{MemberNumber, Emission, emit, emit_within}
use bc_server_rust.Protocol.Events
use bc_server_rust.State.ChatRoom.{ChatRoom, socket_room_name, member_list_json, properties}
use bc_server_rust.State.Account.{OnlineAccount}
use bc_server_rust.State.World.{World, get_by_member, get_room}
use bc_server_rust.Room.Leave.{name_of, source_character}
use bc_server_rust.Room.Sync.{room_message}

-- A room message of the kind "Action".
pub record ActionMessage : Type 0 where
  pub room_name : String
  pub sender : MemberNumber
  pub content : String
  pub dict : Value

-- `kick` is never set by an action, and is left out.
pub record AdminEffects : Type 0 where
  pub props : Option (String × Value)
  pub reorder : Option (String × Value)
  pub action : Option ActionMessage
  pub update_resp : Option String

abbrev pub no_effects : AdminEffects
no_effects = record { props = none; reorder = none; action = none; update_resp = none }

abbrev pub answer : String → AdminEffects
answer code = record { props = none; reorder = none; action = none; update_resp = some code }

abbrev emit_room : String → Option (String × Value) → List Emission
emit_room event none = []
emit_room event (some (room_name, payload)) = emit_within room_name event payload ∷ []

abbrev emit_action : World → Option ActionMessage → List Emission
emit_action w none = []
emit_action w (some m) = room_message w m.room_name m.sender m.content "Action" none (some m.dict)

abbrev emit_answer : String → Option String → List Emission
emit_answer sid none = []
emit_answer sid (some code) = emit sid Events.chat_room_update_response (text code) ∷ []

-- Moves and shuffles are told before the new order, a swap after it.
abbrev action_before_reorder : Option ActionMessage → Bool
action_before_reorder none = false
action_before_reorder (some m) =
    m.content == "ServerMoveLeft" || m.content == "ServerMoveRight" || m.content == "ServerShuffle"

unfoldable pub emit_effects : World → String → AdminEffects → List Emission
unfolding room_message
emit_effects w sid e =
    let told = emit_action w e.action in
    let order = emit_room Events.chat_room_sync_reorder_players e.reorder in
    emit_answer sid e.update_resp
    ++ ((if action_before_reorder e.action then told ++ order else order ++ told)
        ++ emit_room Events.chat_room_sync_room_properties e.props)

abbrev target_name : String → MemberNumber → Value
target_name name m =
    json_object
      (("Tag", text "TargetCharacterName") ∷ ("Text", text name) ∷ ("MemberNumber", int m) ∷ [])

abbrev pub source_target_dict : OnlineAccount → MemberNumber → String → Value
source_target_dict acc target name =
    json_array (source_character acc.name acc.member_number ∷ target_name name target ∷ [])

abbrev move_source_target_dict : OnlineAccount → MemberNumber → String → Value
move_source_target_dict acc target name =
    json_array (target_name name target ∷ source_character acc.name acc.member_number ∷ [])

abbrev pub props_of : ChatRoom → MemberNumber → String × Value
props_of r source = (
  socket_room_name r,
  object (insert_field (fields (properties r)) "SourceMemberNumber" (int source)),
)

abbrev order_of : ChatRoom → String × Value
order_of r = (socket_room_name r, json_object (("PlayerOrder", member_list_json r.members) ∷ []))

abbrev pub action_of_room : ChatRoom → OnlineAccount → String → Value → Option ActionMessage
action_of_room r acc content dict = some (record {
  room_name = socket_room_name r;
  sender = acc.member_number;
  content = content;
  dict = dict;
})

unfoldable pub props_effect : World → String → MemberNumber → AdminEffects
props_effect w room_id source = elim (get_room w room_id) [
  | none ↦ no_effects
  | some r ↦ record no_effects { props = some (props_of r source) }
]

unfoldable pub promote_demote_effect :
    World → String → OnlineAccount → MemberNumber → String → AdminEffects
promote_demote_effect w room_id acc target content = elim (get_room w room_id) [
  | none ↦ no_effects
  | some r ↦ record no_effects {
    props = some (props_of r acc.member_number);
    action =
        action_of_room r acc content
          (source_target_dict acc target (name_of (get_by_member w target)));
  }
]

unfoldable pub move_effect :
    World → String → OnlineAccount → MemberNumber → String → Bool → AdminEffects
move_effect w room_id acc target content publish = elim (get_room w room_id) [
  | none ↦ no_effects
  | some r ↦ record no_effects {
    reorder = some (order_of r);
    action =
        if publish
        then action_of_room r acc content
            (move_source_target_dict acc target (name_of (get_by_member w target)))
        else none;
  }
]

unfoldable pub reorder_effect : World → String → OnlineAccount → String → AdminEffects
reorder_effect w room_id acc content = elim (get_room w room_id) [
  | none ↦ no_effects
  | some r ↦ record no_effects {
    reorder = some (order_of r);
    action =
        action_of_room r acc content
          (json_array (source_character acc.name acc.member_number ∷ []));
  }
]

abbrev swap_dict : OnlineAccount → MemberNumber → MemberNumber → Value
swap_dict acc t d = json_array (
    json_object (("SourceCharacter", int acc.member_number) ∷ [])
    ∷ json_object (("TargetCharacter", int t) ∷ [])
    ∷ json_object (("TargetCharacter", int d) ∷ ("Index", int (pos 1)) ∷ [])
    ∷ [])

unfoldable pub swap_effect :
    World → String → OnlineAccount → MemberNumber → MemberNumber → AdminEffects
swap_effect w room_id acc t d = elim (get_room w room_id) [
  | none ↦ no_effects
  | some r ↦ record no_effects {
    reorder = some (order_of r);
    action = action_of_room r acc "ServerSwap" (swap_dict acc t d);
  }
]
