-- ===== src/Relations/Ownership.antt =====
-- relations/mod.rs: what `handle_account_ownership` reads and writes of a session, and `Break`. A run is
-- one step here, its database calls included.
pub mod Release
pub mod Trial
pub mod Handler
pub mod Rules
pub mod Outcome
pub mod Facts
pub mod Releases
pub mod Trials
pub mod Refinement
use bc_server_rust.Base.{
  String, Bool, true, false, not, ◌&&◌, ◌||◌, Option, none, some, List, [], ◌∷◌, ◌++◌, ℤ, pos,
  ◌+i64◌, ltb_ℤ, leb_ℤ, contains, if◌then◌else◌, ◌==◌, int_eq, string_eq,
}
use bc_server_rust.Base.HashMap
use bc_server_rust.Base.HashMap.{map_option}
use bc_server_rust.Base.Text.{is_empty_text, take_chars}
use bc_server_rust.Json.{
  Value, bool, int, text, object, insert_field, remove_field, json_object, json_array, get_field,
  str_field, i64_field, is_text, is_number, is_some, unwrap_or, ◌>>=◌,
}
use bc_server_rust.Util.Validate.{ownership_delay_ms}
use bc_server_rust.Protocol.{MemberNumber, Emission, emit}
use bc_server_rust.Protocol.Events
use bc_server_rust.State.ChatRoom.{ChatRoom, socket_room_name}
use bc_server_rust.State.Account.{OnlineAccount}
use bc_server_rust.State.World.{World, get_by_socket, get_by_member, update_account}
use bc_server_rust.Room.Sync.{room_message, sync_character}
use bc_server_rust.Chat.{in_room}
use bc_server_rust.Store.{Run, tell, tell_all, run_both, clear_ownership, save_fields}

-- What the handlers read of an ownership.
abbrev pub owner_member : Option Value → Option MemberNumber
owner_member o = o >>= λ v. i64_field v "MemberNumber"

abbrev pub stage_of : Option Value → Option ℤ
stage_of o = o >>= λ v. i64_field v "Stage"

abbrev pub start_of : Option Value → Option ℤ
start_of o = o >>= λ v. i64_field v "Start"

abbrev pub start_offer : Option Value → Option MemberNumber
start_offer o = o >>= λ v. i64_field v "StartTrialOfferedByMemberNumber"

abbrev pub end_offer : Option Value → Option MemberNumber
end_offer o = o >>= λ v. i64_field v "EndTrialOfferedByMemberNumber"

abbrev pub difficulty_level : OnlineAccount → ℤ
difficulty_level a = unwrap_or (a.difficulty >>= λ d. i64_field d "Level") (pos 0)

-- The writes to a session.
abbrev pub freed : OnlineAccount → OnlineAccount
freed a = record a { owner = ""; ownership = none }

abbrev pub offered : MemberNumber → OnlineAccount → OnlineAccount
offered m a = record a {
  owner = "";
  ownership = some (json_object (("StartTrialOfferedByMemberNumber", int m) ∷ []));
}

abbrev pub insert_offer : MemberNumber → Value → Value
insert_offer m (object fs) = object (insert_field fs "EndTrialOfferedByMemberNumber" (int m))
insert_offer m v = v

abbrev pub end_offered : MemberNumber → OnlineAccount → OnlineAccount
end_offered m a = record a { ownership = map_option (insert_offer m) a.ownership }

abbrev pub annotate : Option String → Value → Value
annotate none (object fs) = object (remove_field fs "Notes")
annotate (some n) (object fs) =
    if is_empty_text n
    then object (remove_field fs "Notes")
    else object (insert_field fs "Notes" (text (take_chars 4000 n)))
annotate _ v = v

abbrev pub set_ownership : Value → OnlineAccount → OnlineAccount
set_ownership v a = record a { ownership = some v }

abbrev pub bond : MemberNumber → String → ℤ → ℤ → Value
bond m name start stage = json_object (
    ("MemberNumber", int m)
    ∷ ("Name", text name)
    ∷ ("Start", int start)
    ∷ ("Stage", int stage)
    ∷ [])

abbrev pub bound : String → Value → OnlineAccount → OnlineAccount
bound owner v a = record a { owner = owner; ownership = some v }

abbrev pub tag : String → String → MemberNumber → Value
tag t name m = json_object (("Tag", text t) ∷ ("Text", text name) ∷ ("MemberNumber", int m) ∷ [])

abbrev pub cleared : Value
cleared = json_object (("ClearOwnership", bool true) ∷ [])

abbrev pub result_payload : MemberNumber → String → Value
result_payload m r = json_object (("MemberNumber", int m) ∷ ("Result", text r) ∷ [])

abbrev pub source_tag : OnlineAccount → Value
source_tag src = tag "SourceCharacter" src.name src.member_number

-- A message of the sender's in the sender's room.
abbrev pub announce :
    World → OnlineAccount → ChatRoom → String → Option MemberNumber → List Value → List Emission
announce w src r content to tags =
    room_message w (socket_room_name r) src.member_number content "ServerMessage" to
      (some (json_array tags))

-- The guards of `Break`: the trial at any time, the collar after the delay, but not at the
-- difficulty Extreme.
unfoldable pub may_break : ℤ → OnlineAccount → ℤ → ℤ → Bool
may_break now a stage start =
    if not (stage == pos 0) && ltb_ℤ now (start +i64 ownership_delay_ms)
    then false
    else not (ltb_ℤ (pos 2) (difficulty_level a) && not (stage == pos 0))

unfoldable pub break_ownership : ℤ → String → Run
unfolding may_break clear_ownership
break_ownership now sid w = elim (get_by_socket w sid) [
  | none ↦ (w, [])
  | some acc ↦ elim (stage_of acc.ownership) [
    | none ↦ (w, [])
    | some stage ↦ elim (start_of acc.ownership) [
      | none ↦ (w, [])
      | some start ↦
          if may_break now acc stage start
          then (
            update_account w sid freed,
            clear_ownership acc.account_name
                ++ tell (emit sid Events.account_ownership cleared) ∷ [],
          )
          else (w, [])
    ]
  ]
]
