-- ===== src/Relations/Ownership/Release.antt =====
-- relations/mod.rs: `UpdateNotes` and `Release` of handle_account_ownership, and `release_offline`. The
-- target is the snapshot that the handler takes before it changes anything.
use bc_server_rust.Base.{
  String, Bool, ◌&&◌, Option, none, some, List, [], ◌∷◌, ◌++◌, pos, if◌then◌else◌, ◌==◌, int_eq,
  string_eq,
}
use bc_server_rust.Base.HashMap
use bc_server_rust.Base.HashMap.{map_option}
use bc_server_rust.Json.{Value, text, json_object, get_field, str_field, is_number, unwrap_or}
use bc_server_rust.Protocol.{MemberNumber, Emission, emit}
use bc_server_rust.Protocol.Events
use bc_server_rust.State.ChatRoom.{ChatRoom, socket_room_name}
use bc_server_rust.State.Account.{OnlineAccount}
use bc_server_rust.State.World.{World, get_by_socket, update_account}
use bc_server_rust.Room.Sync.{room_message, sync_character}
use bc_server_rust.Chat.{in_room}
use bc_server_rust.Store.{Run, tell_all, clear_ownership, save_fields}
use bc_server_rust.Relations.Ownership.{
  owner_member, stage_of, freed, annotate, set_ownership, tag, source_tag, announce, cleared,
}

-- `ReleaseFail` and `ReleaseSuccess` to the one who asked, where that one is in a room.
abbrev report_release : World → String → MemberNumber → String → List Emission
report_release w sid src_member content = elim (in_room w sid) [
  | none ↦ []
  | some (a, r) ↦
      room_message w (socket_room_name r) src_member content "ServerMessage" (some src_member) none
]

unfoldable pub emit_release_fail : World → String → MemberNumber → List Emission
unfolding in_room room_message
emit_release_fail w sid src_member = report_release w sid src_member "ReleaseFail"

-- What the released one hears in the room that one is in.
abbrev tell_released : World → String → MemberNumber → List Emission
tell_released w j m = elim (in_room w j) [
  | none ↦ []
  | some (t, r) ↦
      room_message w (socket_room_name r) m "ReleaseByOwner" "ServerMessage" (some m) none
]

abbrev release_content : Option Value → String
release_content o = elim (stage_of o) [
  | none ↦ "EndOwnershipTrial"
  | some s ↦ if s == pos 0 then "EndOwnershipTrial" else "EndOwnership"
]

module _ (connected : String → Bool) (sid : String) where
  -- What follows in `release_offline` when the account is found with this owner.
  unfoldable pub release_online : OnlineAccount → MemberNumber → Run
  unfolding in_room room_message sync_character
  release_online src m w = elim (HashMap.get w.socket_by_member m) [
    | none ↦ (w, tell_all (report_release w sid src.member_number "ReleaseSuccess"))
    | some j ↦
        let w' = update_account w j freed in
        (
          w',
          tell_all (
              emit j Events.account_ownership cleared
              ∷ (sync_character connected w' sid m m
                  ++ (tell_released w' j m
                      ++ report_release w' sid src.member_number "ReleaseSuccess"))),
        )
  ]

  -- `doc` is what `find_by_member_number` answers, an error and a missing account both `none`.
  unfoldable pub release_offline : Option Value → MemberNumber → Run
  unfolding emit_release_fail clear_ownership release_online
  release_offline doc m w = elim (get_by_socket w sid) [
    | none ↦ (w, [])
    | some src ↦ elim doc [
      | none ↦ (w, tell_all (emit_release_fail w sid src.member_number))
      | some d ↦
          if is_number (owner_member (get_field d "Ownership")) src.member_number
          then (let (w', out) = release_online src m w in
              (w', clear_ownership (unwrap_or (str_field d "AccountName") "") ++ out))
          else (w, tell_all (emit_release_fail w sid src.member_number))
    ]
  ]

  module _ (src : OnlineAccount) (r : ChatRoom) (m : MemberNumber) (target : OnlineAccount) where
    unfoldable pub update_notes : Option String → Run
    unfolding save_fields sync_character
    update_notes notes w =
        if is_number (stage_of target.ownership) (pos 1)
          && is_number (owner_member target.ownership) src.member_number
        then (let v = annotate notes (unwrap_or target.ownership (json_object [])) in
            let set = json_object (("Ownership", v) ∷ ("Owner", text target.owner) ∷ []) in
            let w' = update_account w target.socket_id (set_ownership v) in
            (
              w',
              save_fields target.account_name set
                  ++ tell_all (
                      emit target.socket_id Events.account_ownership set
                      ∷ sync_character connected w' sid m m),
            ))
        else (w, [])

    unfoldable pub release : Run
    unfolding clear_ownership room_message sync_character
    release w =
        if is_number (owner_member target.ownership) src.member_number
        then (let w' = update_account w target.socket_id freed in
            (
              w',
              clear_ownership target.account_name
                  ++ tell_all (
                      emit target.socket_id Events.account_ownership cleared
                      ∷ (announce w' src r (release_content target.ownership) none
                            (source_tag src ∷ tag "TargetCharacter" target.name m ∷ [])
                          ++ sync_character connected w' sid m m)),
            ))
        else (w, [])
