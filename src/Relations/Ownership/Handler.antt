-- ===== src/Relations/Ownership/Handler.antt =====
-- relations/mod.rs: `handle_account_ownership`.
use bc_server_rust.Base.{
  String, Bool, Option, none, some, [], ℤ, contains, if◌then◌else◌, int_eq, string_eq,
}
use bc_server_rust.Json.{Value, str_field, i64_field, is_text}
use bc_server_rust.Protocol.{MemberNumber}
use bc_server_rust.State.ChatRoom.{ChatRoom}
use bc_server_rust.State.Account.{OnlineAccount}
use bc_server_rust.State.World.{get_by_member}
use bc_server_rust.Chat.{in_room}
use bc_server_rust.Store.{Run}
use bc_server_rust.Relations.Ownership.{break_ownership}
use bc_server_rust.Relations.Ownership.Release.{update_notes, release, release_offline}
use bc_server_rust.Relations.Ownership.Trial.{propose, consent}

module _ (connected : String → Bool) (now : ℤ) (sid : String) where
  module _ (src : OnlineAccount) (r : ChatRoom) (m : MemberNumber) (target : OnlineAccount) where
    unfoldable pub with_target : Option String → Option String → Run
    unfolding update_notes release propose consent
    with_target action notes w =
        if is_text action "UpdateNotes"
        then update_notes connected sid src r m target notes w
        else if is_text action "Release"
        then release connected sid src r m target w
        else propose connected now sid src r m target action
            (consent connected now sid src r m target action) w

  unfoldable pub from_room : Option Value → MemberNumber → Option String → Option String → Run
  unfolding in_room release_offline with_target
  from_room doc m action notes w = elim (in_room w sid) [
    | none ↦ (w, [])
    | some (src, r) ↦
        if contains r.members m
        then elim (get_by_member w m) [
          | none ↦ (w, [])
          | some target ↦ with_target src r m target action notes w
        ]
        else if is_text action "Release"
        then release_offline connected sid doc m w
        else (w, [])
  ]

  unfoldable pub handle_account_ownership : Option Value → Value → Run
  unfolding break_ownership from_room
  handle_account_ownership doc d w = elim (i64_field d "MemberNumber") [
    | none ↦ (w, [])
    | some m ↦
        let action = str_field d "Action" in
        if is_text action "Break"
        then break_ownership now sid w
        else from_room doc m action (str_field d "Notes") w
  ]
