-- ===== src/Disconnect.antt =====
-- handlers.rs: the end of a session, by a disconnect or on request.
pub mod Removal
pub mod Consistency
use bc_server_rust.Base.{ℕ, ℤ, String, Bool, Option, none, some, List, [], ◌∷◌, ◌++◌, if◌then◌else◌}
use bc_server_rust.Base.HashMap
use bc_server_rust.Json.{
  Value, Fields, insert_field, end, is_no_field, is_object, json_object, ◌>>=◌,
}
use bc_server_rust.Limits.{on_ip_disconnect}
use bc_server_rust.Protocol.{MemberNumber, Emission}
use bc_server_rust.State.Platform.{Platform}
use bc_server_rust.State.Account.{OnlineAccount, insert_some}
use bc_server_rust.State.World.{World, get_by_socket, update_account, remove_account}
use bc_server_rust.Room.Leave.{leave_room_on_disconnect}
use bc_server_rust.Prison.{emit_prison_sector_sync}

-- The fields whose writing was put off, for the database.
abbrev pub delayed_fields : OnlineAccount → Fields
delayed_fields a =
    insert_some "Game" a.delayed_game
      (insert_some "Skill" a.delayed_skill (insert_some "Appearance" a.delayed_appearance end))

abbrev pub clear_delayed : OnlineAccount → OnlineAccount
clear_delayed a = record a { delayed_appearance = none; delayed_skill = none; delayed_game = none }

-- The first lock: what is to be written of the account, which has nothing delayed from then on.
unfoldable pub take_delayed : String → World → World × Option (String × Fields)
take_delayed sid w = elim (get_by_socket w sid) [
  | none ↦ (w, none)
  | some a ↦ (
    update_account w sid clear_delayed,
    if is_no_field (delayed_fields a) then none else some (a.account_name, delayed_fields a),
  )
]

module _ (P : Platform) where
  abbrev pub leave_with : MemberNumber → Option String → World → World × List Emission
  leave_with m none w = (w, [])
  leave_with m (some rid) w = leave_room_on_disconnect P rid m "ServerDisconnect" w

  -- The room that the session is in is left.
  unfoldable pub leave_on_disconnect : String → World → World × List Emission
  unfolding leave_room_on_disconnect
  leave_on_disconnect sid w = elim (get_by_socket w sid) [
    | none ↦ (w, [])
    | some a ↦ leave_with a.member_number a.chat_room_id w
  ]

  abbrev pub syncs : World → Option (OnlineAccount × List (MemberNumber × ℕ)) → List Emission
  syncs w none = []
  syncs w (some (a, sectors)) = tell sectors
    where
      tell : List (MemberNumber × ℕ) → List Emission
      tell [] = []
      tell ((host, sector) ∷ more) = emit_prison_sector_sync w host sector ++ tell more

  -- The second lock, and the snapshots of the sectors after it.
  unfoldable pub depart : String → String → World → World × List Emission
  unfolding leave_on_disconnect remove_account on_ip_disconnect emit_prison_sector_sync
  depart sid ip w =
      let (w1, sent) = leave_on_disconnect sid w in
      let (w2, removed) = remove_account w1 sid in
      let w3 = on_ip_disconnect w2 ip in (w3, sent ++ syncs w3 removed)

  -- The whole cleanup, and what it writes to the database, whose answer it does not read.
  unfoldable pub on_disconnect_cleanup :
      String → String → World → World × List Emission × Option (String × Fields)
  unfolding take_delayed depart
  on_disconnect_cleanup sid ip w =
      let (w1, saved) = take_delayed sid w in let (w2, sent) = depart sid ip w1 in (w2, sent, saved)
