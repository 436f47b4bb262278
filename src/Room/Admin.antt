-- ===== src/Room/Admin.antt =====
-- room/admin.rs: `handle_chat_room_admin`.
pub mod Effects
pub mod Update
pub mod Edit
pub mod Rename
pub mod Changes
pub mod Ban
pub mod Guard
pub mod Settings
pub mod Consistency
use bc_server_rust.Base.{
  ℤ, ℕ, zero, suc, ◌+◌, String, Bool, true, false, not, ◌&&◌, ◌||◌, Option, none, some, List, [],
  ◌∷◌, ◌++◌, contains, without, push, position, swap, length, ltb, leb, if◌then◌else◌, ◌==◌, int_eq,
  string_eq,
}
use bc_server_rust.Base.HashMap.{map_option}
use bc_server_rust.Json.{Value, int, text, str_field, i64_field, bool_field, unwrap_or, json_array}
use bc_server_rust.Protocol.{MemberNumber, Emission, emit}
use bc_server_rust.Protocol.Events
use bc_server_rust.State.Platform.{Platform}
use bc_server_rust.State.ChatRoom.{ChatRoom, socket_room_name}
use bc_server_rust.State.Account.{OnlineAccount}
use bc_server_rust.State.World.{World, get_by_socket, get_by_member, get_room, update_room}
use bc_server_rust.Room.Leave.{leave_room_inner_reason, name_of, source_character}
use Effects.{
  AdminEffects, no_effects, emit_effects, props_effect, promote_demote_effect, move_effect,
  reorder_effect, swap_effect, source_target_dict,
}
use Update.{apply_update}

-- The actions that `match action` tells apart.
pub data AdminAction : Type 0 where
  ban unban kick move_left move_right shuffle promote demote : AdminAction
  whitelist unwhitelist swap_members update unknown : AdminAction

unfoldable pub action_of : String → AdminAction
action_of s =
    if s == "Update"
    then update
    else if s == "Swap"
    then swap_members
    else if s == "Ban"
    then ban
    else if s == "Unban"
    then unban
    else if s == "Kick"
    then kick
    else if s == "MoveLeft"
    then move_left
    else if s == "MoveRight"
    then move_right
    else if s == "Shuffle"
    then shuffle
    else if s == "Promote"
    then promote
    else if s == "Demote"
    then demote
    else if s == "Whitelist"
    then whitelist
    else if s == "Unwhitelist"
    then unwhitelist
    else unknown

-- The actions that an administrator may aim at himself.
abbrev pub on_self : AdminAction → Bool
on_self swap_members = true
on_self move_left = true
on_self move_right = true
on_self _ = false

-- What an action comes to: the new world, what it has sent, and the effects still to be sent.
abbrev pub Outcome : Type 0
Outcome = World × List Emission × AdminEffects

abbrev pub nothing : World → Outcome
nothing w = (w, [], no_effects)

abbrev pub edit_members : (List MemberNumber → List MemberNumber) → ChatRoom → ChatRoom
edit_members f r = record r { members = f r.members }

abbrev pub edit_admin : (List MemberNumber → List MemberNumber) → ChatRoom → ChatRoom
edit_admin f r = record r { admin = f r.admin }

abbrev pub edit_whitelist : (List MemberNumber → List MemberNumber) → ChatRoom → ChatRoom
edit_whitelist f r = record r { whitelist = f r.whitelist }

abbrev pub edit_ban : (List MemberNumber → List MemberNumber) → ChatRoom → ChatRoom
edit_ban f r = record r { ban = f r.ban }

abbrev pub push_new : MemberNumber → List MemberNumber → List MemberNumber
push_new m l = if contains l m then l else push l m

unfoldable pub apply_swap : World → OnlineAccount → ChatRoom → Option ℤ → Option ℤ → Outcome
apply_swap w acc room none d = nothing w
apply_swap w acc room (some t) none = nothing w
apply_swap w acc room (some t) (some d) =
    if t == d then nothing w else elim (position (λ m. m == t) room.members) [
      | none ↦ nothing w
      | some i ↦ elim (position (λ m. m == d) room.members) [
        | none ↦ nothing w
        | some j ↦
            let w' = update_room w room.id (edit_members (λ l. swap l i j)) in
            (w', [], swap_effect w' room.id acc t d)
      ]
    ]

-- The notice to a member who is thrown out.
abbrev notice : Option OnlineAccount → String → List Emission
notice none code = []
notice (some a) code = emit a.socket_id Events.chat_room_search_response (text code) ∷ []

module _ (P : Platform) (shuffled : List MemberNumber → List MemberNumber) where
  -- The notice, and then the leave with its message.
  unfoldable pub throw_out :
      World → OnlineAccount → String → MemberNumber → String → String → World × List Emission
  throw_out w acc room_id target code reason =
      let who = get_by_member w target in
      let (w', sent) =
        leave_room_inner_reason P room_id target (some reason)
          (some (source_target_dict acc target (name_of who))) w in
      (w', notice who code ++ sent)

  -- The target is in the room, at a place.
  unfoldable pub apply_member :
      AdminAction → World → OnlineAccount → ChatRoom → MemberNumber → ℕ → Bool → Outcome
  unfolding throw_out
  apply_member ban w acc room target a publish =
      let w1 = update_room w room.id (edit_ban (push_new target)) in
      let (w2, sent) = throw_out w1 acc room.id target "RoomBanned" "ServerBan" in
      (w2, sent, props_effect w2 room.id acc.member_number)
  apply_member kick w acc room target a publish =
      let (w1, sent) = throw_out w acc room.id target "RoomKicked" "ServerKick" in
      (w1, sent, no_effects)
  apply_member move_left w acc room target zero publish = nothing w
  apply_member move_left w acc room target (suc a) publish =
      let w1 = update_room w room.id (edit_members (λ l. swap l (suc a) a)) in
      (w1, [], move_effect w1 room.id acc target "ServerMoveLeft" publish)
  apply_member move_right w acc room target a publish =
      let w1 = update_room w room.id (edit_members (λ l. swap l a (suc a))) in
      let moved = move_effect w1 room.id acc target "ServerMoveRight" publish in
      if ltb (a + 1) (length room.members) then (w1, [], moved) else nothing w
  apply_member shuffle w acc room target a publish =
      let w1 = update_room w room.id (edit_members shuffled) in
      (w1, [], reorder_effect w1 room.id acc "ServerShuffle")
  apply_member promote w acc room target a publish =
      let w1 = update_room w room.id (edit_admin (λ l. push l target)) in
      let done = promote_demote_effect w1 room.id acc target "ServerPromoteAdmin" in
      if contains room.admin target then nothing w else (w1, [], done)
  apply_member demote w acc room target a publish =
      let w1 = update_room w room.id (edit_admin (without target)) in
      let done = promote_demote_effect w1 room.id acc target "ServerDemoteAdmin" in
      if contains room.admin target then (w1, [], done) else nothing w
  apply_member whitelist w acc room target a publish =
      let w1 = update_room w room.id (edit_whitelist (λ l. push l target)) in
      let done = promote_demote_effect w1 room.id acc target "ServerRoomWhitelist" in
      if contains room.whitelist target then nothing w else (w1, [], done)
  apply_member unwhitelist w acc room target a publish =
      let w1 = update_room w room.id (edit_whitelist (without target)) in
      let done = promote_demote_effect w1 room.id acc target "ServerRoomUnwhitelist" in
      if contains room.whitelist target then (w1, [], done) else nothing w
  apply_member _ w acc room target a publish = nothing w

  -- The target is not in the room: the lists alone change.
  unfoldable pub apply_offline :
      AdminAction → World → OnlineAccount → ChatRoom → MemberNumber → Outcome
  apply_offline ban w acc room target =
      let w1 = update_room w room.id (edit_ban (λ l. push l target)) in
      let done = props_effect w1 room.id acc.member_number in
      if contains room.ban target then nothing w else (w1, [], done)
  apply_offline unban w acc room target =
      let w1 = update_room w room.id (edit_ban (without target)) in
      let done = props_effect w1 room.id acc.member_number in
      if contains room.ban target then (w1, [], done) else nothing w
  apply_offline whitelist w acc room target =
      let w1 = update_room w room.id (edit_whitelist (λ l. push l target)) in
      let done = props_effect w1 room.id acc.member_number in
      if contains room.whitelist target then nothing w else (w1, [], done)
  apply_offline unwhitelist w acc room target =
      let w1 = update_room w room.id (edit_whitelist (without target)) in
      let done = props_effect w1 room.id acc.member_number in
      if contains room.whitelist target then (w1, [], done) else nothing w
  apply_offline _ w acc room target = nothing w

  unfoldable pub apply_member_or_offline :
      AdminAction → World → OnlineAccount → ChatRoom → MemberNumber → Bool → Outcome
  unfolding apply_member apply_offline
  apply_member_or_offline action w acc room target publish =
      elim (position (λ m. m == target) room.members) [
        | none ↦ apply_offline action w acc room target
        | some a ↦ apply_member action w acc room target a publish
      ]

  unfoldable pub apply_action :
      AdminAction → World → OnlineAccount → ChatRoom → MemberNumber → Value → Outcome
  unfolding apply_member_or_offline apply_swap apply_update
  apply_action update w acc room target d = apply_update P w acc room d
  apply_action swap_members w acc room target d =
      apply_swap w acc room (i64_field d "TargetMemberNumber")
        (i64_field d "DestinationMemberNumber")
  apply_action action w acc room target d =
      apply_member_or_offline action w acc room target (unwrap_or (bool_field d "Publish") false)

  -- An administrator of the room, aiming at another or moving himself.
  unfoldable pub administer :
      String
      → AdminAction
      → World
      → OnlineAccount
      → ChatRoom
      → MemberNumber
      → Value
      → World × List Emission
  unfolding apply_action
  administer sid action w acc room target d =
      let (w', sent, effects) = apply_action action w acc room target d in
      if not (contains room.admin acc.member_number)
      then (w, [])
      else if acc.member_number == target && not (on_self action)
      then (w, [])
      else (w', sent ++ emit_effects w' sid effects)

  unfoldable pub admin_in :
      String
      → AdminAction
      → World
      → OnlineAccount
      → Option ChatRoom
      → MemberNumber
      → Value
      → World × List Emission
  unfolding administer
  admin_in sid action w acc none target d = (w, [])
  admin_in sid action w acc (some room) target d = administer sid action w acc room target d

  abbrev pub current_room : World → OnlineAccount → Option ChatRoom
  current_room w acc = elim acc.chat_room_id [ none ↦ none | some rid ↦ get_room w rid ]

  unfoldable pub chat_room_admin : String → Value → World → World × List Emission
  unfolding admin_in action_of
  chat_room_admin sid d w = elim (str_field d "Action") [
    | none ↦ (w, [])
    | some action ↦ elim (i64_field d "MemberNumber") [
      | none ↦ (w, [])
      | some target ↦ elim (get_by_socket w sid) [
        | none ↦ (w, [])
        | some acc ↦ admin_in sid (action_of action) w acc (current_room w acc) target d
      ]
    ]
  ]
