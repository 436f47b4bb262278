-- ===== src/Room/Admin/Ban.antt =====
-- room/admin.rs: the action "Ban" on a member of the room.
use mathlib.Core.Path.{subst}
use bc_server_rust.Base.{
  ℕ, String, Bool, true, false, ◌≡◌, refl, ◌∙◌, ◌≢◌, Option, none, some, List, arith, is_empty,
  contains, contains-push, contains-without, if◌then◌else◌, ==_refl, int_eq, string_eq,
}
use bc_server_rust.Base.HashMap
use bc_server_rust.Base.HashMap.{get-adjust}
use bc_server_rust.Json.{Value}
use bc_server_rust.Protocol.{MemberNumber}
use bc_server_rust.State.Platform.{Platform}
use bc_server_rust.State.ChatRoom.{ChatRoom}
use bc_server_rust.State.Account.{OnlineAccount}
use bc_server_rust.State.World.{World, update_room}
use bc_server_rust.State.Consistency.{IsConsistent}
use bc_server_rust.Room.Leave.{leave_room_inner_reason, drop_member}
use bc_server_rust.Room.Leave.Tables.{left_rooms}
use bc_server_rust.Room.Join.{refusal}
use bc_server_rust.Room.Admin.{ban, edit_ban, push_new, throw_out, apply_member}
use bc_server_rust.Room.Admin.Changes.{lists-IsConsistent}

contains-push_new : (l : List MemberNumber) (m : MemberNumber) → contains (push_new m l) m ≡ true
contains-push_new l m = ground (arith, contains-push l m m, ==_refl m)

-- What is left of the room that a member leaves.
left_behind :
    (P : Platform) (w : World) (v : IsConsistent P w) (r : ChatRoom)
    → HashMap.get w.chat_rooms r.id ≡ some r
    → (target : MemberNumber) (reason : Option String) (dictionary : Option Value)
    → contains r.members target ≡ true
    → HashMap.get (leave_room_inner_reason P r.id target reason dictionary w).0.chat_rooms r.id
      ≡ (if is_empty (drop_member target r).members then none else some (drop_member target r))
unfolding leave_room_inner_reason
left_behind P w v r here target reason dictionary c =
    let (j, b, g, e, l) = v.present r.id r target here c in
    subst
      (λ m.
        HashMap.get (leave_room_inner_reason P r.id m reason dictionary w).0.chat_rooms r.id
        ≡ (if is_empty (drop_member m r).members then none else some (drop_member m r)))
      e (left_rooms P w v j r.id b r g here r.id ∙ ground (arith, ==_refl r.id))

module _ (P : Platform) (shuffled : List MemberNumber → List MemberNumber) (w : World)
    (v : IsConsistent P w) (acc : OnlineAccount) (r : ChatRoom)
    (here : HashMap.get w.chat_rooms r.id ≡ some r) (target : MemberNumber) (a : ℕ) (publish : Bool)
    (member : contains r.members target ≡ true) where
  with_ban : World
  with_ban = update_room w r.id (edit_ban (push_new target))

  abbrev pub banned : ChatRoom
  banned = edit_ban (push_new target) r

  banned_here : HashMap.get with_ban.chat_rooms r.id ≡ some banned
  unfolding with_ban
  banned_here =
      ground
        (arith, get-adjust w.chat_rooms r.id r.id (edit_ban (push_new target)), here, ==_refl r.id)

  with_ban-IsConsistent : IsConsistent P with_ban
  unfolding with_ban
  with_ban-IsConsistent =
      lists-IsConsistent P w v r here (edit_ban (push_new target)) refl refl refl refl

  pub banned_rooms :
      HashMap.get (apply_member P shuffled ban w acc r target a publish).0.chat_rooms r.id ≡ (
        if is_empty (drop_member target banned).members
        then none
        else some (drop_member target banned))
  unfolding apply_member throw_out with_ban
  banned_rooms =
      left_behind P with_ban with_ban-IsConsistent banned banned_here target (some "ServerBan") _
        member

  -- In a consistent world whoever is banned from a room, as a member of it, is no longer in what
  -- is left of the room, and it refuses every session with the member number.
  pub apply_member-ban :
      (x : ChatRoom) (again : OnlineAccount)
      → HashMap.get (apply_member P shuffled ban w acc r target a publish).0.chat_rooms r.id
        ≡ some x
      → again.member_number ≡ target
      → (contains x.members target ≡ false)
        × (contains x.ban target ≡ true)
        × (refusal again x ≢ none)
  unfolding refusal
  apply_member-ban x again g e = (
    ground (arith, is_left, contains-without r.members target target, ==_refl target),
    is_banned,
    λ h. ground (arith, is_banned),
  )
    where
      is_left : x ≡ drop_member target banned
      is_left = ground (arith, banned_rooms)

      is_banned : contains x.ban target ≡ true
      is_banned = ground (arith, is_left, contains-push_new r.ban target)
