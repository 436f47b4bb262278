-- ===== src/Room/Admin/Consistency.antt =====
-- room/admin.rs: the administration of a room keeps the tables consistent.
use bc_server_rust.Base.{
  ℤ, ℕ, zero, suc, ◌+◌, String, Bool, true, false, not, ◌&&◌, ◌≡◌, refl, Option, none, some, List,
  inl, inr, arith, contains, position, length, ltb, without, push, if◌then◌else◌, ◌==◌, ==_refl,
  int_eq, string_eq, Bool-cases, Option-cases, SameItems, SameItems-swap, swap,
}
use bc_server_rust.Base.HashMap
use bc_server_rust.Base.HashMap.{get-adjust}
use bc_server_rust.Json.{Value, str_field, i64_field, bool_field, unwrap_or}
use bc_server_rust.Protocol.{MemberNumber}
use bc_server_rust.State.Platform.{Platform}
use bc_server_rust.State.ChatRoom.{ChatRoom}
use bc_server_rust.State.Account.{OnlineAccount}
use bc_server_rust.State.World.{World, update_room}
use bc_server_rust.State.Consistency.{IsConsistent}
use bc_server_rust.Room.Admin.{
  AdminAction, ban, unban, kick, move_left, move_right, shuffle, promote, demote, whitelist,
  unwhitelist, swap_members, update, unknown, Outcome, action_of, on_self, edit_admin,
  edit_whitelist, edit_ban, push_new, apply_swap, apply_member, apply_offline,
  apply_member_or_offline, apply_action, administer, admin_in, current_room, chat_room_admin,
}
use bc_server_rust.Room.Admin.Rename.{apply_update-IsConsistent}
use bc_server_rust.Room.Admin.Changes.{
  lists-IsConsistent, members-IsConsistent, throw_out-IsConsistent, contains-position,
}

module _ (P : Platform) (shuffled : List MemberNumber → List MemberNumber)
    (keeps_items : (l : List MemberNumber) → SameItems (shuffled l) l) (w : World)
    (v : IsConsistent P w) (acc : OnlineAccount) (r : ChatRoom)
    (here : HashMap.get w.chat_rooms r.id ≡ some r) where
  apply_swap-IsConsistent : (t d : Option ℤ) → IsConsistent P (apply_swap w acc r t d).0
  unfolding apply_swap
  apply_swap-IsConsistent none d = v
  apply_swap-IsConsistent (some t) none = v
  apply_swap-IsConsistent (some t) (some d) = elim (Bool-cases (t == d)) [
    | inl e ↦ rw (e, apply_swap) v
    | inr e ↦ elim (Option-cases (position (λ m. m == t) r.members)) [
      | inl f ↦ rw (e, f, apply_swap) v
      | inr (i, f) ↦ elim (Option-cases (position (λ m. m == d) r.members)) [
        | inl g ↦ rw (e, f, g, apply_swap) v
        | inr (j, g) ↦
            rw (e, f, g, apply_swap)
              (members-IsConsistent P w v r here (λ l. swap l i j) (SameItems-swap r.members i j))
      ]
    ]
  ]

  abbrev published : Value → Bool
  published d = unwrap_or (bool_field d "Publish") false

  -- A consistent world, whichever way the test goes.
  either :
      (b : Bool) (x y : Outcome)
      → IsConsistent P x.0
      → IsConsistent P y.0
      → IsConsistent P (if b then x else y).0
  either true x y h k = h
  either false x y h k = k

  apply_member-IsConsistent :
      (action : AdminAction) (target : MemberNumber) (a : ℕ) (publish : Bool)
      → contains r.members target ≡ true
      → IsConsistent P (apply_member P shuffled action w acc r target a publish).0
  unfolding apply_member
  apply_member-IsConsistent ban target a publish c =
      throw_out-IsConsistent P (update_room w r.id (edit_ban (push_new target)))
        (lists-IsConsistent P w v r here (edit_ban (push_new target)) refl refl refl refl)
        (edit_ban (push_new target) r)
        (ground (
          arith,
          get-adjust w.chat_rooms r.id r.id (edit_ban (push_new target)),
          here,
          ==_refl r.id,
        ))
        shuffled acc target "RoomBanned" "ServerBan" c
  apply_member-IsConsistent kick target a publish c =
      throw_out-IsConsistent P w v r here shuffled acc target "RoomKicked" "ServerKick" c
  apply_member-IsConsistent move_left target zero publish c = v
  apply_member-IsConsistent move_left target (suc a) publish c =
      members-IsConsistent P w v r here (λ l. swap l (suc a) a) (SameItems-swap r.members (suc a) a)
  apply_member-IsConsistent move_right target a publish c =
      either (ltb (a + 1) (length r.members)) _ _
        (members-IsConsistent P w v r here (λ l. swap l a (suc a))
          (SameItems-swap r.members a (suc a)))
        v
  apply_member-IsConsistent shuffle target a publish c =
      members-IsConsistent P w v r here shuffled (keeps_items r.members)
  apply_member-IsConsistent promote target a publish c =
      either (contains r.admin target) _ _ v
        (lists-IsConsistent P w v r here (edit_admin (λ l. push l target)) refl refl refl refl)
  apply_member-IsConsistent demote target a publish c =
      either (contains r.admin target) _ _
        (lists-IsConsistent P w v r here (edit_admin (without target)) refl refl refl refl) v
  apply_member-IsConsistent whitelist target a publish c =
      either (contains r.whitelist target) _ _ v
        (lists-IsConsistent P w v r here (edit_whitelist (λ l. push l target)) refl refl refl refl)
  apply_member-IsConsistent unwhitelist target a publish c =
      either (contains r.whitelist target) _ _
        (lists-IsConsistent P w v r here (edit_whitelist (without target)) refl refl refl refl) v
  apply_member-IsConsistent unban target a publish c = v
  apply_member-IsConsistent swap_members target a publish c = v
  apply_member-IsConsistent update target a publish c = v
  apply_member-IsConsistent unknown target a publish c = v

  apply_offline-IsConsistent :
      (action : AdminAction) (target : MemberNumber)
      → IsConsistent P (apply_offline P shuffled action w acc r target).0
  unfolding apply_offline
  apply_offline-IsConsistent ban target =
      either (contains r.ban target) _ _ v
        (lists-IsConsistent P w v r here (edit_ban (λ l. push l target)) refl refl refl refl)
  apply_offline-IsConsistent unban target =
      either (contains r.ban target) _ _
        (lists-IsConsistent P w v r here (edit_ban (without target)) refl refl refl refl) v
  apply_offline-IsConsistent whitelist target =
      either (contains r.whitelist target) _ _ v
        (lists-IsConsistent P w v r here (edit_whitelist (λ l. push l target)) refl refl refl refl)
  apply_offline-IsConsistent unwhitelist target =
      either (contains r.whitelist target) _ _
        (lists-IsConsistent P w v r here (edit_whitelist (without target)) refl refl refl refl) v
  apply_offline-IsConsistent kick target = v
  apply_offline-IsConsistent move_left target = v
  apply_offline-IsConsistent move_right target = v
  apply_offline-IsConsistent shuffle target = v
  apply_offline-IsConsistent promote target = v
  apply_offline-IsConsistent demote target = v
  apply_offline-IsConsistent swap_members target = v
  apply_offline-IsConsistent update target = v
  apply_offline-IsConsistent unknown target = v

  apply_member_or_offline-IsConsistent :
      (action : AdminAction) (target : MemberNumber) (publish : Bool)
      → IsConsistent P (apply_member_or_offline P shuffled action w acc r target publish).0
  unfolding apply_member_or_offline
  apply_member_or_offline-IsConsistent action target publish =
      elim (Option-cases (position (λ m. m == target) r.members)) [
        | inl e ↦ rw (e, apply_member_or_offline) (apply_offline-IsConsistent action target)
        | inr (a, e) ↦
            rw (e, apply_member_or_offline)
              (apply_member-IsConsistent action target a publish
                (contains-position r.members target a e))
      ]

  apply_action-IsConsistent :
      (action : AdminAction) (target : MemberNumber) (d : Value)
      → IsConsistent P (apply_action P shuffled action w acc r target d).0
  unfolding apply_action
  apply_action-IsConsistent update target d = apply_update-IsConsistent P w acc r d v here
  apply_action-IsConsistent swap_members target d =
      apply_swap-IsConsistent (i64_field d "TargetMemberNumber")
        (i64_field d "DestinationMemberNumber")
  apply_action-IsConsistent ban target d =
      apply_member_or_offline-IsConsistent ban target (published d)
  apply_action-IsConsistent unban target d =
      apply_member_or_offline-IsConsistent unban target (published d)
  apply_action-IsConsistent kick target d =
      apply_member_or_offline-IsConsistent kick target (published d)
  apply_action-IsConsistent move_left target d =
      apply_member_or_offline-IsConsistent move_left target (published d)
  apply_action-IsConsistent move_right target d =
      apply_member_or_offline-IsConsistent move_right target (published d)
  apply_action-IsConsistent shuffle target d =
      apply_member_or_offline-IsConsistent shuffle target (published d)
  apply_action-IsConsistent promote target d =
      apply_member_or_offline-IsConsistent promote target (published d)
  apply_action-IsConsistent demote target d =
      apply_member_or_offline-IsConsistent demote target (published d)
  apply_action-IsConsistent whitelist target d =
      apply_member_or_offline-IsConsistent whitelist target (published d)
  apply_action-IsConsistent unwhitelist target d =
      apply_member_or_offline-IsConsistent unwhitelist target (published d)
  apply_action-IsConsistent unknown target d =
      apply_member_or_offline-IsConsistent unknown target (published d)

  administer-IsConsistent :
      (sid : String) (action : AdminAction) (target : MemberNumber) (d : Value)
      → IsConsistent P (administer P shuffled sid action w acc r target d).0
  unfolding administer
  administer-IsConsistent sid action target d =
      elim (Bool-cases (contains r.admin acc.member_number)) [
        | inr e ↦ rw (e, administer) v
        | inl e ↦ elim (Bool-cases (acc.member_number == target && not (on_self action))) [
          | inl f ↦ rw (e, f, administer) v
          | inr f ↦ rw (e, f, administer) (apply_action-IsConsistent action target d)
        ]
      ]

-- An administration keeps the world consistent, whatever the payload and whoever sends it, if the
-- shuffle returns the items that it is given.
pub chat_room_admin-IsConsistent :
    (P : Platform) (shuffled : List MemberNumber → List MemberNumber) (w : World) (sid : String)
    (d : Value)
    → ((l : List MemberNumber) → SameItems (shuffled l) l)
    → IsConsistent P w
    → IsConsistent P (chat_room_admin P shuffled sid d w).0
unfolding chat_room_admin admin_in
chat_room_admin-IsConsistent P shuffled w sid d keeps_items v =
    elim (Option-cases (str_field d "Action")) [
      | inl e ↦ rw (e, chat_room_admin) v
      | inr (action, e) ↦ elim (Option-cases (i64_field d "MemberNumber")) [
        | inl f ↦ rw (e, f, chat_room_admin) v
        | inr (target, f) ↦ elim (Option-cases (HashMap.get w.accounts_by_socket sid)) [
          | inl g ↦ rw (e, f, g, chat_room_admin) v
          | inr (acc, g) ↦ elim (Option-cases (current_room P shuffled w acc)) [
            | inl h ↦ rw (e, f, g, h, chat_room_admin, admin_in) v
            | inr (r, h) ↦
                rw (e, f, g, h, chat_room_admin, admin_in)
                  (administer-IsConsistent P shuffled keeps_items w v acc r (current acc r h) sid
                    (action_of action) target d)
          ]
        ]
      ]
    ]
  where
    current :
        (acc : OnlineAccount) (r : ChatRoom)
        → current_room P shuffled w acc ≡ some r
        → HashMap.get w.chat_rooms r.id ≡ some r
    current acc r h = elim (Option-cases acc.chat_room_id) [
      | inl e ↦ absurd (ground (arith, e))
      | inr (rid, e) ↦ ground (arith, e, v.room rid r)
    ]
