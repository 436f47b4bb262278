-- ===== src/Room/Admin/Guard.antt =====
-- room/admin.rs: a room is administered by its administrators only.
use bc_server_rust.Base.{
  String, true, false, ◌≡◌, refl, ◌≢◌, some, List, [], inl, inr, contains, ◌==◌, not, ◌&&◌, int_eq,
  string_eq, Bool-cases, Option-cases,
}
use bc_server_rust.Base.HashMap
use bc_server_rust.Json.{Value, str_field, i64_field}
use bc_server_rust.Protocol.{MemberNumber}
use bc_server_rust.State.Platform.{Platform}
use bc_server_rust.State.ChatRoom.{ChatRoom}
use bc_server_rust.State.Account.{OnlineAccount}
use bc_server_rust.State.World.{World}
use bc_server_rust.Room.Admin.{
  action_of, on_self, administer, admin_in, current_room, chat_room_admin,
}

-- The socket has a session in a room that it administers, and the payload an action and a target, who
-- is another or is moved or swapped.
pub IsAuthorized :
    (P : Platform) → (List MemberNumber → List MemberNumber) → World → String → Value → Type 0
IsAuthorized P shuffled w sid d =
    (acc : OnlineAccount) × (r : ChatRoom) × (action : String) × (target : MemberNumber)
    × (HashMap.get w.accounts_by_socket sid ≡ some acc)
    × (current_room P shuffled w acc ≡ some r)
    × (str_field d "Action" ≡ some action)
    × (i64_field d "MemberNumber" ≡ some target)
    × (contains r.admin acc.member_number ≡ true)
    × ((acc.member_number == target && not (on_self (action_of action))) ≡ false)

-- If an administration changes the world or sends anything, then the socket has a session in a room
-- that it administers, and the payload an action and a target; an administrator who aims at himself
-- moves or swaps.
pub chat_room_admin_lem :
    (P : Platform) (shuffled : List MemberNumber → List MemberNumber) (w : World) (sid : String)
    (d : Value)
    → chat_room_admin P shuffled sid d w ≢ (w, [])
    → IsAuthorized P shuffled w sid d
unfolding chat_room_admin admin_in administer IsAuthorized
chat_room_admin_lem P shuffled w sid d acted = elim (Option-cases (str_field d "Action")) [
  | inl e ↦ absurd (acted (rw (e, chat_room_admin) refl))
  | inr (action, e) ↦ elim (Option-cases (i64_field d "MemberNumber")) [
    | inl f ↦ absurd (acted (rw (e, f, chat_room_admin) refl))
    | inr (target, f) ↦ elim (Option-cases (HashMap.get w.accounts_by_socket sid)) [
      | inl g ↦ absurd (acted (rw (e, f, g, chat_room_admin) refl))
      | inr (acc, g) ↦ elim (Option-cases (current_room P shuffled w acc)) [
        | inl h ↦ absurd (acted (rw (e, f, g, h, chat_room_admin, admin_in) refl))
        | inr (r, h) ↦ elim (Bool-cases (contains r.admin acc.member_number)) [
          | inr i ↦ absurd (acted (rw (e, f, g, h, i, chat_room_admin, admin_in, administer) refl))
          | inl i ↦
              elim (Bool-cases (acc.member_number == target && not (on_self (action_of action)))) [
                | inl j ↦
                    absurd
                      (acted (rw (e, f, g, h, i, j, chat_room_admin, admin_in, administer) refl))
                | inr j ↦ (acc, r, action, target, g, h, e, f, i, j)
              ]
        ]
      ]
    ]
  ]
]
