-- ===== src/Room/Leave/Tables.antt =====
-- room/mod.rs: the tables after a member has left a room.
use bc_server_rust.Base.{
  String, true, ◌&&◌, ◌≡◌, refl, none, some, arith, is_empty, if◌then◌else◌, ◌==◌, ==_iff, ==_refl,
  int_eq, string_eq,
}
use bc_server_rust.Base.HashMap
use bc_server_rust.Base.HashMap.{get-adjust, get-remove, get-adjust_first, map_option}
use bc_server_rust.State.Platform.{Platform}
use bc_server_rust.State.ChatRoom.{ChatRoom}
use bc_server_rust.State.Account.{OnlineAccount}
use bc_server_rust.State.World.{World, room_key, remove_room}
use bc_server_rust.State.Consistency.{IsConsistent}
use bc_server_rust.Room.Leave.{detach, close_if_empty, drop_member, leave_chat}

-- A session in a room of a consistent world.
module _ (P : Platform) (w : World) (v : IsConsistent P w) (sid rid : String) (a : OnlineAccount)
    (r : ChatRoom) (online : HashMap.get w.accounts_by_socket sid ≡ some a)
    (open_room : HashMap.get w.chat_rooms rid ≡ some r) where
  abbrev left : World
  left = close_if_empty P (detach w rid a.member_number) rid

  abbrev remaining : ChatRoom
  remaining = drop_member a.member_number r

  -- One session has the member number.
  only :
      (j : String) (b : OnlineAccount)
      → HashMap.get w.accounts_by_socket j ≡ some b
      → (b.member_number == a.member_number) ≡ true
      → j ≡ sid
  only j b g e = cc (
    (v.session j b g).1,
    (v.session sid a online).1,
    (==_iff b.member_number a.member_number).0 e,
  )

  detach_accounts :
      (j : String)
      → HashMap.get (detach w rid a.member_number).accounts_by_socket j
        ≡ (if sid == j then some (leave_chat a) else HashMap.get w.accounts_by_socket j)
  unfolding detach
  detach_accounts j =
      get-adjust_first (λ b. b.member_number == a.member_number) leave_chat w.accounts_by_socket sid
        j a v.keyed online (==_refl a.member_number) only

  detach_rooms :
      (j : String)
      → HashMap.get (detach w rid a.member_number).chat_rooms j
        ≡ (if rid == j then some remaining else HashMap.get w.chat_rooms j)
  unfolding detach
  detach_rooms j =
      ground (
        arith,
        get-adjust w.chat_rooms rid j (drop_member a.member_number),
        ==_iff rid j,
        open_room,
      )

  pub left_accounts :
      (j : String)
      → HashMap.get left.accounts_by_socket j
        ≡ (if sid == j then some (leave_chat a) else HashMap.get w.accounts_by_socket j)
  unfolding close_if_empty remove_room
  left_accounts j = ground (arith, detach_accounts j)

  pub left_rooms :
      (j : String)
      → HashMap.get left.chat_rooms j ≡ (
          if rid == j
          then (if is_empty remaining.members then none else some remaining)
          else HashMap.get w.chat_rooms j)
  unfolding close_if_empty remove_room
  left_rooms j = ground (
    arith,
    detach_rooms j,
    detach_rooms rid,
    ==_refl rid,
    get-remove (detach w rid a.member_number).chat_rooms rid j,
  )

  pub left_members : left.socket_by_member ≡ w.socket_by_member
  unfolding close_if_empty remove_room detach
  left_members = ground arith

  detach_names : (detach w rid a.member_number).room_by_name_env ≡ w.room_by_name_env
  unfolding detach
  detach_names = refl

  pub left_names :
      (j : String)
      → HashMap.get left.room_by_name_env j ≡ (
          if is_empty remaining.members && room_key P r.environment r.name == j
          then none
          else HashMap.get w.room_by_name_env j)
  unfolding close_if_empty remove_room
  left_names j = ground (
    arith,
    detach_rooms rid,
    ==_refl rid,
    detach_names,
    get-remove (detach w rid a.member_number).room_by_name_env (room_key P r.environment r.name) j,
  )
