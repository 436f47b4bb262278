-- ===== src/Auth/Login/Consistency.antt =====
-- auth/login.rs: a login keeps the tables consistent.
use mathlib.Core.Path.{subst}
use bc_server_rust.Base.{
  String, ◌≡◌, refl, sym, Option, none, some, inl, inr, ℤ, is_empty, IsDistinct, int_eq, string_eq,
  Bool-cases, Option-cases,
}
use bc_server_rust.Base.HashMap
use bc_server_rust.Base.HashMap.{keys, keys-adjust, IsDistinct-remove}
use bc_server_rust.Protocol.{MemberNumber}
use bc_server_rust.State.Platform.{Platform}
use bc_server_rust.State.World.{World, remove_account, remove_room}
use bc_server_rust.State.Consistency.{IsConsistent}
use bc_server_rust.Room.Leave.{
  leave_room_inner_reason, leave_room_on_disconnect, detach, close_if_empty, leave_chat,
}
use bc_server_rust.Disconnect.{leave_on_disconnect, leave_with}
use bc_server_rust.Disconnect.Consistency.{leave_with-Left}
use bc_server_rust.Disconnect.Removal.{remove_account-IsConsistent}
use bc_server_rust.Auth.{Bcrypt}
use bc_server_rust.Auth.Login.{kick, kick_duplicate}

-- The tables are consistent, and no two rooms have one id.
pub record IsOrdered (P : Platform) (w : World) : Type 0 where
  pub consistent : IsConsistent P w
  pub rooms : IsDistinct (keys w.chat_rooms)

module _ (P : Platform) where
  closed_rooms :
      (w : World) (id : String)
      → IsDistinct (keys w.chat_rooms)
      → IsDistinct (keys (close_if_empty P w id).chat_rooms)
  unfolding close_if_empty remove_room
  closed_rooms w id d = elim (Option-cases (HashMap.get w.chat_rooms id)) [
    | inl e ↦ rw (e, close_if_empty) d
    | inr (r, e) ↦ elim (Bool-cases (is_empty r.members)) [
      | inl h ↦ rw (e, h, close_if_empty, e, remove_room) (IsDistinct-remove w.chat_rooms id d)
      | inr h ↦ rw (e, h, close_if_empty) d
    ]
  ]

  left_rooms :
      (m : MemberNumber) (o : Option String) (w : World)
      → IsDistinct (keys w.chat_rooms)
      → IsDistinct (keys (leave_with P m o w).0.chat_rooms)
  unfolding leave_room_on_disconnect leave_room_inner_reason detach
  left_rooms m none w d = d
  left_rooms m (some rid) w d = closed_rooms (detach w rid m) rid (rw keys-adjust d)

  removed_rooms : (sid : String) (w : World) → (remove_account w sid).0.chat_rooms ≡ w.chat_rooms
  unfolding remove_account
  removed_rooms sid w = elim (Option-cases (HashMap.get w.accounts_by_socket sid)) [
    | inl e ↦ rw (e, remove_account) refl
    | inr (a, e) ↦ rw (e, remove_account) refl
  ]

  removed_nobody :
      (sid : String) (w : World)
      → IsConsistent P w
      → HashMap.get w.accounts_by_socket sid ≡ none
      → IsConsistent P (remove_account w sid).0
  unfolding remove_account
  removed_nobody sid w v e =
      rw (e, remove_account)
        (record {
          keyed = v.keyed;
          session = v.session;
          located = v.located;
          present = v.present;
          room = v.room;
          unique = v.unique;
        })

  kick-IsOrdered :
      (B : Bcrypt) (sid : String) (now : ℤ) (old : String) (w : World)
      → IsOrdered P w
      → IsOrdered P (kick P B sid now old w).0
  unfolding kick leave_on_disconnect
  kick-IsOrdered B sid now old w v = elim (Option-cases (HashMap.get w.accounts_by_socket old)) [
    | inl e ↦
        let same : (leave_on_disconnect P old w).0 ≡ w = rw (e, leave_on_disconnect) refl in
        subst (λ u. IsOrdered P (remove_account u old).0) (sym same)
          (record {
            consistent = removed_nobody old w v.consistent e;
            rooms = rw (removed_rooms old w) v.rooms;
          })
    | inr (a, e) ↦
        let same : (leave_on_disconnect P old w).0
            ≡ (leave_with P a.member_number a.chat_room_id w).0 =
          rw (e, leave_on_disconnect) refl in
        let left = leave_with-Left P w old a a.chat_room_id refl v.consistent e in
        subst (λ u. IsOrdered P (remove_account u old).0) (sym same)
          (record {
            consistent =
                remove_account-IsConsistent P (leave_with P a.member_number a.chat_room_id w).0
                  left.consistent old (leave_chat a) left.free refl;
            rooms =
                rw (removed_rooms old (leave_with P a.member_number a.chat_room_id w).0)
                  (left_rooms a.member_number a.chat_room_id w v.rooms);
          })
  ]

  pub kick_duplicate-IsOrdered :
      (B : Bcrypt) (sid : String) (now : ℤ) (name : String) (w : World)
      → IsOrdered P w
      → IsOrdered P (kick_duplicate P B sid now name w).0
  unfolding kick_duplicate
  kick_duplicate-IsOrdered B sid now name w v =
      elim (Option-cases (HashMap.get w.socket_by_account_name name)) [
        | inl e ↦ rw (e, kick_duplicate) v
        | inr (old, e) ↦ rw (e, kick_duplicate) (kick-IsOrdered B sid now old w v)
      ]
