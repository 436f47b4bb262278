-- ===== src/Disconnect/Consistency.antt =====
-- handlers.rs: the end of a session keeps the tables consistent.
use mathlib.Core.Path.{subst}
use bc_server_rust.Base.{
  ℤ, String, false, ◌≡◌, refl, sym, ap, ◌∙◌, Option, none, some, List, inl, inr, arith, contains,
  length, leb, ==_refl, int_eq, string_eq, Bool-cases, Option-cases,
}
use bc_server_rust.Base.HashMap
use bc_server_rust.Base.HashMap.{HashMap, get-adjust}
use bc_server_rust.Limits.{on_ip_disconnect}
use bc_server_rust.State.Platform.{Platform}
use bc_server_rust.State.ChatRoom.{ChatRoom}
use bc_server_rust.State.Account.{OnlineAccount}
use bc_server_rust.State.World.{World, PrisonSectorSession, remove_account, update_account}
use bc_server_rust.State.Consistency.{IsConsistent}
use bc_server_rust.Room.Leave.{leave_room_on_disconnect, leave_chat}
use bc_server_rust.Room.Leave.Consistency.{Left, leave_room_inner_reason-IsConsistent}
use bc_server_rust.Chat.Consistency.{update_account-IsConsistent}
use bc_server_rust.Disconnect.{
  clear_delayed, take_delayed, leave_with, leave_on_disconnect, depart, on_disconnect_cleanup,
}
use bc_server_rust.Disconnect.Removal.{
  removed_accounts, removed_members, removed_names, removed_pending, no_sector, nowhere,
  remove_account-IsConsistent,
}

-- No table of the invariant is touched.
others-IsConsistent :
    (P : Platform) (w : World) (m : HashMap String (List ℤ)) (l : List String)
    → IsConsistent P w
    → IsConsistent P (record w { ip_connections = m; login_pending = l })
others-IsConsistent P w m l v = record {
  keyed = v.keyed;
  session = v.session;
  located = v.located;
  present = v.present;
  room = v.room;
  unique = v.unique;
}

-- The end of a connection is counted, and nothing else.
world-on_ip_disconnect :
    (w : World) (ip : String)
    → on_ip_disconnect w ip ≡ (record w { ip_connections = (on_ip_disconnect w ip).ip_connections })
unfolding on_ip_disconnect
world-on_ip_disconnect w ip = elim (Option-cases (HashMap.get w.ip_connections ip)) [
  | inl e ↦ rw (e, on_ip_disconnect) refl
  | inr (b, e) ↦ elim (Bool-cases (leb (length b) 1)) [
    | inl h ↦ rw (e, h, on_ip_disconnect) refl
    | inr h ↦ rw (e, h, on_ip_disconnect) refl
  ]
]

pub leave_with-Left :
    (P : Platform) (w : World) (sid : String) (a : OnlineAccount) (o : Option String)
    → a.chat_room_id ≡ o
    → IsConsistent P w
    → HashMap.get w.accounts_by_socket sid ≡ some a
    → Left P w sid a (leave_with P a.member_number o w).0
unfolding leave_room_on_disconnect
leave_with-Left P w sid a none e v g = record {
  consistent = v;
  free = g ∙ ap some (λ i. record a { chat_room_id = e i });
  before = λ q x h. (x, h, refl);
  kept = λ q ne. refl;
}
leave_with-Left P w sid a (some rid) e v g =
    leave_room_inner_reason-IsConsistent P w sid rid a (some "ServerDisconnect") none v g e

-- What is known of a world in which the session of an account has ended: its tables are consistent;
-- the socket, the member number and the account name lead to no session, nor does the socket wait for
-- a login; and no room and no prison sector has the member.
pub record IsGone (P : Platform) (sid : String) (a : OnlineAccount) (w : World) : Type 0 where
  pub consistent : IsConsistent P w
  pub socket : HashMap.get w.accounts_by_socket sid ≡ none
  pub number : HashMap.get w.socket_by_member a.member_number ≡ none
  pub name : HashMap.get w.socket_by_account_name a.account_name ≡ none
  pub waiting : contains w.login_pending sid ≡ false
  pub nowhere :
      (q : String) (x : ChatRoom)
      → HashMap.get w.chat_rooms q ≡ some x
      → contains x.members a.member_number ≡ false
  pub free :
      (k : String) (s : PrisonSectorSession)
      → HashMap.get w.prison_sector_sessions k ≡ some s
      → contains s.members a.member_number ≡ false

remove_account-IsGone :
    (P : Platform) (w u : World) (sid : String) (a : OnlineAccount)
    → Left P w sid a u
    → IsGone P sid a (remove_account u sid).0
remove_account-IsGone P w u sid a left = record {
  consistent = remove_account-IsConsistent P u left.consistent sid (leave_chat a) left.free refl;
  socket =
      removed_accounts P u left.consistent sid (leave_chat a) left.free refl sid
      ∙ ground (arith, ==_refl sid);
  number =
      removed_members P u left.consistent sid (leave_chat a) left.free refl a.member_number
      ∙ ground (arith, ==_refl a.member_number);
  name =
      removed_names P u left.consistent sid (leave_chat a) left.free refl a.account_name
      ∙ ground (arith, ==_refl a.account_name);
  waiting = removed_pending P u left.consistent sid (leave_chat a) left.free refl;
  nowhere = nowhere P u left.consistent sid (leave_chat a) left.free refl;
  free = no_sector P u left.consistent sid (leave_chat a) left.free refl;
}

on_ip_disconnect-IsGone :
    (P : Platform) (w : World) (sid ip : String) (a : OnlineAccount)
    → IsGone P sid a w
    → IsGone P sid a (on_ip_disconnect w ip)
on_ip_disconnect-IsGone P w sid ip a g =
    subst (IsGone P sid a) (sym (world-on_ip_disconnect w ip)) (record {
      consistent =
          others-IsConsistent P w (on_ip_disconnect w ip).ip_connections w.login_pending
            g.consistent;
      socket = g.socket;
      number = g.number;
      name = g.name;
      waiting = g.waiting;
      nowhere = g.nowhere;
      free = g.free;
    })

-- The second half of a cleanup ends the session of the socket.
pub depart-IsGone :
    (P : Platform) (w : World) (sid ip : String) (a : OnlineAccount)
    → IsConsistent P w
    → HashMap.get w.accounts_by_socket sid ≡ some a
    → IsGone P sid a (depart P sid ip w).0
unfolding depart leave_on_disconnect
depart-IsGone P w sid ip a v g =
    on_ip_disconnect-IsGone P (remove_account (leave_on_disconnect P sid w).0 sid).0 sid ip a (
      remove_account-IsGone P w (leave_on_disconnect P sid w).0 sid a
        (subst (Left P w sid a) (sym world) (leave_with-Left P w sid a a.chat_room_id refl v g)))
  where
    world : (leave_on_disconnect P sid w).0 ≡ (leave_with P a.member_number a.chat_room_id w).0
    world = rw (g, leave_on_disconnect) refl

-- The cleanup of an online session, in a consistent world, ends the session: the world is consistent
-- then; the socket, the member number and the account name lead to no session, the socket waits for no
-- login, and neither a room nor a prison sector has the member.
pub on_disconnect_cleanup-IsGone :
    (P : Platform) (w : World) (sid ip : String) (a : OnlineAccount)
    → IsConsistent P w
    → HashMap.get w.accounts_by_socket sid ≡ some a
    → IsGone P sid a (on_disconnect_cleanup P sid ip w).0
unfolding on_disconnect_cleanup take_delayed
on_disconnect_cleanup-IsGone P w sid ip a v g =
    subst (λ (u : World). IsGone P sid a (depart P sid ip u).0) (sym world)
      (kept (
        depart-IsGone P (update_account w sid clear_delayed) sid ip (clear_delayed a)
          (update_account-IsConsistent P w v sid clear_delayed (record {
            socket = λ a. refl;
            number = λ a. refl;
            environment = λ a. refl;
            chat_room = λ a. refl;
          }))
          (ground (arith, get-adjust w.accounts_by_socket sid sid clear_delayed, g, ==_refl sid))))
  where
    -- The account that is written first has the same number and name.
    kept : {u : World} → IsGone P sid (clear_delayed a) u → IsGone P sid a u
    kept r = record {
      consistent = r.consistent;
      socket = r.socket;
      number = r.number;
      name = r.name;
      waiting = r.waiting;
      nowhere = r.nowhere;
      free = r.free;
    }

    world : (take_delayed sid w).0 ≡ update_account w sid clear_delayed
    world = rw (g, take_delayed) refl
