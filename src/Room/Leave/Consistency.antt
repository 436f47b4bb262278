-- ===== src/Room/Leave/Consistency.antt =====
-- room/mod.rs: leaving a room keeps the tables consistent.
use bc_server_rust.Base.{
  String, true, false, ◌≡◌, refl, sym, ap, ◌∙◌, ◌≢◌, Option, none, some, inl, inr, arith, contains,
  without, is_empty, IsDistinct, if◌then◌else◌, ◌==◌, ==_iff, ==_refl, ==_ne, int_eq, string_eq,
  Bool-cases, Option-cases, contains-without, IsDistinct-without, contains→not_empty,
}
use bc_server_rust.Base.HashMap
use bc_server_rust.Base.HashMap.{keys, keys-adjust_first}
use bc_server_rust.Json.{Value}
use bc_server_rust.Protocol.{MemberNumber}
use bc_server_rust.State.Platform.{Platform}
use bc_server_rust.State.ChatRoom.{ChatRoom}
use bc_server_rust.State.Account.{OnlineAccount}
use bc_server_rust.State.World.{World, room_key, remove_room}
use bc_server_rust.State.Consistency.{IsConsistent, colon_free}
use bc_server_rust.Room.Leave.{
  detach, close_if_empty, drop_member, leave_chat, leave_room_inner_reason, leave_room_inner,
  leave_at, leave_current, chat_room_leave,
}
use bc_server_rust.Room.Leave.Tables.{left_accounts, left_rooms, left_members, left_names}

module _ (P : Platform) (w : World) (v : IsConsistent P w) (sid rid : String) (a : OnlineAccount)
    (r : ChatRoom) (online : HashMap.get w.accounts_by_socket sid ≡ some a)
    (inside : a.chat_room_id ≡ some rid) (open_room : HashMap.get w.chat_rooms rid ≡ some r) where
  abbrev after : World
  after = close_if_empty P (detach w rid a.member_number) rid

  abbrev accounts :
      (j : String)
      → HashMap.get after.accounts_by_socket j
        ≡ (if sid == j then some (leave_chat a) else HashMap.get w.accounts_by_socket j)
  accounts = left_accounts P w v sid rid a r online open_room

  abbrev rooms :
      (j : String)
      → HashMap.get after.chat_rooms j ≡ (
          if rid == j
          then (if is_empty (drop_member a.member_number r).members
              then none
              else some (drop_member a.member_number r))
          else HashMap.get w.chat_rooms j)
  rooms = left_rooms P w v sid rid a r online open_room

  keyed : IsDistinct (keys after.accounts_by_socket)
  unfolding close_if_empty remove_room detach
  keyed = ground (
    arith,
    v.keyed,
    keys-adjust_first (λ (b : OnlineAccount). b.member_number == a.member_number) leave_chat
        w.accounts_by_socket,
  )

  session :
      (j : String) (b : OnlineAccount)
      → HashMap.get after.accounts_by_socket j ≡ some b
      → (b.socket_id ≡ j)
        × (HashMap.get after.socket_by_member b.member_number ≡ some j)
        × (colon_free b.environment ≡ true)
  session j b g = ground (
    arith,
    accounts j,
    v.session sid a online,
    v.session j b,
    ==_iff sid j,
    left_members P w v sid rid a r online open_room,
  )

  -- The session that stays has another member number.
  other :
      (j : String) (b : OnlineAccount)
      → HashMap.get w.accounts_by_socket j ≡ some b
      → (sid == j) ≡ false
      → (b.member_number == a.member_number) ≡ false
  other j b g h = ground (
    arith,
    v.session sid a online,
    v.session j b g,
    ==_iff sid j,
    ==_iff b.member_number a.member_number,
  )

  located :
      (j : String) (b : OnlineAccount) (q : String)
      → HashMap.get after.accounts_by_socket j ≡ some b
      → b.chat_room_id ≡ some q
      → (x : ChatRoom) × (HashMap.get after.chat_rooms q ≡ some x)
        × (contains x.members b.member_number ≡ true)
  located j b q g l = elim (Bool-cases (sid == j)) [
    | inl e ↦ absurd (ground (arith, accounts j))
    | inr e ↦
        let (x, gx, c) = v.located j b q (ground (arith, accounts j)) l in
        elim (Bool-cases (rid == q)) [
          | inl f ↦ (
            drop_member a.member_number r,
            ground (
              arith,
              rooms q,
              here j b q g l e f x gx c,
              contains→not_empty (without a.member_number r.members) b.member_number,
            ),
            here j b q g l e f x gx c,
          )
          | inr f ↦ (x, ground (arith, rooms q), c)
        ]
  ]
    where
      here :
          (j : String) (b : OnlineAccount) (q : String)
          → HashMap.get after.accounts_by_socket j ≡ some b
          → b.chat_room_id ≡ some q
          → (sid == j) ≡ false
          → (rid == q) ≡ true
          → (x : ChatRoom) → HashMap.get w.chat_rooms q ≡ some x
          → contains x.members b.member_number ≡ true
          → contains (without a.member_number r.members) b.member_number ≡ true
      here j b q g l e f x gx c = ground (
        arith,
        accounts j,
        open_room,
        ==_iff rid q,
        contains-without r.members a.member_number b.member_number,
        other j b (ground (arith, accounts j)) e,
      )

  -- Who is in the room that was left, was in it before, and is another.
  stayed :
      (q : String) (x : ChatRoom) (m : MemberNumber)
      → HashMap.get after.chat_rooms q ≡ some x
      → contains x.members m ≡ true
      → (rid == q) ≡ true
      → (contains r.members m ≡ true) × ((m == a.member_number) ≡ false)
  stayed q x m g c f = ground (arith, rooms q, contains-without r.members a.member_number m)

  present :
      (q : String) (x : ChatRoom) (m : MemberNumber)
      → HashMap.get after.chat_rooms q ≡ some x
      → contains x.members m ≡ true
      → (j : String) × (b : OnlineAccount) × (HashMap.get after.accounts_by_socket j ≡ some b)
        × (b.member_number ≡ m)
        × (b.chat_room_id ≡ some q)
  present q x m g c = elim (Bool-cases (rid == q)) [
    | inl f ↦
        let (j, b, gb, eb, lb) = v.present rid r m open_room (stayed q x m g c f).0 in
        (
          j,
          b,
          ground (arith, accounts j, stayed q x m g c f, ==_iff sid j, ==_iff m a.member_number),
          eb,
          ground (arith, ==_iff rid q),
        )
    | inr f ↦
        let (j, b, gb, eb, lb) = v.present q x m (ground (arith, rooms q)) c in
        (j, b, ground (arith, accounts j, ==_iff sid j, ==_iff rid q), eb, lb)
  ]

  room :
      (q : String) (x : ChatRoom)
      → HashMap.get after.chat_rooms q ≡ some x
      → (x.id ≡ q)
        × (HashMap.get after.room_by_name_env (room_key P x.environment x.name) ≡ some q)
        × IsDistinct x.members
        × (is_empty x.members ≡ false)
        × (colon_free x.environment ≡ true)
  room q x g = elim (Bool-cases (rid == q)) [
    | inl f ↦ ground (
      arith,
      rooms q,
      v.room rid r open_room,
      ==_iff rid q,
      IsDistinct-without r.members a.member_number,
      left_names P w v sid rid a r online open_room (room_key P r.environment r.name),
    )
    | inr f ↦ ground (
      arith,
      rooms q,
      v.room rid r open_room,
      ==_iff rid q,
      v.room q x,
      left_names P w v sid rid a r online open_room (room_key P x.environment x.name),
      ==_iff (room_key P r.environment r.name) (room_key P x.environment x.name),
    )
  ]

  -- A room that is left over had its name before.
  before :
      (q : String) (x : ChatRoom)
      → HashMap.get after.chat_rooms q ≡ some x
      → (y : ChatRoom) × (HashMap.get w.chat_rooms q ≡ some y) × (y.name ≡ x.name)
  before q x g = elim (Bool-cases (rid == q)) [
    | inl f ↦ (r, ground (arith, open_room, ==_iff rid q), ground (arith, rooms q))
    | inr f ↦ (x, ground (arith, rooms q), refl)
  ]

  unique :
      (p q : String) (x y : ChatRoom)
      → HashMap.get after.chat_rooms p ≡ some x
      → HashMap.get after.chat_rooms q ≡ some y
      → P.to_uppercase x.name ≡ P.to_uppercase y.name
      → p ≡ q
  unique p q x y gx gy e =
      let (x', hx, ex) = before p x gx in
      let (y', hy, ey) = before q y gy in
      v.unique p q x' y' hx hy (ap P.to_uppercase ex ∙ e ∙ sym (ap P.to_uppercase ey))

  pub close_if_empty-IsConsistent : IsConsistent P after
  close_if_empty-IsConsistent = record {
    keyed = keyed;
    session = session;
    located = located;
    present = present;
    room = room;
    unique = unique;
  }

-- What is known of a world after a session has left the room it was in, if any.
pub record Left (P : Platform) (w : World) (sid : String) (acc : OnlineAccount) (w' : World)
    : Type 0 where
  pub consistent : IsConsistent P w'
  pub free : HashMap.get w'.accounts_by_socket sid ≡ some (leave_chat acc)
  pub before :
      (q : String) (x : ChatRoom)
      → HashMap.get w'.chat_rooms q ≡ some x
      → (y : ChatRoom) × (HashMap.get w.chat_rooms q ≡ some y) × (y.name ≡ x.name)
  pub kept :
      (q : String)
      → acc.chat_room_id ≢ some q
      → HashMap.get w'.chat_rooms q ≡ HashMap.get w.chat_rooms q

leave_from :
    (P : Platform) (w : World) (sid rid : String) (a : OnlineAccount)
    → IsConsistent P w
    → HashMap.get w.accounts_by_socket sid ≡ some a
    → a.chat_room_id ≡ some rid
    → Left P w sid a (close_if_empty P (detach w rid a.member_number) rid)
leave_from P w sid rid a v g l =
    let (r, gr, c) = v.located sid a rid g l in
    record {
      consistent = close_if_empty-IsConsistent P w v sid rid a r g l gr;
      free = ground (arith, accounts P w v sid rid a r g l gr sid, ==_refl sid);
      before = before P w v sid rid a r g l gr;
      kept = λ q ne.
          ground (arith, rooms P w v sid rid a r g l gr q, ==_ne rid q (λ e. ne (l ∙ ap some e)));
    }

-- A session that is in a room of a consistent world and leaves it, for any reason, leaves a consistent
-- world. It is then in no room; every other room is as it was.
pub leave_room_inner_reason-IsConsistent :
    (P : Platform) (w : World) (sid rid : String) (a : OnlineAccount) (reason : Option String)
    (dictionary : Option Value)
    → IsConsistent P w
    → HashMap.get w.accounts_by_socket sid ≡ some a
    → a.chat_room_id ≡ some rid
    → Left P w sid a (leave_room_inner_reason P rid a.member_number reason dictionary w).0
unfolding leave_room_inner_reason
leave_room_inner_reason-IsConsistent P w sid rid a reason dictionary v g l =
    leave_from P w sid rid a v g l

leave_at-Left :
    (P : Platform) (w : World) (sid : String) (acc : OnlineAccount) (o : Option String)
    → acc.chat_room_id ≡ o
    → IsConsistent P w
    → HashMap.get w.accounts_by_socket sid ≡ some acc
    → Left P w sid acc (leave_at P acc.member_number o w).0
unfolding leave_room_inner
leave_at-Left P w sid acc none e v g = record {
  consistent = v;
  free = g ∙ ap some (λ i. record acc { chat_room_id = e i });
  before = λ q x h. (x, h, refl);
  kept = λ q ne. refl;
}
leave_at-Left P w sid acc (some rid) e v g = leave_from P w sid rid acc v g e

pub leave_current-Left :
    (P : Platform) (w : World) (sid : String) (acc : OnlineAccount)
    → IsConsistent P w
    → HashMap.get w.accounts_by_socket sid ≡ some acc
    → Left P w sid acc (leave_current P acc w).0
leave_current-Left P w sid acc v g = leave_at-Left P w sid acc acc.chat_room_id refl v g

-- Leaving keeps the world consistent, whether the caller is online, in a room or neither.
pub chat_room_leave-IsConsistent :
    (P : Platform) (w : World) (sid : String)
    → IsConsistent P w
    → IsConsistent P (chat_room_leave P sid w).0
unfolding chat_room_leave
chat_room_leave-IsConsistent P w sid v =
    elim (Option-cases (HashMap.get w.accounts_by_socket sid)) [
      | inl e ↦ rw (e, chat_room_leave) v
      | inr (acc, e) ↦ rw (e, chat_room_leave) (leave_current-Left P w sid acc v e).consistent
    ]
