-- ===== src/Room/Join/Consistency.antt =====
-- room/mod.rs: joining a room keeps the tables consistent.
use bc_server_rust.Base.{
  String, true, false, ◌&&◌, ◌≡◌, refl, sym, ap, ◌∙◌, ◌≢◌, none, some, List, [], ◌∷◌, inl, inr,
  arith, contains, push, is_empty, IsDistinct, if◌then◌else◌, ◌==◌, ==_iff, ==_refl, int_eq,
  string_eq, Bool-cases, Option-cases, contains-push, IsDistinct-push,
}
use bc_server_rust.Base.HashMap
use bc_server_rust.Base.HashMap.{keys, keys-adjust, get-adjust}
use bc_server_rust.Base.Text.{is_empty_text}
use bc_server_rust.Json.{Value}
use bc_server_rust.Protocol.{MemberNumber}
use bc_server_rust.State.Platform.{Platform}
use bc_server_rust.State.ChatRoom.{ChatRoom}
use bc_server_rust.State.Account.{OnlineAccount}
use bc_server_rust.State.World.{World, room_key, get_room_by_name, get_by_member}
use bc_server_rust.State.Consistency.{IsConsistent, colon_free}
use bc_server_rust.Room.Leave.{leave_chat, leave_current}
use bc_server_rust.Room.Leave.Consistency.{Left, leave_current-Left}
use bc_server_rust.Room.Create.{enter}
use bc_server_rust.Room.Join.{
  decode_join, refusal, add_member, enter_room, move_to, join_for, chat_room_join,
}

-- A session in no room, and a room of a consistent world.
module _ (P : Platform) (w : World) (v : IsConsistent P w) (sid rid : String) (a : OnlineAccount)
    (r : ChatRoom) (online : HashMap.get w.accounts_by_socket sid ≡ some a)
    (free : a.chat_room_id ≡ none) (open_room : HashMap.get w.chat_rooms rid ≡ some r) where
  abbrev after : World
  after = enter_room sid rid a.member_number w

  abbrev joined : ChatRoom
  joined = add_member a.member_number r

  pub entered_accounts :
      (j : String)
      → HashMap.get after.accounts_by_socket j
        ≡ (if sid == j then some (enter rid a) else HashMap.get w.accounts_by_socket j)
  unfolding enter_room
  entered_accounts j =
      ground (arith, get-adjust w.accounts_by_socket sid j (enter rid), online, ==_iff sid j)

  pub entered_rooms :
      (j : String)
      → HashMap.get after.chat_rooms j
        ≡ (if rid == j then some joined else HashMap.get w.chat_rooms j)
  unfolding enter_room
  entered_rooms j =
      ground
        (arith, get-adjust w.chat_rooms rid j (add_member a.member_number), open_room, ==_iff rid j)

  pub entered_others :
      (after.socket_by_member ≡ w.socket_by_member) × (after.room_by_name_env ≡ w.room_by_name_env)
  unfolding enter_room
  entered_others = (refl, refl)

  -- The newcomer is in no room, so not in this one.
  newcomer : contains r.members a.member_number ≡ false
  newcomer = elim (Bool-cases (contains r.members a.member_number)) [
    | inl c ↦
        let (j, b, gb, eb, lb) = v.present rid r a.member_number open_room c in
        absurd (ground (arith, v.session sid a online, v.session j b gb, online))
    | inr c ↦ c
  ]

  keyed : IsDistinct (keys after.accounts_by_socket)
  unfolding enter_room
  keyed = rw keys-adjust v.keyed

  session :
      (j : String) (b : OnlineAccount)
      → HashMap.get after.accounts_by_socket j ≡ some b
      → (b.socket_id ≡ j)
        × (HashMap.get after.socket_by_member b.member_number ≡ some j)
        × (colon_free b.environment ≡ true)
  session j b g = ground (
    arith,
    entered_accounts j,
    v.session sid a online,
    v.session j b,
    ==_iff sid j,
    entered_others,
  )

  located :
      (j : String) (b : OnlineAccount) (q : String)
      → HashMap.get after.accounts_by_socket j ≡ some b
      → b.chat_room_id ≡ some q
      → (x : ChatRoom) × (HashMap.get after.chat_rooms q ≡ some x)
        × (contains x.members b.member_number ≡ true)
  located j b q g l = elim (Bool-cases (sid == j)) [
    | inl e ↦ (
      joined,
      ground (arith, entered_accounts j, entered_rooms q, ==_iff rid q),
      ground (
        arith,
        entered_accounts j,
        contains-push r.members a.member_number a.member_number,
        ==_refl a.member_number,
      ),
    )
    | inr e ↦
        let (x, gx, c) = v.located j b q (ground (arith, entered_accounts j)) l in
        elim (Bool-cases (rid == q)) [
          | inl f ↦ (
            joined,
            ground (arith, entered_rooms q),
            ground (
              arith,
              ==_iff rid q,
              open_room,
              contains-push r.members a.member_number b.member_number,
            ),
          )
          | inr f ↦ (x, ground (arith, entered_rooms q), c)
        ]
  ]

  present :
      (q : String) (x : ChatRoom) (m : MemberNumber)
      → HashMap.get after.chat_rooms q ≡ some x
      → contains x.members m ≡ true
      → (j : String) × (b : OnlineAccount) × (HashMap.get after.accounts_by_socket j ≡ some b)
        × (b.member_number ≡ m)
        × (b.chat_room_id ≡ some q)
  present q x m g c = elim (Bool-cases (rid == q && m == a.member_number)) [
    | inl f ↦ (
      sid,
      enter rid a,
      ground (arith, entered_accounts sid, ==_refl sid),
      ground (arith, ==_iff m a.member_number),
      ground (arith, ==_iff rid q),
    )
    | inr f ↦
        let (y, gy, cy) = was q x m g c f in
        let (j, b, gb, eb, lb) = v.present q y m gy cy in
        (j, b, ground (arith, entered_accounts j, ==_iff sid j, online), eb, lb)
  ]
    where
      was :
          (q : String) (x : ChatRoom) (m : MemberNumber)
          → HashMap.get after.chat_rooms q ≡ some x
          → contains x.members m ≡ true
          → (rid == q && m == a.member_number) ≡ false
          → (y : ChatRoom) × (HashMap.get w.chat_rooms q ≡ some y) × (contains y.members m ≡ true)
      was q x m g c f = elim (Bool-cases (rid == q)) [
        | inl e ↦ (
          r,
          ground (arith, ==_iff rid q, open_room),
          ground (arith, entered_rooms q, contains-push r.members a.member_number m),
        )
        | inr e ↦ (x, ground (arith, entered_rooms q), c)
      ]

  is_empty-push : (xs : List MemberNumber) (m : MemberNumber) → is_empty (push xs m) ≡ false
  is_empty-push [] m = refl
  is_empty-push (x ∷ xs) m = refl

  room :
      (q : String) (x : ChatRoom)
      → HashMap.get after.chat_rooms q ≡ some x
      → (x.id ≡ q)
        × (HashMap.get after.room_by_name_env (room_key P x.environment x.name) ≡ some q)
        × IsDistinct x.members
        × (is_empty x.members ≡ false)
        × (colon_free x.environment ≡ true)
  room q x g = elim (Bool-cases (rid == q)) [
    | inl f ↦ ground (
      arith,
      entered_rooms q,
      v.room rid r open_room,
      ==_iff rid q,
      IsDistinct-push r.members a.member_number,
      newcomer,
      is_empty-push r.members a.member_number,
      entered_others,
    )
    | inr f ↦ ground (arith, entered_rooms q, v.room q x, entered_others)
  ]

  before :
      (q : String) (x : ChatRoom)
      → HashMap.get after.chat_rooms q ≡ some x
      → (y : ChatRoom) × (HashMap.get w.chat_rooms q ≡ some y) × (y.name ≡ x.name)
  before q x g = elim (Bool-cases (rid == q)) [
    | inl f ↦ (r, ground (arith, open_room, ==_iff rid q), ground (arith, entered_rooms q))
    | inr f ↦ (x, ground (arith, entered_rooms q), refl)
  ]

  unique :
      (p q : String) (x y : ChatRoom)
      → HashMap.get after.chat_rooms p ≡ some x
      → HashMap.get after.chat_rooms q ≡ some y
      → P.to_uppercase x.name ≡ P.to_uppercase y.name
      → p ≡ q
  unique p q x y gx gy e =
      let (x', hx, ex) = before p x gx in
      let (y', hy, ey) = before q y gy in
      v.unique p q x' y' hx hy (ap P.to_uppercase ex ∙ e ∙ sym (ap P.to_uppercase ey))

  enter_room-IsConsistent : IsConsistent P after
  enter_room-IsConsistent = record {
    keyed = keyed;
    session = session;
    located = located;
    present = present;
    room = room;
    unique = unique;
  }

-- A room is found by its name under its own id.
found :
    (P : Platform) (w : World) (env name : String) (r : ChatRoom)
    → IsConsistent P w
    → get_room_by_name P w env name ≡ some r
    → HashMap.get w.chat_rooms r.id ≡ some r
unfolding get_room_by_name
found P w env name r v g =
    elim (Option-cases (HashMap.get w.room_by_name_env (room_key P env name))) [
      | inl e ↦ absurd (ground (arith, e))
      | inr (id, e) ↦ ground (arith, e, v.room id r)
    ]

module _ (P : Platform) (w : World) (v : IsConsistent P w) (sid : String) (acc : OnlineAccount)
    (r : ChatRoom) (online : HashMap.get w.accounts_by_socket sid ≡ some acc)
    (open_room : HashMap.get w.chat_rooms r.id ≡ some r) (allowed : refusal acc r ≡ none) where
  elsewhere : acc.chat_room_id ≢ some r.id
  unfolding refusal
  elsewhere e = ground (arith, ==_refl r.id)

  left : Left P w sid acc (leave_current P acc w).0
  left = leave_current-Left P w sid acc v online

  still_open : HashMap.get (leave_current P acc w).0.chat_rooms r.id ≡ some r
  still_open = left.kept r.id elsewhere ∙ open_room

  still_online : get_by_member (leave_current P acc w).0 acc.member_number ≡ some (leave_chat acc)
  still_online = ground (arith, left.consistent.session sid (leave_chat acc) left.free, left.free)

  pub world-move_to :
      (move_to P sid acc r.id w).0 ≡ enter_room sid r.id acc.member_number (leave_current P acc w).0
  unfolding move_to
  world-move_to = ground (arith, still_online)

  pub move_to-IsConsistent : IsConsistent P (move_to P sid acc r.id w).0
  move_to-IsConsistent = rw world-move_to (
      enter_room-IsConsistent P (leave_current P acc w).0 left.consistent sid r.id (leave_chat acc)
        r left.free refl still_open)

  -- In a consistent world an online session that a room does not refuse ends up in it: the room
  -- has it as the last member and the session names the room, whatever room it left.
  pub move_to_lem :
      (HashMap.get (move_to P sid acc r.id w).0.chat_rooms r.id
        ≡ some (add_member acc.member_number r))
      × (HashMap.get (move_to P sid acc r.id w).0.accounts_by_socket sid ≡ some (enter r.id acc))
  move_to_lem = rw world-move_to (
      ground (
        arith,
        entered_rooms P (leave_current P acc w).0 left.consistent sid r.id (leave_chat acc) r
            left.free refl still_open r.id,
        entered_accounts P (leave_current P acc w).0 left.consistent sid r.id (leave_chat acc) r
            left.free refl still_open sid,
        ==_refl r.id,
        ==_refl sid,
      ))

join_for-IsConsistent :
    (P : Platform) (w : World) (sid name : String) (acc : OnlineAccount)
    → IsConsistent P w
    → HashMap.get w.accounts_by_socket sid ≡ some acc
    → IsConsistent P (join_for P sid name acc w).0
unfolding join_for
join_for-IsConsistent P w sid name acc v online =
    elim (Option-cases (get_room_by_name P w acc.environment name)) [
      | inl e ↦ rw (e, join_for) v
      | inr (r, e) ↦ elim (Option-cases (refusal acc r)) [
        | inl f ↦
            rw (e, f, join_for)
              (move_to-IsConsistent P w v sid acc r online (found P w acc.environment name r v e) f)
        | inr (code, f) ↦ rw (e, f, join_for) v
      ]
    ]

-- A join keeps the world consistent, whatever the payload, and whether it is refused or not.
pub chat_room_join-IsConsistent :
    (P : Platform) (w : World) (sid : String) (d : Value)
    → IsConsistent P w
    → IsConsistent P (chat_room_join P sid d w).0
unfolding chat_room_join
chat_room_join-IsConsistent P w sid d v = elim (Option-cases (decode_join d)) [
  | inl e ↦ rw (e, chat_room_join) v
  | inr (name, e) ↦ elim (Bool-cases (is_empty_text name)) [
    | inl h ↦ rw (e, h, chat_room_join) v
    | inr h ↦ elim (Option-cases (HashMap.get w.accounts_by_socket sid)) [
      | inl f ↦ rw (e, h, f, chat_room_join) v
      | inr (acc, f) ↦ rw (e, h, f, chat_room_join) (join_for-IsConsistent P w sid name acc v f)
    ]
  ]
]
