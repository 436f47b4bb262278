-- ===== src/Room/Create/Consistency.antt =====
-- room/mod.rs: opening a room keeps the tables consistent.
use bc_server_rust.Base.{
  String, true, false, ◌≡◌, refl, ap, ◌∙◌, ◌≢◌, none, some, [], ◌∷◌, inl, inr, arith, ℤ, contains,
  is_empty, IsDistinct, if◌then◌else◌, ◌==◌, ==_iff, ==_refl, int_eq, string_eq, Bool-cases,
  Option-cases,
}
use bc_server_rust.Base.HashMap
use bc_server_rust.Base.HashMap.{keys, keys-adjust, get-adjust, get-insert, any-get}
use bc_server_rust.Json.{Value}
use bc_server_rust.Protocol.{MemberNumber}
use bc_server_rust.State.Platform.{Platform}
use bc_server_rust.State.ChatRoom.{ChatRoom}
use bc_server_rust.State.Account.{OnlineAccount}
use bc_server_rust.State.World.{World, room_key, room_name_exists_any, get_room_by_name}
use bc_server_rust.State.Consistency.{IsConsistent, colon_free}
use bc_server_rust.State.RoomKey.{room_key_name, get_room_by_name_lem}
use bc_server_rust.Room.Leave.{leave_chat, leave_current}
use bc_server_rust.Room.Leave.Consistency.{Left, leave_current-Left}
use bc_server_rust.Room.Create.{
  ChatRoomCreateRequest, read_request, build_room, enter, open_room, create_for, chat_room_create,
}

-- A session in no room, and a new room for it, with an id and a name that no room has.
module _ (P : Platform) (w : World) (v : IsConsistent P w) (sid : String) (a : OnlineAccount)
    (r : ChatRoom) (online : HashMap.get w.accounts_by_socket sid ≡ some a)
    (free : a.chat_room_id ≡ none) (fresh : HashMap.get w.chat_rooms r.id ≡ none)
    (new_name : (q : String) (x : ChatRoom)
      → HashMap.get w.chat_rooms q ≡ some x
      → P.to_uppercase x.name ≢ P.to_uppercase r.name)
    (alone : r.members ≡ a.member_number ∷ []) (home : r.environment ≡ a.environment) where
  abbrev after : World
  after = open_room P sid r w

  pub opened_accounts :
      (j : String)
      → HashMap.get after.accounts_by_socket j
        ≡ (if sid == j then some (enter r.id a) else HashMap.get w.accounts_by_socket j)
  unfolding open_room
  opened_accounts j =
      ground (arith, get-adjust w.accounts_by_socket sid j (enter r.id), online, ==_iff sid j)

  pub opened_rooms :
      (j : String)
      → HashMap.get after.chat_rooms j ≡ (if r.id == j then some r else HashMap.get w.chat_rooms j)
  unfolding open_room
  opened_rooms j = get-insert w.chat_rooms r.id j r

  opened_names :
      (j : String)
      → HashMap.get after.room_by_name_env j ≡ (
          if room_key P r.environment r.name == j
          then some r.id
          else HashMap.get w.room_by_name_env j)
  unfolding open_room
  opened_names j = get-insert w.room_by_name_env (room_key P r.environment r.name) j r.id

  opened_members : after.socket_by_member ≡ w.socket_by_member
  unfolding open_room
  opened_members = refl

  keyed : IsDistinct (keys after.accounts_by_socket)
  unfolding open_room
  keyed = rw keys-adjust v.keyed

  session :
      (j : String) (b : OnlineAccount)
      → HashMap.get after.accounts_by_socket j ≡ some b
      → (b.socket_id ≡ j)
        × (HashMap.get after.socket_by_member b.member_number ≡ some j)
        × (colon_free b.environment ≡ true)
  session j b g = ground (
    arith,
    opened_accounts j,
    v.session sid a online,
    v.session j b,
    ==_iff sid j,
    opened_members,
  )

  contains-one : (m : MemberNumber) → contains r.members m ≡ (m == a.member_number)
  unfolding contains
  contains-one m = ground (arith, alone)

  located :
      (j : String) (b : OnlineAccount) (q : String)
      → HashMap.get after.accounts_by_socket j ≡ some b
      → b.chat_room_id ≡ some q
      → (x : ChatRoom) × (HashMap.get after.chat_rooms q ≡ some x)
        × (contains x.members b.member_number ≡ true)
  located j b q g l = elim (Bool-cases (sid == j)) [
    | inl e ↦ (
      r,
      ground (arith, opened_accounts j, opened_rooms q, ==_iff r.id q),
      ground (arith, opened_accounts j, contains-one a.member_number, ==_refl a.member_number),
    )
    | inr e ↦
        let (x, gx, c) = v.located j b q (ground (arith, opened_accounts j)) l in
        (x, ground (arith, opened_rooms q, ==_iff r.id q, fresh), c)
  ]

  present :
      (q : String) (x : ChatRoom) (m : MemberNumber)
      → HashMap.get after.chat_rooms q ≡ some x
      → contains x.members m ≡ true
      → (j : String) × (b : OnlineAccount) × (HashMap.get after.accounts_by_socket j ≡ some b)
        × (b.member_number ≡ m)
        × (b.chat_room_id ≡ some q)
  present q x m g c = elim (Bool-cases (r.id == q)) [
    | inl f ↦ (
      sid,
      enter r.id a,
      ground (arith, opened_accounts sid, ==_refl sid),
      ground (arith, opened_rooms q, contains-one m, ==_iff m a.member_number),
      ground (arith, ==_iff r.id q),
    )
    | inr f ↦
        let (j, b, gb, eb, lb) = v.present q x m (ground (arith, opened_rooms q)) c in
        (j, b, ground (arith, opened_accounts j, ==_iff sid j, online), eb, lb)
  ]

  room :
      (q : String) (x : ChatRoom)
      → HashMap.get after.chat_rooms q ≡ some x
      → (x.id ≡ q)
        × (HashMap.get after.room_by_name_env (room_key P x.environment x.name) ≡ some q)
        × IsDistinct x.members
        × (is_empty x.members ≡ false)
        × (colon_free x.environment ≡ true)
  unfolding contains
  room q x g = elim (Bool-cases (r.id == q)) [
    | inl f ↦ ground (
      arith,
      opened_rooms q,
      opened_names (room_key P r.environment r.name),
      ==_refl (room_key P r.environment r.name),
      ==_iff r.id q,
      alone,
      home,
      v.session sid a online,
    )
    | inr f ↦ ground (
      arith,
      opened_rooms q,
      opened_names (room_key P x.environment x.name),
      v.room q x,
      ==_iff (room_key P r.environment r.name) (room_key P x.environment x.name),
      room_key_name P x.environment r.environment x.name r.name,
      new_name q x,
      home,
      v.session sid a online,
    )
  ]

  unique :
      (p q : String) (x y : ChatRoom)
      → HashMap.get after.chat_rooms p ≡ some x
      → HashMap.get after.chat_rooms q ≡ some y
      → P.to_uppercase x.name ≡ P.to_uppercase y.name
      → p ≡ q
  unique p q x y gx gy e = ground (
    arith,
    opened_rooms p,
    opened_rooms q,
    ==_iff r.id p,
    ==_iff r.id q,
    new_name p x,
    new_name q y,
    v.unique p q x y,
  )

  open_room-IsConsistent : IsConsistent P after
  open_room-IsConsistent = record {
    keyed = keyed;
    session = session;
    located = located;
    present = present;
    room = room;
    unique = unique;
  }

module _ (P : Platform) (w : World) (v : IsConsistent P w) (sid id : String) (now : ℤ)
    (req : ChatRoomCreateRequest) (acc : OnlineAccount)
    (online : HashMap.get w.accounts_by_socket sid ≡ some acc)
    (fresh : HashMap.get w.chat_rooms id ≡ none)
    (unused : room_name_exists_any P w req.name ≡ false) where
  left : Left P w sid acc (leave_current P acc w).0
  left = leave_current-Left P w sid acc v online

  built : ChatRoom
  built = build_room id now acc req

  still_fresh : HashMap.get (leave_current P acc w).0.chat_rooms built.id ≡ none
  unfolding built build_room
  still_fresh = elim (Option-cases (HashMap.get (leave_current P acc w).0.chat_rooms id)) [
    | inl e ↦ e
    | inr (x, e) ↦ let (y, g, _) = left.before id x e in absurd (ground (arith, fresh))
  ]

  still_new :
      (q : String) (x : ChatRoom)
      → HashMap.get (leave_current P acc w).0.chat_rooms q ≡ some x
      → P.to_uppercase x.name ≢ P.to_uppercase built.name
  unfolding built build_room room_name_exists_any
  still_new q x g e =
      let (y, h, n) = left.before q x g in
      cc (
        unused,
        any-get (λ (z : ChatRoom). P.to_uppercase z.name == P.to_uppercase req.name) w.chat_rooms q
            y h
            ((==_iff (P.to_uppercase y.name) (P.to_uppercase req.name)).1
              (ap P.to_uppercase n ∙ e)),
      )

  world-create_for :
      (create_for P sid id now req acc w).0 ≡ open_room P sid built (leave_current P acc w).0
  unfolding create_for built
  world-create_for = rw (unused, create_for) refl

  create_for-IsConsistent : IsConsistent P (create_for P sid id now req acc w).0
  unfolding built build_room
  create_for-IsConsistent = rw world-create_for (
      open_room-IsConsistent P (leave_current P acc w).0 left.consistent sid (leave_chat acc) built
        left.free refl still_fresh still_new refl refl)

  -- In a consistent world the request of an online session, for a name and under an id that no
  -- room has, opens the room: it stands under its id with the creator alone in it, the session of
  -- the creator names it, and its name, in any case, finds it in the creator's environment.
  pub create_for_lem :
      (name : String)
      → P.to_uppercase name ≡ P.to_uppercase req.name
      → (HashMap.get (create_for P sid id now req acc w).0.chat_rooms id
          ≡ some (build_room id now acc req))
        × ((build_room id now acc req).members ≡ acc.member_number ∷ [])
        × (HashMap.get (create_for P sid id now req acc w).0.accounts_by_socket sid
            ≡ some (enter id acc))
        × (get_room_by_name P (create_for P sid id now req acc w).0 acc.environment name
            ≡ some (build_room id now acc req))
  unfolding built build_room
  create_for_lem name e = (
    opened,
    refl,
    rw world-create_for (accounts sid ∙ ground (arith, ==_refl sid)),
    get_room_by_name_lem P (create_for P sid id now req acc w).0 id name (build_room id now acc req)
        create_for-IsConsistent opened e,
  )
    where
      rooms :
          (j : String)
          → HashMap.get (open_room P sid built (leave_current P acc w).0).chat_rooms j ≡ (
              if built.id == j
              then some built
              else HashMap.get (leave_current P acc w).0.chat_rooms j)
      rooms =
          opened_rooms P (leave_current P acc w).0 left.consistent sid (leave_chat acc) built
            left.free refl still_fresh still_new refl refl

      opened :
          HashMap.get (create_for P sid id now req acc w).0.chat_rooms id
          ≡ some (build_room id now acc req)
      opened = rw world-create_for (rooms id ∙ ground (arith, ==_refl id))

      accounts :
          (j : String)
          → HashMap.get (open_room P sid built (leave_current P acc w).0).accounts_by_socket j ≡ (
              if sid == j
              then some (enter built.id (leave_chat acc))
              else HashMap.get (leave_current P acc w).0.accounts_by_socket j)
      accounts =
          opened_accounts P (leave_current P acc w).0 left.consistent sid (leave_chat acc) built
            left.free refl still_fresh still_new refl refl

-- Creating a room under an id that no room has keeps the world consistent, whatever the payload.
pub chat_room_create-IsConsistent :
    (P : Platform) (w : World) (sid id : String) (now : ℤ) (d : Value)
    → IsConsistent P w
    → HashMap.get w.chat_rooms id ≡ none
    → IsConsistent P (chat_room_create P sid id now d w).0
unfolding chat_room_create
chat_room_create-IsConsistent P w sid id now d v fresh = elim (Option-cases (read_request d)) [
  | inl e ↦ rw (e, chat_room_create) v
  | inr (req, e) ↦ elim (Option-cases (HashMap.get w.accounts_by_socket sid)) [
    | inl f ↦ rw (e, f, chat_room_create) v
    | inr (acc, f) ↦ elim (Bool-cases (room_name_exists_any P w req.name)) [
      | inl h ↦ rw (e, f, chat_room_create) (unfold create_for in rw (h, create_for) v)
      | inr h ↦
          rw (e, f, chat_room_create) (create_for-IsConsistent P w v sid id now req acc f fresh h)
    ]
  ]
]
