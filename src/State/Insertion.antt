-- ===== src/State/Insertion.antt =====
-- state/world.rs: a session that enters the tables of a consistent world.
use bc_server_rust.Base.{
  String, true, ◌≡◌, sym, none, some, inl, inr, arith, contains, if◌then◌else◌, ◌==◌, ==_iff,
  int_eq, string_eq, Bool-cases,
}
use bc_server_rust.Base.HashMap
use bc_server_rust.Base.HashMap.{keys, get-insert, IsDistinct-insert}
use bc_server_rust.Protocol.{MemberNumber}
use bc_server_rust.State.Platform.{Platform}
use bc_server_rust.State.ChatRoom.{ChatRoom}
use bc_server_rust.State.Account.{OnlineAccount}
use bc_server_rust.State.World.{World, insert_account}
use bc_server_rust.State.Consistency.{IsConsistent, colon_free}

module _ (P : Platform) (w : World) (v : IsConsistent P w) (a : OnlineAccount)
    (new_socket : HashMap.get w.accounts_by_socket a.socket_id ≡ none)
    (new_member : HashMap.get w.socket_by_member a.member_number ≡ none)
    (env : colon_free a.environment ≡ true) (outside : a.chat_room_id ≡ none) where
  abbrev after : World
  after = insert_account w a

  accounts :
      (j : String)
      → HashMap.get after.accounts_by_socket j
        ≡ (if a.socket_id == j then some a else HashMap.get w.accounts_by_socket j)
  unfolding insert_account
  accounts j = get-insert w.accounts_by_socket a.socket_id j a

  members :
      (m : MemberNumber)
      → HashMap.get after.socket_by_member m
        ≡ (if a.member_number == m then some a.socket_id else HashMap.get w.socket_by_member m)
  unfolding insert_account
  members m = get-insert w.socket_by_member a.member_number m a.socket_id

  session :
      (j : String) (b : OnlineAccount)
      → HashMap.get after.accounts_by_socket j ≡ some b
      → (b.socket_id ≡ j)
        × (HashMap.get after.socket_by_member b.member_number ≡ some j)
        × (colon_free b.environment ≡ true)
  session j b g = elim (Bool-cases (a.socket_id == j)) [
    | inl h ↦
        let e : a ≡ b = ground (arith, accounts j) in
        rw (sym e) (
          ground (arith, ==_iff a.socket_id j),
          ground (
            arith,
            members a.member_number,
            ==_iff a.member_number a.member_number,
            ==_iff a.socket_id j,
          ),
          env,
        )
    | inr h ↦
        let (x, y, z) = v.session j b (ground (arith, accounts j)) in
        (
          x,
          ground (
            arith,
            members b.member_number,
            ==_iff a.member_number b.member_number,
            y,
            new_member,
          ),
          z,
        )
  ]

  located :
      (j : String) (b : OnlineAccount) (q : String)
      → HashMap.get after.accounts_by_socket j ≡ some b
      → b.chat_room_id ≡ some q
      → (x : ChatRoom) × (HashMap.get w.chat_rooms q ≡ some x)
        × (contains x.members b.member_number ≡ true)
  located j b q g l = elim (Bool-cases (a.socket_id == j)) [
    | inl h ↦ absurd (ground (arith, accounts j))
    | inr h ↦ v.located j b q (ground (arith, accounts j)) l
  ]

  present :
      (q : String) (x : ChatRoom) (m : MemberNumber)
      → HashMap.get w.chat_rooms q ≡ some x
      → contains x.members m ≡ true
      → (j : String) × (b : OnlineAccount) × (HashMap.get after.accounts_by_socket j ≡ some b)
        × (b.member_number ≡ m)
        × (b.chat_room_id ≡ some q)
  present q x m g c =
      let (j, b, gb, e, l) = v.present q x m g c in
      (j, b, ground (arith, accounts j, ==_iff a.socket_id j, new_socket), e, l)

  pub insert_account-IsConsistent : IsConsistent P after
  unfolding insert_account
  insert_account-IsConsistent = record {
    keyed = IsDistinct-insert w.accounts_by_socket a.socket_id a v.keyed;
    session = session;
    located = located;
    present = present;
    room = v.room;
    unique = v.unique;
  }
