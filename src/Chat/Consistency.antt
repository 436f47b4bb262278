-- ===== src/Chat/Consistency.antt =====
-- chat/mod.rs: the updates of a character keep the tables consistent.
use bc_server_rust.Base.{
  String, true, ◌≡◌, refl, sym, ap, ◌∙◌, some, inl, inr, arith, contains, ◌==◌, int_eq, string_eq,
  Bool-cases, Option-cases,
}
use bc_server_rust.Base.HashMap
use bc_server_rust.Base.HashMap.{keys, keys-adjust, get-adjust}
use bc_server_rust.Protocol.{MemberNumber}
use bc_server_rust.State.Platform.{Platform}
use bc_server_rust.State.ChatRoom.{ChatRoom}
use bc_server_rust.State.Account.{OnlineAccount}
use bc_server_rust.State.World.{World, update_account}
use bc_server_rust.State.Consistency.{IsConsistent, colon_free}

-- What an update keeps of a session.
pub record Keeps (f : OnlineAccount → OnlineAccount) : Type 0 where
  pub socket : (a : OnlineAccount) → (f a).socket_id ≡ a.socket_id
  pub number : (a : OnlineAccount) → (f a).member_number ≡ a.member_number
  pub environment : (a : OnlineAccount) → (f a).environment ≡ a.environment
  pub chat_room : (a : OnlineAccount) → (f a).chat_room_id ≡ a.chat_room_id

module _ (P : Platform) (w : World) (v : IsConsistent P w) (sid : String)
    (f : OnlineAccount → OnlineAccount) (keeps : Keeps f) where
  abbrev after : World
  after = update_account w sid f

  -- A session after the update was there before it, with the same keys.
  before :
      (j : String) (b : OnlineAccount)
      → HashMap.get after.accounts_by_socket j ≡ some b
      → (a : OnlineAccount) × (HashMap.get w.accounts_by_socket j ≡ some a)
        × (b.socket_id ≡ a.socket_id)
        × (b.member_number ≡ a.member_number)
        × (b.environment ≡ a.environment)
        × (b.chat_room_id ≡ a.chat_room_id)
  before j b g = elim (Option-cases (HashMap.get w.accounts_by_socket j)) [
    | inl e ↦ absurd (ground (arith, get-adjust w.accounts_by_socket sid j f, e))
    | inr (a, e) ↦ elim (Bool-cases (sid == j)) [
      | inl h ↦ (
        a,
        e,
        ground (arith, get-adjust w.accounts_by_socket sid j f, e, keeps.socket a),
        ground (arith, get-adjust w.accounts_by_socket sid j f, e, keeps.number a),
        ground (arith, get-adjust w.accounts_by_socket sid j f, e, keeps.environment a),
        ground (arith, get-adjust w.accounts_by_socket sid j f, e, keeps.chat_room a),
      )
      | inr h ↦ (b, ground (arith, get-adjust w.accounts_by_socket sid j f), refl, refl, refl, refl)
    ]
  ]

  session :
      (j : String) (b : OnlineAccount)
      → HashMap.get after.accounts_by_socket j ≡ some b
      → (b.socket_id ≡ j)
        × (HashMap.get w.socket_by_member b.member_number ≡ some j)
        × (colon_free b.environment ≡ true)
  session j b g =
      let (a, ga, s, m, e, l) = before j b g in
      let (x, y, z) = v.session j a ga in (s ∙ x, rw m y, rw e z)

  located :
      (j : String) (b : OnlineAccount) (q : String)
      → HashMap.get after.accounts_by_socket j ≡ some b
      → b.chat_room_id ≡ some q
      → (x : ChatRoom) × (HashMap.get w.chat_rooms q ≡ some x)
        × (contains x.members b.member_number ≡ true)
  located j b q g h =
      let (a, ga, s, m, e, l) = before j b g in
      let (x, gx, c) = v.located j a q ga (sym l ∙ h) in (x, gx, ap (contains x.members) m ∙ c)

  present :
      (q : String) (x : ChatRoom) (m : MemberNumber)
      → HashMap.get w.chat_rooms q ≡ some x
      → contains x.members m ≡ true
      → (j : String) × (b : OnlineAccount) × (HashMap.get after.accounts_by_socket j ≡ some b)
        × (b.member_number ≡ m)
        × (b.chat_room_id ≡ some q)
  present q x m g c =
      let (j, a, ga, e, l) = v.present q x m g c in
      elim (Bool-cases (sid == j)) [
        | inl h ↦ (
          j,
          f a,
          ground (arith, get-adjust w.accounts_by_socket sid j f, ga),
          keeps.number a ∙ e,
          keeps.chat_room a ∙ l,
        )
        | inr h ↦ (j, a, ground (arith, get-adjust w.accounts_by_socket sid j f, ga), e, l)
      ]

  pub update_account-IsConsistent : IsConsistent P after
  update_account-IsConsistent = record {
    keyed = rw keys-adjust v.keyed;
    session = session;
    located = located;
    present = present;
    room = v.room;
    unique = v.unique;
  }
