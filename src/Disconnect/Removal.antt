-- ===== src/Disconnect/Removal.antt =====
-- state/world.rs: a session in no room is removed from the tables.
use mathlib.Core.Path.{subst}
use bc_server_rust.Base.{
  String, [], ◌∷◌, not, is_empty, without, contains-without, sym, true, false, ◌≡◌, refl, ap, ◌∙◌,
  none, some, inl, inr, arith, contains, IsDistinct, if◌then◌else◌, ◌==◌, ==_iff, int_eq, string_eq,
  Bool-cases,
}
use bc_server_rust.Base.HashMap
use bc_server_rust.Base.HashMap.{HashMap, keys, get-remove, IsDistinct-remove}
use bc_server_rust.Protocol.{MemberNumber}
use bc_server_rust.State.Platform.{Platform}
use bc_server_rust.State.ChatRoom.{ChatRoom}
use bc_server_rust.State.Account.{OnlineAccount}
use bc_server_rust.State.World.{
  World, PrisonSectorSession, leave_session, remove_account, purge_account,
}
use bc_server_rust.State.Consistency.{IsConsistent, colon_free}

-- Every session that is left has lost the member.
left_sector :
    (m : MemberNumber) (l : HashMap String PrisonSectorSession) (k : String)
    (s : PrisonSectorSession)
    → HashMap.get
        (HashMap.retain_values
          (λ s. not (is_empty s.members))
          (HashMap.map_values (leave_session m) l))
        k
      ≡ some s
    → contains s.members m ≡ false
unfolding HashMap.get HashMap.retain_values
left_sector m [] k s g = absurd (ground arith)
left_sector m ((j, x) ∷ l) k s g = elim (Bool-cases (is_empty (without m x.members))) [
  | inl e ↦ left_sector m l k s (ground arith)
  | inr e ↦ elim (Bool-cases (j == k)) [
    | inl h ↦
        let same : leave_session m x ≡ s = ground arith in
        subst (λ (s : PrisonSectorSession). contains s.members m ≡ false) same
          (ground (arith, contains-without x.members m m, ==_iff m m))
    | inr h ↦ left_sector m l k s (ground arith)
  ]
]

module _ (P : Platform) (w : World) (v : IsConsistent P w) (sid : String) (a : OnlineAccount)
    (online : HashMap.get w.accounts_by_socket sid ≡ some a) (free : a.chat_room_id ≡ none) where
  abbrev after : World
  after = (remove_account w sid).0

  world-remove_account : (remove_account w sid).0 ≡ purge_account w sid a
  unfolding remove_account
  world-remove_account = rw (online, remove_account) refl

  pub removed_accounts :
      (j : String)
      → HashMap.get after.accounts_by_socket j
        ≡ (if sid == j then none else HashMap.get w.accounts_by_socket j)
  removed_accounts j =
      ap (λ (u : World). HashMap.get u.accounts_by_socket j) world-remove_account
      ∙ (get-remove w.accounts_by_socket sid j)

  pub removed_members :
      (m : MemberNumber)
      → HashMap.get after.socket_by_member m
        ≡ (if a.member_number == m then none else HashMap.get w.socket_by_member m)
  removed_members m =
      ap (λ (u : World). HashMap.get u.socket_by_member m) world-remove_account
      ∙ (get-remove w.socket_by_member a.member_number m)

  pub removed_names :
      (n : String)
      → HashMap.get after.socket_by_account_name n
        ≡ (if a.account_name == n then none else HashMap.get w.socket_by_account_name n)
  removed_names n =
      ap (λ (u : World). HashMap.get u.socket_by_account_name n) world-remove_account
      ∙ (get-remove w.socket_by_account_name a.account_name n)

  pub removed_pending : contains after.login_pending sid ≡ false
  removed_pending =
      ap (λ (u : World). contains u.login_pending sid) world-remove_account
      ∙ ground (arith, contains-without w.login_pending sid sid, ==_iff sid sid)

  -- No prison sector holds the member any more.
  pub no_sector :
      (k : String) (s : PrisonSectorSession)
      → HashMap.get after.prison_sector_sessions k ≡ some s
      → contains s.members a.member_number ≡ false
  no_sector k s g =
      left_sector a.member_number w.prison_sector_sessions k s
        (sym (ap (λ (u : World). HashMap.get u.prison_sector_sessions k) world-remove_account) ∙ g)

  same_rooms : after.chat_rooms ≡ w.chat_rooms
  same_rooms = ap (λ (u : World). u.chat_rooms) world-remove_account

  same_names : after.room_by_name_env ≡ w.room_by_name_env
  same_names = ap (λ (u : World). u.room_by_name_env) world-remove_account

  -- A session that is left was there, and is another.
  before :
      (j : String) (b : OnlineAccount)
      → HashMap.get after.accounts_by_socket j ≡ some b
      → ((sid == j) ≡ false) × (HashMap.get w.accounts_by_socket j ≡ some b)
  before j b g = ground (arith, removed_accounts j)

  keyed : IsDistinct (keys after.accounts_by_socket)
  keyed = rw world-remove_account (IsDistinct-remove w.accounts_by_socket sid v.keyed)

  session :
      (j : String) (b : OnlineAccount)
      → HashMap.get after.accounts_by_socket j ≡ some b
      → (b.socket_id ≡ j)
        × (HashMap.get after.socket_by_member b.member_number ≡ some j)
        × (colon_free b.environment ≡ true)
  session j b g = ground (
    arith,
    before j b,
    v.session j b,
    v.session sid a online,
    removed_members b.member_number,
    ==_iff a.member_number b.member_number,
    ==_iff sid j,
  )

  located :
      (j : String) (b : OnlineAccount) (q : String)
      → HashMap.get after.accounts_by_socket j ≡ some b
      → b.chat_room_id ≡ some q
      → (x : ChatRoom) × (HashMap.get after.chat_rooms q ≡ some x)
        × (contains x.members b.member_number ≡ true)
  located j b q g l =
      let (x, gx, c) = v.located j b q (before j b g).1 l in (x, ground (arith, same_rooms), c)

  present :
      (q : String) (x : ChatRoom) (m : MemberNumber)
      → HashMap.get after.chat_rooms q ≡ some x
      → contains x.members m ≡ true
      → (j : String) × (b : OnlineAccount) × (HashMap.get after.accounts_by_socket j ≡ some b)
        × (b.member_number ≡ m)
        × (b.chat_room_id ≡ some q)
  present q x m g c =
      let (j, b, gb, e, l) = v.present q x m (ground (arith, same_rooms)) c in
      (j, b, ground (arith, removed_accounts j, ==_iff sid j, online, free), e, l)

  pub remove_account-IsConsistent : IsConsistent P after
  remove_account-IsConsistent = record {
    keyed = keyed;
    session = session;
    located = located;
    present = present;
    room = λ q x g. ground (arith, v.room q x, same_rooms, same_names);
    unique = λ p q x y gx gy e.
        v.unique p q x y (ground (arith, same_rooms)) (ground (arith, same_rooms)) e;
  }

  -- No room lists the member any more.
  pub nowhere :
      (q : String) (x : ChatRoom)
      → HashMap.get after.chat_rooms q ≡ some x
      → contains x.members a.member_number ≡ false
  nowhere q x g = elim (Bool-cases (contains x.members a.member_number)) [
    | inr e ↦ e
    | inl e ↦
        let (j, b, gb, m, l) = present q x a.member_number g e in
        absurd (
          ground (
            arith,
            session j b gb,
            removed_members b.member_number,
            ==_iff a.member_number b.member_number,
          ))
  ]
