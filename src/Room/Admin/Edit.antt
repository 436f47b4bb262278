-- ===== src/Room/Admin/Edit.antt =====
-- room/admin.rs: a room of a consistent world changes, and keeps its members up to their order.
use bc_server_rust.Base.{
  String, true, false, ◌≡◌, sym, ap, ◌∙◌, ◌≢◌, some, List, [], ◌∷◌, contains→not_empty, ◌⊎◌, inl,
  inr, arith, contains, is_empty, IsDistinct, if◌then◌else◌, ◌==◌, ==_iff, ==_refl, int_eq,
  string_eq, Bool-cases,
}
use bc_server_rust.Base.HashMap
use bc_server_rust.Base.HashMap.{HashMap, get-adjust}
use bc_server_rust.Protocol.{MemberNumber}
use bc_server_rust.State.Platform.{Platform}
use bc_server_rust.State.ChatRoom.{ChatRoom}
use bc_server_rust.State.Account.{OnlineAccount}
use bc_server_rust.State.World.{World, room_key}
use bc_server_rust.State.Consistency.{IsConsistent, colon_free}

-- What an edit keeps of a room.
pub record Keeps (r x : ChatRoom) : Type 0 where
  pub id : x.id ≡ r.id
  pub environment : x.environment ≡ r.environment
  pub listed : (m : MemberNumber) → contains x.members m ≡ contains r.members m
  pub distinct : IsDistinct r.members → IsDistinct x.members

-- The room `rid` is edited, and the index follows.
module _ (P : Platform) (w : World) (v : IsConsistent P w) (rid : String) (r : ChatRoom)
    (f : ChatRoom → ChatRoom) (index : HashMap String String)
    (here : HashMap.get w.chat_rooms rid ≡ some r) (keeps : Keeps r (f r))
    (indexed : HashMap.get index (room_key P (f r).environment (f r).name) ≡ some rid)
    (others : (q : String) (y : ChatRoom)
      → HashMap.get w.chat_rooms q ≡ some y
      → rid ≢ q
      → HashMap.get index (room_key P y.environment y.name) ≡ some q)
    (apart : (q : String) (y : ChatRoom)
      → HashMap.get w.chat_rooms q ≡ some y
      → P.to_uppercase y.name ≡ P.to_uppercase (f r).name
      → rid ≡ q) where
  abbrev pub edited : World
  edited = record w { chat_rooms = HashMap.adjust w.chat_rooms rid f; room_by_name_env = index }

  rooms :
      (j : String)
      → HashMap.get edited.chat_rooms j
        ≡ (if rid == j then some (f r) else HashMap.get w.chat_rooms j)
  rooms j = ground (arith, get-adjust w.chat_rooms rid j f, here, ==_iff rid j)

  located :
      (j : String) (b : OnlineAccount) (q : String)
      → HashMap.get w.accounts_by_socket j ≡ some b
      → b.chat_room_id ≡ some q
      → (x : ChatRoom) × (HashMap.get edited.chat_rooms q ≡ some x)
        × (contains x.members b.member_number ≡ true)
  located j b q g l =
      let (x, gx, c) = v.located j b q g l in
      elim (Bool-cases (rid == q)) [
        | inl e ↦ (
          f r,
          ground (arith, rooms q),
          keeps.listed b.member_number ∙ ground (arith, ==_iff rid q, here, gx, c),
        )
        | inr e ↦ (x, ground (arith, rooms q), c)
      ]

  -- A room after the edit was there before it, with the same members.
  before :
      (q : String) (x : ChatRoom)
      → HashMap.get edited.chat_rooms q ≡ some x
      → ((rid ≡ q) × (x ≡ f r)) ⊎ ((rid ≢ q) × (HashMap.get w.chat_rooms q ≡ some x))
  before q x g = elim (Bool-cases (rid == q)) [
    | inl e ↦ inl (ground (arith, rooms q, ==_iff rid q))
    | inr e ↦ inr (λ h. ground (arith, (==_iff rid q).1 h), ground (arith, rooms q))
  ]

  present :
      (q : String) (x : ChatRoom) (m : MemberNumber)
      → HashMap.get edited.chat_rooms q ≡ some x
      → contains x.members m ≡ true
      → (j : String) × (b : OnlineAccount) × (HashMap.get w.accounts_by_socket j ≡ some b)
        × (b.member_number ≡ m)
        × (b.chat_room_id ≡ some q)
  present q x m g c = elim (before q x g) [
    | inl (e, h) ↦
        v.present q r m (ground (arith, e, here))
          (sym (keeps.listed m) ∙ ap (λ (y : ChatRoom). contains y.members m) (sym h) ∙ c)
    | inr (e, h) ↦ v.present q x m h c
  ]

  not_empty : is_empty (f r).members ≡ false
  unfolding contains
  not_empty = same r.members (f r).members ((v.room rid r here).3) keeps.listed
    where
      same :
          (l k : List MemberNumber)
          → is_empty l ≡ false
          → ((m : MemberNumber) → contains k m ≡ contains l m)
          → is_empty k ≡ false
      same [] k e h = absurd (ground arith)
      same (m ∷ l) k e h = contains→not_empty k m (h m ∙ ground (arith, ==_refl m))

  room :
      (q : String) (x : ChatRoom)
      → HashMap.get edited.chat_rooms q ≡ some x
      → (x.id ≡ q)
        × (HashMap.get index (room_key P x.environment x.name) ≡ some q)
        × IsDistinct x.members
        × (is_empty x.members ≡ false)
        × (colon_free x.environment ≡ true)
  room q x g = elim (before q x g) [
    | inl (e, h) ↦
        let (i, k, d, n, c) = v.room rid r here in
        rw (h, ← e)
          (keeps.id ∙ i, indexed, keeps.distinct d, not_empty, ap colon_free keeps.environment ∙ c)
    | inr (e, h) ↦ let (i, k, d, n, c) = v.room q x h in (i, others q x h e, d, n, c)
  ]

  unique :
      (p q : String) (x y : ChatRoom)
      → HashMap.get edited.chat_rooms p ≡ some x
      → HashMap.get edited.chat_rooms q ≡ some y
      → P.to_uppercase x.name ≡ P.to_uppercase y.name
      → p ≡ q
  unique p q x y gx gy e = elim (before p x gx) [
    | inl (i, h) ↦ elim (before q y gy) [
      | inl (j, k) ↦ sym i ∙ j
      | inr (j, k) ↦ sym i ∙ apart q y k (sym e ∙ ap (λ (z : ChatRoom). P.to_uppercase z.name) h)
    ]
    | inr (i, h) ↦ elim (before q y gy) [
      | inl (j, k) ↦ sym (apart p x h (e ∙ ap (λ (z : ChatRoom). P.to_uppercase z.name) k)) ∙ j
      | inr (j, k) ↦ v.unique p q x y h k e
    ]
  ]

  pub edited-IsConsistent : IsConsistent P edited
  edited-IsConsistent = record {
    keyed = v.keyed;
    session = v.session;
    located = located;
    present = present;
    room = room;
    unique = unique;
  }
