-- ===== src/Auth/Login/Rooms.antt =====
-- state/world.rs: remove_member_from_all_rooms finds nothing to do for a member who has no session.
use bc_server_rust.Base.{
  String, false, ◌≡◌, refl, sym, ap, ◌∙◌, none, some, List, [], ◌∷◌, inl, inr, arith, contains,
  without, is_empty, IsDistinct, ==_iff, int_eq, string_eq, Bool-cases, Option-cases,
}
use bc_server_rust.Base.HashMap
use bc_server_rust.Base.HashMap.{HashMap, keys, values, map_values, map_option, get-keys}
use bc_server_rust.Protocol.{MemberNumber}
use bc_server_rust.State.Platform.{Platform}
use bc_server_rust.State.ChatRoom.{ChatRoom}
use bc_server_rust.State.World.{
  World, drop_member, empty_rooms, clear_room_of, remove_rooms, remove_member_from_all_rooms,
}
use bc_server_rust.State.Consistency.{IsConsistent}

without_absent : (l : List MemberNumber) (m : MemberNumber) → contains l m ≡ false → without m l ≡ l
unfolding contains without
without_absent [] m h = refl
without_absent (x ∷ l) m h = ground (arith, without_absent l m, ==_iff x m, ==_iff m x)

get-map_values :
    (f : ChatRoom → ChatRoom) (l : HashMap String ChatRoom) (k : String)
    → HashMap.get (map_values f l) k ≡ map_option f (HashMap.get l k)
unfolding HashMap.get
get-map_values f [] k = refl
get-map_values f ((j, x) ∷ l) k = ground (arith, get-map_values f l k)

module _ (P : Platform) where
  -- Where every room keeps a member, none is empty.
  none_empty :
      (f : ChatRoom → ChatRoom) (l : HashMap String ChatRoom)
      → IsDistinct (keys l)
      → ((k : String) (x : ChatRoom) → HashMap.get l k ≡ some x → is_empty (f x).members ≡ false)
      → empty_rooms P (values (map_values f l)) ≡ []
  unfolding HashMap.get
  none_empty f [] d h = refl
  none_empty f ((j, x) ∷ l) d h = ground (arith, h j x (head j x l), none_empty f l d.1 rest)
    where
      head :
          (j : String) (x : ChatRoom) (l : HashMap String ChatRoom)
          → HashMap.get ((j, x) ∷ l) j ≡ some x
      head j x l = ground (arith, ==_iff j j)

      rest : (k : String) (y : ChatRoom) → HashMap.get l k ≡ some y → is_empty (f y).members ≡ false
      rest k y g = h k y (ground (arith, ==_iff j k, get-keys l k y g, d.0))

module _ (P : Platform) (w : World) (v : IsConsistent P w)
    (distinct : IsDistinct (keys w.chat_rooms)) (m : MemberNumber)
    (gone : HashMap.get w.socket_by_member m ≡ none) where
  unlisted :
      (q : String) (x : ChatRoom)
      → HashMap.get w.chat_rooms q ≡ some x
      → contains x.members m ≡ false
  unlisted q x g = elim (Bool-cases (contains x.members m)) [
    | inr h ↦ h
    | inl h ↦
        let (j, b, gb, e, l) = v.present q x m g h in
        absurd (ground (arith, (v.session j b gb).1, ap (HashMap.get w.socket_by_member) e))
  ]

  dropped :
      (q : String) (x : ChatRoom) → HashMap.get w.chat_rooms q ≡ some x → drop_member P m x ≡ x
  dropped q x g = ap (λ l. record x { members = l }) (without_absent x.members m (unlisted q x g))

  abbrev pub cleaned : World
  cleaned = record w { chat_rooms = map_values (drop_member P m) w.chat_rooms }

  rooms : (q : String) → HashMap.get cleaned.chat_rooms q ≡ HashMap.get w.chat_rooms q
  rooms q = elim (Option-cases (HashMap.get w.chat_rooms q)) [
    | inl e ↦ get-map_values (drop_member P m) w.chat_rooms q ∙ rw e refl
    | inr (x, e) ↦ get-map_values (drop_member P m) w.chat_rooms q ∙ rw e (ap some (dropped q x e))
  ]

  nobody : clear_room_of P cleaned m ≡ cleaned
  nobody = rw (clear_room_of, gone) refl

  peopled :
      (k : String) (x : ChatRoom)
      → HashMap.get w.chat_rooms k ≡ some x
      → is_empty (drop_member P m x).members ≡ false
  peopled k x g = ap (λ (y : ChatRoom). is_empty y.members) (dropped k x g) ∙ (v.room k x g).3

  pub world-remove_member : remove_member_from_all_rooms P w m ≡ cleaned
  unfolding remove_member_from_all_rooms remove_rooms
  world-remove_member =
      ap (λ ids. clear_room_of P (remove_rooms P cleaned ids) m)
        (none_empty P (drop_member P m) w.chat_rooms distinct peopled)
      ∙ nobody

  pub remove_member-IsConsistent : IsConsistent P (remove_member_from_all_rooms P w m)
  remove_member-IsConsistent = rw world-remove_member (record {
    keyed = v.keyed;
    session = v.session;
    located = λ j b q g l. let (x, gx, c) = v.located j b q g l in (x, rooms q ∙ gx, c);
    present = λ q x n g c. v.present q x n (sym (rooms q) ∙ g) c;
    room = λ q x g. v.room q x (sym (rooms q) ∙ g);
    unique = λ p q x y gx gy e. v.unique p q x y (sym (rooms p) ∙ gx) (sym (rooms q) ∙ gy) e;
  })
