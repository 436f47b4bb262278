-- ===== src/Room/Admin/Rename.antt =====
-- room/admin.rs: the action "Update" keeps the tables consistent, the index of the names included.
use bc_server_rust.Base.{
  String, true, false, not, ◌&&◌, ◌≡◌, refl, sym, ◌∙◌, ◌≢◌, some, inl, inr, arith, if◌then◌else◌,
  ◌==◌, ==_iff, ==_refl, ==_ne, int_eq, string_eq, Bool-cases, Option-cases,
}
use bc_server_rust.Base.HashMap
use bc_server_rust.Base.HashMap.{HashMap, get-insert, get-remove, any-get}
use bc_server_rust.Json.{Value}
use bc_server_rust.State.Platform.{Platform}
use bc_server_rust.State.ChatRoom.{ChatRoom}
use bc_server_rust.State.Account.{OnlineAccount}
use bc_server_rust.State.World.{World, room_key, room_name_exists_any}
use bc_server_rust.State.Consistency.{IsConsistent, colon_free}
use bc_server_rust.State.RoomKey.{room_key_name}
use bc_server_rust.Room.Admin.Edit.{Keeps, edited-IsConsistent}
use bc_server_rust.Room.Admin.Update.{RoomUpdate, read_update, updated, store_update, apply_update}

module _ (P : Platform) (w : World) (v : IsConsistent P w) (r : ChatRoom) (u : RoomUpdate)
    (here : HashMap.get w.chat_rooms r.id ≡ some r)
    (unused : (not (P.to_uppercase r.name == P.to_uppercase u.name)
        && room_name_exists_any P w u.name)
      ≡ false) where
  new_key : String
  new_key = room_key P r.environment u.name

  old_key : String
  old_key = room_key P r.environment r.name

  -- A room with the new name, in any case, is the one that is renamed.
  apart :
      (q : String) (y : ChatRoom)
      → HashMap.get w.chat_rooms q ≡ some y
      → P.to_uppercase y.name ≡ P.to_uppercase u.name
      → r.id ≡ q
  unfolding room_name_exists_any
  apart q y g e = elim (Bool-cases (P.to_uppercase r.name == P.to_uppercase u.name)) [
    | inl s ↦
        v.unique r.id q r y here g
          ((==_iff (P.to_uppercase r.name) (P.to_uppercase u.name)).0 s ∙ sym e)
    | inr n ↦ absurd (
        ground (
          arith,
          any-get (λ (z : ChatRoom). P.to_uppercase z.name == P.to_uppercase u.name) w.chat_rooms q
              y g ((==_iff (P.to_uppercase y.name) (P.to_uppercase u.name)).1 e),
        ))
  ]

  keeps : Keeps r (updated u r)
  unfolding updated
  keeps = record { id = refl; environment = refl; listed = λ m. refl; distinct = λ d. d }

  -- No other room stands under the old key or the new one.
  key-other :
      (q : String) (y : ChatRoom)
      → HashMap.get w.chat_rooms q ≡ some y
      → r.id ≢ q
      → (old_key ≢ room_key P y.environment y.name) × (new_key ≢ room_key P y.environment y.name)
  unfolding old_key new_key
  key-other q y g ne = (
    λ e. ne (
        v.unique r.id q r y here g
          (room_key_name P r.environment y.environment r.name y.name home (away q y g) e)),
    λ e. ne (
        apart q y g
          (sym (room_key_name P r.environment y.environment u.name y.name home (away q y g) e))),
  )
    where
      away :
          (q : String) (y : ChatRoom)
          → HashMap.get w.chat_rooms q ≡ some y
          → colon_free y.environment ≡ true
      away q y g = let (_, _, _, _, c) = v.room q y g in c

      home : colon_free r.environment ≡ true
      home = away r.id r here

  after : HashMap String String
  after =
      if old_key == new_key
      then w.room_by_name_env
      else HashMap.insert (HashMap.remove w.room_by_name_env old_key) new_key r.id

  indexed : HashMap.get after new_key ≡ some r.id
  unfolding after old_key
  indexed = ground (
    arith,
    get-insert (HashMap.remove w.room_by_name_env old_key) new_key new_key r.id,
    ==_refl new_key,
    ==_iff old_key new_key,
    v.room r.id r here,
  )

  indexed_others :
      (q : String) (y : ChatRoom)
      → HashMap.get w.chat_rooms q ≡ some y
      → r.id ≢ q
      → HashMap.get after (room_key P y.environment y.name) ≡ some q
  unfolding after
  indexed_others q y g ne =
      let (old, new) = key-other q y g ne in
      ground (
        arith,
        get-insert (HashMap.remove w.room_by_name_env old_key) new_key
            (room_key P y.environment y.name) r.id,
        get-remove w.room_by_name_env old_key (room_key P y.environment y.name),
        ==_ne old_key (room_key P y.environment y.name) old,
        ==_ne new_key (room_key P y.environment y.name) new,
        v.room q y g,
      )

  world-store_update : store_update P w u r ≡ (record w {
    chat_rooms = HashMap.adjust w.chat_rooms r.id (updated u);
    room_by_name_env = after;
  })
  unfolding store_update after old_key new_key updated
  world-store_update =
      elim (Bool-cases (room_key P r.environment r.name == room_key P r.environment u.name)) [
        | inl e ↦ rw e refl
        | inr e ↦ rw e refl
      ]

  pub store_update-IsConsistent : IsConsistent P (store_update P w u r)
  unfolding updated new_key
  store_update-IsConsistent =
      rw world-store_update
        (edited-IsConsistent P w v r.id r (updated u) after here keeps indexed indexed_others apart)

-- The action "Update" keeps the world consistent, whatever it is sent.
pub apply_update-IsConsistent :
    (P : Platform) (w : World) (acc : OnlineAccount) (r : ChatRoom) (d : Value)
    → IsConsistent P w
    → HashMap.get w.chat_rooms r.id ≡ some r
    → IsConsistent P (apply_update P w acc r d).0
unfolding apply_update
apply_update-IsConsistent P w acc r d v here = elim (Option-cases (read_update d)) [
  | inl e ↦ rw (e, apply_update) v
  | inr (u, e) ↦
      elim (Bool-cases
        (not (P.to_uppercase r.name == P.to_uppercase u.name) && room_name_exists_any P w u.name)) [
          | inl h ↦ rw (e, h, apply_update) v
          | inr h ↦ rw (e, h, apply_update) (store_update-IsConsistent P w v r u here h)
        ]
]
