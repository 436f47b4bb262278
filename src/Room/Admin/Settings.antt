-- ===== src/Room/Admin/Settings.antt =====
-- room/mod.rs and room/admin.rs: the limit of a room, and the flags beside its lists of roles.
use bc_server_rust.Base.{
  ℤ, pos, leb_ℤ, String, Bool, true, false, ◌≡◌, refl, sym, Option, none, some, List, arith,
  contains, int_eq, string_eq,
}
use bc_server_rust.Json.{Value, get_field, bool_field, unwrap_or, ◌>>=◌}
use bc_server_rust.State.ChatRoom
use bc_server_rust.State.ChatRoom.{ChatRoom}
use bc_server_rust.State.Account.{OnlineAccount}
use bc_server_rust.Room.Create.{
  ChatRoomCreateRequest, build_room, room_limit, excludes_all, visibility_of, access_of,
}
use bc_server_rust.Room.Admin.Update.{
  RoomUpdate, read_update, updated, texts_in, fill_flag, fill_roles,
}

abbrev pub IsLimit : ℤ → Type 0
IsLimit n = (leb_ℤ (pos 2) n ≡ true) × (leb_ℤ n (pos 20) ≡ true)

room_limit-IsLimit : (v : Value) → IsLimit (room_limit v)
unfolding room_limit
room_limit-IsLimit v = ground arith

IsLimit-or : (o : Option Value) → IsLimit (elim o [ none ↦ pos 10 | some v ↦ room_limit v ])
IsLimit-or none = (refl, refl)
IsLimit-or (some v) = room_limit-IsLimit v

-- A new room and a room that is updated have a limit from 2 to 20, whatever limit is asked for.
pub build_room-IsLimit :
    (id : String) (now : ℤ) (acc : OnlineAccount) (req : ChatRoomCreateRequest) (u : RoomUpdate)
    (r : ChatRoom)
    → IsLimit (build_room id now acc req).limit × IsLimit (updated u r).limit
unfolding build_room updated ChatRoom.new
build_room-IsLimit id now acc req u r =
    (IsLimit-or req.limit, IsLimit-or (get_field u.room_data "Limit"))

-- The flags say what the lists of roles say.
pub record IsFlagged (r : ChatRoom) : Type 0 where
  pub visibility : r.is_private ≡ excludes_all r.visibility
  pub access : r.locked ≡ excludes_all r.access

filled :
    (f : Bool → List String) (roles : Option (List String)) (flag : Option Bool) (old : Bool)
    (old_roles : List String)
    → ((b : Bool) → excludes_all (f b) ≡ b)
    → old ≡ excludes_all old_roles
    → unwrap_or (fill_flag roles flag) old
      ≡ excludes_all (unwrap_or (fill_roles f roles flag) old_roles)
filled f none none old old_roles h e = e
filled f none (some b) old old_roles h e = sym (h b)
filled f (some roles) flag old old_roles h e = refl

excludes_all-visibility_of : (b : Bool) → excludes_all (visibility_of b) ≡ b
unfolding contains
excludes_all-visibility_of true = refl
excludes_all-visibility_of false = refl

excludes_all-access_of : (b : Bool) → excludes_all (access_of b) ≡ b
unfolding contains
excludes_all-access_of true = refl
excludes_all-access_of false = refl

-- The roles of an update that is read, and its flags.
read_update_roles :
    (d : Value) (u : RoomUpdate)
    → read_update d ≡ some u
    → (u.visibility
        ≡ fill_roles visibility_of
            (get_field u.room_data "Visibility" >>= texts_in)
            (bool_field u.room_data "Private"))
      × (u.is_private
          ≡ fill_flag
              (get_field u.room_data "Visibility" >>= texts_in)
              (bool_field u.room_data "Private"))
      × (u.access
          ≡ fill_roles access_of
              (get_field u.room_data "Access" >>= texts_in)
              (bool_field u.room_data "Locked"))
      × (u.locked
          ≡ fill_flag
              (get_field u.room_data "Access" >>= texts_in)
              (bool_field u.room_data "Locked"))
unfolding read_update
read_update_roles d u h = ground arith

-- A room whose flags say whether its lists of roles leave out "All" is such a room after an update.
pub updated-IsFlagged :
    (d : Value) (u : RoomUpdate) (r : ChatRoom)
    → read_update d ≡ some u
    → IsFlagged r
    → IsFlagged (updated u r)
unfolding updated
updated-IsFlagged d u r h v =
    let (a, b, c, e) = read_update_roles d u h in
    record {
      visibility =
          rw (a, b)
            (filled visibility_of (get_field u.room_data "Visibility" >>= texts_in)
              (bool_field u.room_data "Private") r.is_private r.visibility
              excludes_all-visibility_of v.visibility);
      access =
          rw (c, e)
            (filled access_of (get_field u.room_data "Access" >>= texts_in)
              (bool_field u.room_data "Locked") r.locked r.access excludes_all-access_of v.access);
    }
