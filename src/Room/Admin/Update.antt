-- ===== src/Room/Admin/Update.antt =====
-- room/admin.rs: `apply_update`.
use Prim.Native.String
use bc_server_rust.Base.{
  String, Bool, not, ◌&&◌, Option, none, some, List, [], ◌∷◌, filter_map, all, leb, if◌then◌else◌,
  ◌==◌, string_eq, int_eq,
}
use bc_server_rust.Base.HashMap
use bc_server_rust.Base.HashMap.{map_option}
use bc_server_rust.Base.Text.{trim, to_string}
use bc_server_rust.Json.{
  Value, text, array, to_list, get_field, str_field, bool_field, as_str, as_i64, as_array,
  is_object, is_null, is_some, unwrap_or, json_array, json_object, ◌>>=◌,
}
use bc_server_rust.Protocol.{MemberNumber, Emission}
use bc_server_rust.State.Platform.{Platform}
use bc_server_rust.State.ChatRoom.{ChatRoom, room_limit_default}
use bc_server_rust.State.Account.{OnlineAccount}
use bc_server_rust.State.World.{World, update_room, room_key, room_name_exists_any}
use bc_server_rust.Util.Validate.{is_chat_room_name, chat_room_description_max_length}
use bc_server_rust.Room.Leave.{source_character}
use bc_server_rust.Room.Create.{excludes_all, visibility_of, access_of, room_limit}
use bc_server_rust.Room.Admin.Effects.{AdminEffects, answer, props_of, action_of_room}

-- The new properties, checked and completed.
pub record RoomUpdate : Type 0 where
  pub name : String
  pub description : String
  pub background : String
  pub admin : List MemberNumber
  pub ban : List MemberNumber
  pub visibility : Option (List String)
  pub access : Option (List String)
  pub is_private : Option Bool
  pub locked : Option Bool
  pub room_data : Value

-- A list whose every element is an integer.
abbrev member_list : Option Value → Option (List MemberNumber)
member_list (some (array vs)) =
    if all (λ v. is_some (as_i64 v)) (to_list vs)
    then some (filter_map as_i64 (to_list vs))
    else none
member_list _ = none

-- The texts, or the integers, among the elements of a list.
abbrev pub texts_in : Value → Option (List String)
texts_in v = map_option (filter_map as_str) (as_array v)

abbrev numbers_in : Value → Option (List MemberNumber)
numbers_in v = map_option (filter_map as_i64) (as_array v)

-- The legacy flag from the list, and the list from the flag where it is missing.
abbrev pub fill_flag : Option (List String) → Option Bool → Option Bool
fill_flag none flag = flag
fill_flag (some roles) flag = some (excludes_all roles)

abbrev pub fill_roles :
    (Bool → List String) → Option (List String) → Option Bool → Option (List String)
fill_roles f none flag = map_option f flag
fill_roles f (some roles) flag = some roles

abbrev is_acceptable : String → String → String → Bool
is_acceptable name description background =
    is_chat_room_name name
    && leb (String.count description) chat_room_description_max_length
    && leb (String.len background) 100

unfoldable pub read_update : Value → Option RoomUpdate
read_update d = do
  room_data ← get_field d "Room" >>= λ v. if is_object v then some v else none
  raw ← str_field room_data "Name"
  let name = trim raw
  description ← str_field room_data "Description"
  background ← str_field room_data "Background"
  admin ←
      if is_acceptable name description background
      then member_list (get_field room_data "Admin")
      else none
  ban ← member_list (get_field room_data "Ban")
  let roles = get_field room_data "Visibility" >>= texts_in
  let access = get_field room_data "Access" >>= texts_in
  let is_private = bool_field room_data "Private"
  let locked = bool_field room_data "Locked"
  some (record {
    name = name;
    description = description;
    background = background;
    admin = admin;
    ban = ban;
    visibility = fill_roles visibility_of roles is_private;
    access = fill_roles access_of access locked;
    is_private = fill_flag roles is_private;
    locked = fill_flag access locked;
    room_data = room_data;
  })

-- The custom data as sent, and the map data unless it is null.
abbrev custom_or : Option Value → Option Value → Option Value
custom_or none old = old
custom_or (some c) old = some c

abbrev map_data_or : Option Value → Option Value → Option Value
map_data_or none old = old
map_data_or (some m) old = if is_null m then none else some m

abbrev short_game : Option String → String
short_game none = ""
short_game (some g) = if leb (String.len g) 100 then g else ""

unfoldable pub updated : RoomUpdate → ChatRoom → ChatRoom
unfolding room_limit
updated u r = record r {
  name = u.name;
  description = u.description;
  background = u.background;
  admin = u.admin;
  ban = u.ban;
  language = unwrap_or (str_field u.room_data "Language") r.language;
  custom = custom_or (get_field u.room_data "Custom") r.custom;
  block_category = unwrap_or (get_field u.room_data "BlockCategory" >>= texts_in) [];
  whitelist = unwrap_or (get_field u.room_data "Whitelist" >>= numbers_in) r.whitelist;
  game = short_game (str_field u.room_data "Game");
  limit = elim (get_field u.room_data "Limit") [
    | none ↦ room_limit_default
    | some v ↦ room_limit v
  ];
  visibility = unwrap_or u.visibility r.visibility;
  access = unwrap_or u.access r.access;
  is_private = unwrap_or u.is_private r.is_private;
  locked = unwrap_or u.locked r.locked;
  map_data = map_data_or (get_field u.room_data "MapData") r.map_data;
}

abbrev update_dict : OnlineAccount → ChatRoom → Value
update_dict acc r = json_array (
    source_character acc.name acc.member_number
    ∷ json_object (("Tag", text "ChatRoomName") ∷ ("Text", text r.name) ∷ [])
    ∷ json_object (("Tag", text "ChatRoomLimit") ∷ ("Text", text (to_string r.limit)) ∷ [])
    ∷ json_object (
        ("Tag", text "ChatRoomPrivacy")
        ∷ ("TextToLookUp", text (if excludes_all r.visibility then "Private" else "Public"))
        ∷ [])
    ∷ json_object (
        ("Tag", text "ChatRoomLocked")
        ∷ ("TextToLookUp", text (if excludes_all r.access then "Locked" else "Unlocked"))
        ∷ [])
    ∷ [])

unfoldable pub update_effect : OnlineAccount → ChatRoom → AdminEffects
update_effect acc r = record {
  props = some (props_of r acc.member_number);
  reorder = none;
  action = action_of_room r acc "ServerUpdateRoom" (update_dict acc r);
  update_resp = some "Updated";
}

module _ (P : Platform) where
  open P use {to_uppercase}

  -- The index follows the name.
  abbrev rename : ChatRoom → ChatRoom → World → World
  rename old new w =
      let old_key = room_key P old.environment old.name in
      let new_key = room_key P new.environment new.name in
      if old_key == new_key then w else record w {
        room_by_name_env =
            HashMap.insert (HashMap.remove w.room_by_name_env old_key) new_key old.id;
      }

  unfoldable pub store_update : World → RoomUpdate → ChatRoom → World
  unfolding updated
  store_update w u r = rename r (updated u r) (update_room w r.id (updated u))

  unfoldable pub apply_update :
      World → OnlineAccount → ChatRoom → Value → World × List Emission × AdminEffects
  unfolding store_update read_update update_effect room_name_exists_any
  apply_update w acc room d = elim (read_update d) [
    | none ↦ (w, [], answer "InvalidRoomData")
    | some u ↦
        if not (to_uppercase room.name == to_uppercase u.name) && room_name_exists_any P w u.name
        then (w, [], answer "RoomAlreadyExist")
        else (store_update w u room, [], update_effect acc (updated u room))
  ]
