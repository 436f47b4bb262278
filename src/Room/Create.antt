-- ===== src/Room/Create.antt =====
-- room/mod.rs: `handle_chat_room_create`.
pub mod Consistency
use Prim.Native.String
use bc_server_rust.Base.{
  ℕ, String, Bool, true, false, not, ◌&&◌, ◌||◌, Option, none, some, List, [], ◌∷◌, ◌++◌, contains,
  filter_map, all, push, length, ℤ, pos, wrap_i32, leb, ltb, leb_ℤ, if◌then◌else◌, ◌==◌, int_eq,
  string_eq, same_bool,
}
use bc_server_rust.Base.HashMap.{map_option}
use bc_server_rust.Base.Text.{trim, parse_i64}
use bc_server_rust.Json.{
  Value, null, text, bool, array, object, nil, Fields, find_field, insert_field, to_list, get_field,
  str_field, as_str, as_i64, as_bool, as_array, is_array, is_boolean, is_string, is_i64, unwrap_or,
  ◌>>=◌,
}
use bc_server_rust.Protocol.{MemberNumber, Emission, emit, join}
use bc_server_rust.Protocol.Events
use bc_server_rust.State.Platform.{Platform}
use bc_server_rust.State.ChatRoom
use bc_server_rust.State.ChatRoom.{
  ChatRoom, socket_room_name, room_limit_default, room_limit_minimum, room_limit_maximum,
}
use bc_server_rust.State.Account.{OnlineAccount}
use bc_server_rust.State.World.{
  World, get_by_socket, update_account, insert_room, room_name_exists_any,
}
use bc_server_rust.Util.Validate.{is_chat_room_name, chat_room_description_max_length}
use bc_server_rust.Room.Leave.{leave_current, leave_room_inner}
use bc_server_rust.Room.Sync.{sync_room_to_member}

-- protocol/mod.rs.
pub record ChatRoomCreateRequest : Type 0 where
  pub name : String
  pub description : String
  pub background : String
  pub is_private : Option Bool
  pub locked : Option Bool
  pub visibility : Option (List String)
  pub access : Option (List String)
  pub space : Option String
  pub game : Option String
  pub admin : Option (List MemberNumber)
  pub ban : Option (List MemberNumber)
  pub whitelist : Option (List MemberNumber)
  pub limit : Option Value
  pub block_category : Option (List String)
  pub language : Option String
  pub map_data : Option Value
  pub custom : Option Value

-- An `Option` field of serde: absent or null, or a value that decodes.
abbrev pub optional {ℓ} : {A : Type ℓ} → (Value → Option A) → Option Value → Option (Option A)
optional f none = some none
optional f (some null) = some none
optional f (some v) = map_option some (f v)

-- A `Vec` field of serde: every element decodes.
abbrev pub each {ℓ} : {A : Type ℓ} → (Value → Option A) → List Value → Option (List A)
each f [] = some []
each f (v ∷ vs) = f v >>= λ a. each f vs >>= λ r. some (a ∷ r)

abbrev pub vec {ℓ} : {A : Type ℓ} → (Value → Option A) → Value → Option (List A)
vec f v = as_array v >>= each f

unfoldable pub decode_request : Fields → Option ChatRoomCreateRequest
decode_request fs = do
  name ← find_field fs "Name" >>= as_str
  description ← find_field fs "Description" >>= as_str
  background ← find_field fs "Background" >>= as_str
  is_private ← optional as_bool (find_field fs "Private")
  locked ← optional as_bool (find_field fs "Locked")
  visibility ← optional (vec as_str) (find_field fs "Visibility")
  access ← optional (vec as_str) (find_field fs "Access")
  space ← optional as_str (find_field fs "Space")
  game ← optional as_str (find_field fs "Game")
  admin ← optional (vec as_i64) (find_field fs "Admin")
  ban ← optional (vec as_i64) (find_field fs "Ban")
  whitelist ← optional (vec as_i64) (find_field fs "Whitelist")
  limit ← optional some (find_field fs "Limit")
  block_category ← optional (vec as_str) (find_field fs "BlockCategory")
  language ← optional as_str (find_field fs "Language")
  map_data ← optional some (find_field fs "MapData")
  custom ← optional some (find_field fs "Custom")
  some (record {
    name = name;
    description = description;
    background = background;
    is_private = is_private;
    locked = locked;
    visibility = visibility;
    access = access;
    space = space;
    game = game;
    admin = admin;
    ban = ban;
    whitelist = whitelist;
    limit = limit;
    block_category = block_category;
    language = language;
    map_data = map_data;
    custom = custom;
  })

-- Malformed optional lists and texts become null, and a malformed category list the empty one.
abbrev is_vec_of : (Value → Bool) → Option Value → Bool
is_vec_of p (some (array vs)) = all p (to_list vs)
is_vec_of p _ = false

abbrev null_unless_numbers : String → Fields → Fields
null_unless_numbers k fs = if is_vec_of is_i64 (find_field fs k) then fs else insert_field fs k null

abbrev null_unless_text : String → Fields → Fields
null_unless_text k fs = elim (find_field fs k) [
  | none ↦ fs
  | some v ↦ if is_string v then fs else insert_field fs k null
]

abbrev empty_unless_texts : String → Fields → Fields
empty_unless_texts k fs = elim (find_field fs k) [
  | none ↦ fs
  | some v ↦ if is_vec_of is_string (some v) then fs else insert_field fs k (array nil)
]

unfoldable pub normalize : Fields → Fields
normalize fs =
    let fs = null_unless_numbers "Admin" fs in
    let fs = null_unless_numbers "Ban" fs in
    let fs = null_unless_numbers "Whitelist" fs in
    let fs = null_unless_text "Space" fs in
    let fs = null_unless_text "Game" fs in
    let fs = null_unless_text "Language" fs in empty_unless_texts "BlockCategory" fs

abbrev pub excludes_all : List String → Bool
excludes_all roles = not (contains roles "All")

abbrev pub visibility_of : Bool → List String
visibility_of p = if p then "Admin" ∷ [] else "All" ∷ []

abbrev pub access_of : Bool → List String
access_of l = if l then "Admin" ∷ "Whitelist" ∷ [] else "All" ∷ []

abbrev fill_visibility : Bool → ChatRoomCreateRequest → ChatRoomCreateRequest
fill_visibility true r = elim r.visibility [
  | none ↦ r
  | some v ↦ record r { is_private = some (excludes_all v) }
]
fill_visibility false r = elim r.is_private [
  | none ↦ r
  | some p ↦ record r { visibility = some (visibility_of p) }
]

abbrev fill_access : Bool → ChatRoomCreateRequest → ChatRoomCreateRequest
fill_access true r = elim r.access [
  | none ↦ r
  | some a ↦ record r { locked = some (excludes_all a) }
]
fill_access false r = elim r.locked [
  | none ↦ record r { locked = some false; access = some ("All" ∷ []) }
  | some l ↦ record r { access = some (access_of l) }
]

abbrev is_valid_request : ChatRoomCreateRequest → Bool
is_valid_request r =
    is_chat_room_name r.name
    && leb (String.count r.description) chat_room_description_max_length
    && leb (String.len r.background) 100

abbrev holds : (Value → Bool) → Option Value → Bool
holds p none = false
holds p (some v) = p v

-- The request, checked and completed, or `none` for the answer "InvalidRoomData".
unfoldable pub read_request : Value → Option ChatRoomCreateRequest
unfolding decode_request normalize
read_request d = do
  name_raw ← str_field d "Name"
  let has_visibility = holds is_array (get_field d "Visibility")
  let has_private = holds is_boolean (get_field d "Private")
  let has_access = holds is_array (get_field d "Access")
  let has_locked = holds is_boolean (get_field d "Locked")
  fs ←
      if same_bool has_visibility has_private || (has_access && has_locked)
      then none
      else as_fields d
  decoded ← decode_request (normalize fs)
  let named = record decoded { name = trim name_raw }
  if is_valid_request named
      then some (fill_access has_access (fill_visibility has_visibility named))
      else none
  where
    as_fields : Value → Option Fields
    as_fields (object fs) = some fs
    as_fields _ = none

-- A limit from 2 to 20, and else 10.
abbrev number_or_default : Value → ℤ
number_or_default v = wrap_i32 (
    unwrap_or (elim (as_i64 v) [ none ↦ as_str v >>= parse_i64 | some n ↦ some n ])
      room_limit_default)

unfoldable pub room_limit : Value → ℤ
unfolding wrap_i32
room_limit v =
    let n = number_or_default v in
    if leb_ℤ room_limit_minimum n && leb_ℤ n room_limit_maximum then n else room_limit_default

abbrev short_text : Option String → String → String
short_text none d = d
short_text (some s) d = if leb (String.len s) 100 then s else d

-- The new room, with its creator in it.
unfoldable pub build_room : String → ℤ → OnlineAccount → ChatRoomCreateRequest → ChatRoom
unfolding ChatRoom.new room_limit
build_room id now acc r =
    let room = ChatRoom.new id r.name acc.environment acc.name acc.member_number now in
    let visibility = unwrap_or r.visibility room.visibility in
    let access = unwrap_or r.access room.access in
    record room {
      description = r.description;
      background = r.background;
      visibility = visibility;
      is_private = elim r.visibility [
        | none ↦ unwrap_or r.is_private room.is_private
        | some v ↦ excludes_all v
      ];
      access = access;
      locked = elim r.access [ none ↦ unwrap_or r.locked room.locked | some a ↦ excludes_all a ];
      space = short_text r.space room.space;
      game = short_text r.game room.game;
      admin = unwrap_or r.admin (acc.member_number ∷ []);
      ban = unwrap_or r.ban room.ban;
      whitelist = unwrap_or r.whitelist room.whitelist;
      limit = elim r.limit [ none ↦ room.limit | some v ↦ room_limit v ];
      block_category = unwrap_or r.block_category room.block_category;
      language = unwrap_or r.language room.language;
      map_data = r.map_data;
      custom = r.custom;
      members = push room.members acc.member_number;
    }

abbrev pub enter : String → OnlineAccount → OnlineAccount
enter room_id a = record a { chat_room_id = some room_id }

abbrev respond : String → String → List Emission
respond sid code = emit sid Events.chat_room_create_response (text code) ∷ []

module _ (P : Platform) where
  -- The room is in the world, and the session of its creator in the room.
  unfoldable pub open_room : String → ChatRoom → World → World
  unfolding insert_room
  open_room sid room w = update_account (insert_room P w room) sid (enter room.id)

  unfoldable pub create_for :
      String → String → ℤ → ChatRoomCreateRequest → OnlineAccount → World → World × List Emission
  unfolding open_room build_room room_name_exists_any leave_room_inner
  create_for sid room_id now r acc w =
      let (w1, left) = leave_current P acc w in
      let room = build_room room_id now acc r in
      let w2 = open_room sid room w1 in
      if room_name_exists_any P w r.name then (w, respond sid "RoomAlreadyExist") else (
        w2,
        left
            ++ (join sid (socket_room_name room)
                ∷ (respond sid "ChatRoomCreated"
                    ++ sync_room_to_member w2 sid room.id acc.member_number)),
      )

  -- `room_id` is the random id, and `now` the time of the call.
  unfoldable pub chat_room_create : String → String → ℤ → Value → World → World × List Emission
  unfolding create_for read_request
  chat_room_create sid room_id now d w = elim (read_request d) [
    | none ↦ (w, respond sid "InvalidRoomData")
    | some r ↦ elim (get_by_socket w sid) [
      | none ↦ (w, respond sid "AccountError")
      | some acc ↦ create_for sid room_id now r acc w
    ]
  ]
