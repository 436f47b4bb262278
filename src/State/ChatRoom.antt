-- ===== src/State/ChatRoom.antt =====
-- state/chatroom.rs.
use Prim.Native.String.{◌++◌}
use bc_server_rust.Base.{
  String, Bool, false, Option, none, some, List, [], ◌∷◌, ◌++◌ as append, map, ℤ, pos, leb_ℤ,
  length, wrap_i32,
}
use bc_server_rust.Json.{Value, text, int, bool, json_array, json_object}
use bc_server_rust.Protocol.{MemberNumber}

abbrev pub room_limit_default : ℤ
room_limit_default = pos 10

abbrev pub room_limit_minimum : ℤ
room_limit_minimum = pos 2

abbrev pub room_limit_maximum : ℤ
room_limit_maximum = pos 20

pub record ChatRoom : Type 0 where
  pub id : String
  pub name : String
  pub description : String
  pub background : String
  pub environment : String
  pub creator : String
  pub creator_member_number : MemberNumber
  pub creation : ℤ
  pub admin : List MemberNumber
  pub whitelist : List MemberNumber
  pub ban : List MemberNumber
  pub limit : ℤ  -- i32
  pub game : String
  pub visibility : List String
  pub access : List String
  pub is_private : Bool
  pub locked : Bool
  pub block_category : List String
  pub language : String
  pub space : String
  pub map_data : Option Value
  pub custom : Option Value
  pub members : List MemberNumber

unfoldable pub new : String → String → String → String → MemberNumber → ℤ → ChatRoom
new id name environment creator creator_member_number now = record {
  id = id;
  name = name;
  description = "";
  background = "Introduction";
  environment = environment;
  creator = creator;
  creator_member_number = creator_member_number;
  creation = now;
  admin = creator_member_number ∷ [];
  whitelist = [];
  ban = [];
  limit = room_limit_default;
  game = "";
  visibility = "All" ∷ [];
  access = "All" ∷ [];
  is_private = false;
  locked = false;
  block_category = [];
  language = "EN";
  space = "";
  map_data = none;
  custom = none;
  members = [];
}

unfoldable pub is_full : ChatRoom → Bool
unfolding wrap_i32
is_full r = leb_ℤ r.limit (wrap_i32 (pos (length r.members)))

abbrev pub socket_room_name : ChatRoom → String
socket_room_name r = "chatroom-" ++ r.id

abbrev pub member_list_json : List MemberNumber → Value
member_list_json l = json_array (map int l)

abbrev pub text_list_json : List String → Value
text_list_json l = json_array (map text l)

abbrev optional_field : String → Option Value → List (String × Value)
optional_field k none = []
optional_field k (some v) = (k, v) ∷ []

unfoldable pub properties : ChatRoom → List (String × Value)
properties r = append (optional_field "MapData" r.map_data) (
    append (optional_field "Custom" r.custom) (
      ("Name", text r.name)
      ∷ ("Description", text r.description)
      ∷ ("Admin", member_list_json r.admin)
      ∷ ("Whitelist", member_list_json r.whitelist)
      ∷ ("Ban", member_list_json r.ban)
      ∷ ("Background", text r.background)
      ∷ ("Limit", int r.limit)
      ∷ ("Game", text r.game)
      ∷ ("Visibility", text_list_json r.visibility)
      ∷ ("Access", text_list_json r.access)
      ∷ ("Private", bool r.is_private)
      ∷ ("Locked", bool r.locked)
      ∷ ("BlockCategory", text_list_json r.block_category)
      ∷ ("Language", text r.language)
      ∷ ("Space", text r.space)
      ∷ []))

unfoldable pub to_properties_json : ChatRoom → Value
unfolding properties
to_properties_json r = json_object (properties r)
