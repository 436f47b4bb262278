-- ===== src/Tests/Settings.antt =====
-- The settings of a room, at concrete inputs.
use bc_server_rust.Base.{◌≡◌, refl, true, pos, some, none, [], ◌∷◌, contains, all, filter_map}
use bc_server_rust.Base.Text.{trim}
use bc_server_rust.Util.Validate.{is_chat_room_name}
use bc_server_rust.Json.{
  Value, text, bool, json_object, json_array, find_field, insert_field, to_list, from_list,
}
use bc_server_rust.Room.Create.{build_room}
use bc_server_rust.Room.Admin.Update.{RoomUpdate, read_update, updated}
use bc_server_rust.Room.Admin.Settings.{IsLimit, IsFlagged, build_room-IsLimit, updated-IsFlagged}
use bc_server_rust.Tests.World.{ann}
use bc_server_rust.Tests.Room.{room, request}

abbrev settings : Value
settings = json_object (
    ("Name", text "Den")
    ∷ ("Description", text "")
    ∷ ("Background", text "B")
    ∷ ("Private", bool true)
    ∷ ("Admin", json_array [])
    ∷ ("Ban", json_array [])
    ∷ [])

abbrev change : RoomUpdate
change = record {
  name = "Den";
  description = "";
  background = "B";
  admin = [];
  ban = [];
  visibility = some ("Admin" ∷ []);
  access = none;
  is_private = some true;
  locked = none;
  room_data = settings;
}

read : read_update (json_object (("Room", settings) ∷ [])) ≡ some change
unfolding read_update find_field insert_field is_chat_room_name trim all to_list from_list
    filter_map
read = refl

flagged : IsFlagged room
unfolding build_room contains
flagged = record { visibility = refl; access = refl }

build_room-IsLimit_example :
    IsLimit (build_room "r" (pos 5) ann request).limit × IsLimit (updated change room).limit
build_room-IsLimit_example = build_room-IsLimit "r" (pos 5) ann request change room

updated-IsFlagged_example : IsFlagged (updated change room)
updated-IsFlagged_example =
    updated-IsFlagged (json_object (("Room", settings) ∷ [])) change room read flagged
