-- ===== src/Tests/Search.antt =====
-- room/mod.rs and state/account.rs at concrete inputs: the search, and what a room is sent of an account.
use bc_server_rust.Base.{
  any, inl, IsIn, ◌⊎◌, ◌&&◌, ◌||◌, ◌==◌, List, ◌≤◌, ◌≡◌, refl, true, false, some, none, [], ◌∷◌,
  pos, length, all, contains, string_eq, int_eq,
}
use bc_server_rust.Base.HashMap.{values}
use bc_server_rust.Base.HashMap
use bc_server_rust.Base.Text.{trim}
use bc_server_rust.Util.Validate.{is_chat_room_name}
use bc_server_rust.Room.Roles.{has_any_role}
use bc_server_rust.Json.{find_field, insert_field}
use bc_server_rust.State.Platform.{plain}
use bc_server_rust.State.ChatRoom.{member_list_json, is_full}
use bc_server_rust.State.Account.{synced_fields}
use bc_server_rust.State.Account.Privacy.{find_field-synced_fields, synced_fields_lem}
use bc_server_rust.Room.Search.{Filter, is_listed, search_rooms}
use bc_server_rust.Room.Search.Listed.{IsNewestFirst, search_rooms-IsNewestFirst}
use bc_server_rust.Room.Search.Found.{
  IsFound, IsFullOfNewer, search_rooms-IsFound, search_rooms_lem,
}
use bc_server_rust.Tests.Room.{room}
use bc_server_rust.Protocol.{MemberNumber}
use bc_server_rust.Tests.World.{club, bea}

abbrev everything : Filter
everything = record {
  query = "";
  query_upper = "";
  include_full = true;
  show_locked = true;
  search_descs = false;
  spaces = "" ∷ [];
  languages = [];
  ignored = [];
  map_types = [];
  game_filter = "";
}

answered : IsIn room (search_rooms plain club bea everything)
unfolding IsIn search_rooms club find_field insert_field is_chat_room_name trim HashMap.get any
    HashMap.insert is_full contains has_any_role
answered = inl refl

search_rooms-IsFound_example :
    IsFound plain bea everything room × IsIn room (values club.chat_rooms)
search_rooms-IsFound_example = search_rooms-IsFound plain club bea everything room answered

search_rooms_lem_example :
    IsIn room (search_rooms plain club bea everything)
    ⊎ IsFullOfNewer 240 room (search_rooms plain club bea everything)
search_rooms_lem_example =
    let (found, there) = search_rooms-IsFound plain club bea everything room answered in
    search_rooms_lem plain club bea everything room there found

search_rooms-IsNewestFirst_example :
    IsNewestFirst (search_rooms plain club bea everything)
    × (length (search_rooms plain club bea everything) ≤ 240)
    × (all (is_listed plain bea everything) (search_rooms plain club bea everything) ≡ true)
search_rooms-IsNewestFirst_example = search_rooms-IsNewestFirst plain club bea everything

find_field-synced_fields_example : find_field (synced_fields bea (pos 1 ∷ [])) "AccountName" ≡ none
unfolding contains
find_field-synced_fields_example = find_field-synced_fields bea (pos 1 ∷ []) "AccountName" refl

synced_fields_lem_example :
    (white black : List MemberNumber) × (find_field (synced_fields bea (pos 1 ∷ [])) "WhiteList"
      ≡ some (member_list_json white))
    × (find_field (synced_fields bea (pos 1 ∷ [])) "BlackList" ≡ some (member_list_json black))
    × ((m : MemberNumber)
        → contains white m ≡ (contains bea.white_list m && contains (pos 1 ∷ []) m))
    × ((m : MemberNumber)
        → contains black m ≡ (
            (bea.item_permission == pos 1 || bea.item_permission == pos 2)
            && contains bea.black_list m
            && contains (pos 1 ∷ []) m))
synced_fields_lem_example = synced_fields_lem bea (pos 1 ∷ []) refl
