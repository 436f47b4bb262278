-- ===== src/Room/Search.antt =====
-- room/mod.rs: `handle_chat_room_search`.
pub mod Listed
pub mod Found
use Prim.Native.String
use bc_server_rust.Base.{
  ℕ, zero, suc, String, Bool, true, false, not, ◌&&◌, ◌||◌, Option, none, some, List, [], ◌∷◌, map,
  contains, filter_map, is_empty, length, pos, leb, ltb, leb_ℤ, if◌then◌else◌, ◌==◌, int_eq,
  string_eq,
}
use bc_server_rust.Base.HashMap.{values}
use bc_server_rust.Base.Text.{trim, contains_text, is_empty_text}
use bc_server_rust.Json.{
  Value, int, text, bool, array, to_list, json_array, json_object, get_field, str_field, bool_field,
  i64_field, unwrap_or, is_number, ◌>>=◌,
}
use bc_server_rust.Protocol.{MemberNumber, Emission, emit}
use bc_server_rust.Protocol.Events
use bc_server_rust.State.Platform.{Platform}
use bc_server_rust.State.ChatRoom.{ChatRoom, is_full, text_list_json}
use bc_server_rust.State.Account.{OnlineAccount}
use bc_server_rust.State.World.{World, get_by_socket, get_by_member}
use bc_server_rust.Util.Validate.{is_chat_room_name}
use bc_server_rust.Room.Roles.{has_any_role}

abbrev pub chat_room_search_max_results : ℕ
chat_room_search_max_results = 240

pub record Filter : Type 0 where
  pub query : String
  pub query_upper : String
  pub include_full : Bool
  pub show_locked : Bool
  pub search_descs : Bool
  pub spaces : List String
  pub languages : List String
  pub ignored : List String
  pub map_types : List String
  pub game_filter : String

-- `Some(s)` if the text passes the test.
abbrev text_if : (String → Bool) → Value → Option String
text_if p (text s) = if p s then some s else none
text_if p _ = none

-- The texts of a list that pass a test.
abbrev texts : (String → Bool) → Option Value → List String
texts p (some (array vs)) = filter_map (text_if p) (to_list vs)
texts p _ = []

-- One text that passes the first test, or those of a list that pass the second.
abbrev one_or_texts : (String → Bool) → (String → Bool) → Option Value → List String
one_or_texts p q (some (text s)) = if p s then s ∷ [] else []
one_or_texts p q o = texts q o

abbrev up_to_100 : String → Bool
up_to_100 s = leb (String.len s) 100

module _ (P : Platform) where
  open P use {to_uppercase}

  unfoldable pub read_filter : Value → String → Filter
  read_filter d query_raw = record {
    query = trim query_raw;
    query_upper = to_uppercase (trim query_raw);
    include_full = unwrap_or (bool_field d "FullRooms") false;
    show_locked = unwrap_or (bool_field d "ShowLocked") false;
    search_descs = unwrap_or (bool_field d "SearchDescs") false;
    spaces = one_or_texts up_to_100 up_to_100 (get_field d "Space");
    languages = one_or_texts (λ s. not (is_empty_text s)) (λ s. true) (get_field d "Language");
    ignored = map to_uppercase (texts is_chat_room_name (get_field d "Ignore"));
    map_types = texts (λ s. ltb (String.len s) 20) (get_field d "MapTypes");
    game_filter = unwrap_or (str_field d "Game" >>= λ g. if up_to_100 g then some g else none) "";
  }

  abbrev pub map_type_raw : ChatRoom → Option String
  map_type_raw r = r.map_data >>= λ m. str_field m "Type"

  abbrev pub has_map_type : List String → Option String → Bool
  has_map_type types none = false
  has_map_type types (some t) = contains types t

  abbrev pub name_matches : Filter → ChatRoom → Bool
  name_matches f r =
      is_empty_text f.query
      || contains_text (to_uppercase r.name) f.query
      || (f.search_descs && contains_text (to_uppercase r.description) f.query)

  -- The room passes every `continue` of the loop.
  unfoldable pub is_listed : OnlineAccount → Filter → ChatRoom → Bool
  is_listed acc f r =
      r.environment == acc.environment
      && (is_empty_text f.game_filter || r.game == f.game_filter)
      && (not (is_full r) || f.include_full)
      && contains f.spaces r.space
      && not (contains r.ban acc.member_number)
      && (is_empty f.languages || contains f.languages r.language)
      && name_matches f r
      && (to_uppercase r.name == f.query_upper || has_any_role acc r r.visibility)
      && (f.show_locked || has_any_role acc r r.access)
      && not (contains f.ignored (to_uppercase r.name))
      && (is_empty f.map_types || has_map_type f.map_types (map_type_raw r))

abbrev friend_json : String → OnlineAccount → Value
friend_json kind a =
    json_object (
      ("Type", text kind)
      ∷ ("MemberNumber", int a.member_number)
      ∷ ("MemberName", text a.name)
      ∷ [])

abbrev pub owner_number : OnlineAccount → Option MemberNumber
owner_number a = a.ownership >>= λ o. i64_field o "MemberNumber"

-- A submissive of the searcher, or else a mutual friend.
abbrev friend_entry : OnlineAccount → Option OnlineAccount → Option Value
friend_entry acc none = none
friend_entry acc (some a) =
    if is_number (owner_number a) acc.member_number
    then some (friend_json "Submissive" a)
    else if contains acc.friend_list a.member_number && contains a.friend_list acc.member_number
    then some (friend_json "Friend" a)
    else none

unfoldable pub room_friends : World → OnlineAccount → ChatRoom → List Value
room_friends w acc r = filter_map (λ m. friend_entry acc (get_by_member w m)) r.members

module _ (P : Platform) where
  unfoldable pub search_entry : World → OnlineAccount → ChatRoom → Value
  unfolding room_friends has_any_role
  search_entry w acc r = json_object (
      ("Name", text r.name)
      ∷ ("Language", text r.language)
      ∷ ("Creator", text r.creator)
      ∷ ("CreatorMemberNumber", int r.creator_member_number)
      ∷ ("Creation", int r.creation)
      ∷ ("MemberCount", int (pos (length r.members)))
      ∷ ("MemberLimit", int r.limit)
      ∷ ("Description", text r.description)
      ∷ ("BlockCategory", text_list_json r.block_category)
      ∷ ("Game", text r.game)
      ∷ ("Friends", json_array (room_friends w acc r))
      ∷ ("Space", text r.space)
      ∷ ("Visibility", text_list_json r.visibility)
      ∷ ("Access", text_list_json r.access)
      ∷ ("Locked", bool r.locked)
      ∷ ("Private", bool r.is_private)
      ∷ ("MapType", text (unwrap_or (map_type_raw P r) "Never"))
      ∷ ("CanJoin", bool (has_any_role acc r r.access))
      ∷ [])

-- The stable sort, newest first.
unfoldable pub insert_newest : ChatRoom → List ChatRoom → List ChatRoom
insert_newest r [] = r ∷ []
insert_newest r (x ∷ xs) =
    if leb_ℤ x.creation r.creation then r ∷ x ∷ xs else x ∷ insert_newest r xs

unfoldable pub newest_first : List ChatRoom → List ChatRoom
unfolding insert_newest
newest_first [] = []
newest_first (r ∷ rs) = insert_newest r (newest_first rs)

-- The rooms that the loop lists, until it has as many as `left`.
unfoldable pub collect : (ChatRoom → Bool) → ℕ → List ChatRoom → List ChatRoom
collect p left [] = []
collect p zero (r ∷ rs) = []
collect p (suc left) (r ∷ rs) =
    let taken = collect p left rs in
    let skipped = collect p (suc left) rs in if p r then r ∷ taken else skipped

module _ (P : Platform) where
  unfoldable pub search_rooms : World → OnlineAccount → Filter → List ChatRoom
  unfolding is_listed newest_first collect
  search_rooms w acc f =
      collect (is_listed P acc f) chat_room_search_max_results (newest_first (values w.chat_rooms))

  search_for : String → Value → String → Option OnlineAccount → World → List Emission
  unfolding search_rooms read_filter search_entry
  search_for sid d query none w = []
  search_for sid d query (some acc) w =
      emit sid Events.chat_room_search_result
        (json_array (map (search_entry P w acc) (search_rooms w acc (read_filter P d query))))
      ∷ []

  unfoldable pub chat_room_search : String → Value → World → World × List Emission
  unfolding search_for
  chat_room_search sid d w = elim (str_field d "Query") [
    | none ↦ (w, [])
    | some query ↦ (
      w,
      if ltb 20 (String.len query) then [] else search_for sid d query (get_by_socket w sid) w,
    )
  ]
