-- ===== src/State/Account.antt =====
-- state/account.rs: the session of an account that is online.
pub mod Privacy
use bc_server_rust.Base.{
  String, Bool, ◌||◌, Option, none, some, List, [], ◌∷◌, ℤ, pos, wrap_i32, ltb_ℤ, fits_i64,
  contains, filter_map, retain, is_empty, if◌then◌else◌, ◌==◌, int_eq, string_eq,
}
use bc_server_rust.Base.Text.{is_empty_text, parse_i64, trim_matches}
use bc_server_rust.Json.{
  Value, null, int, float, text, array, object, Fields, end, field, find_field, insert_field,
  remove_fields, has_field, to_list, json_array, unwrap_or,
}
use bc_server_rust.Protocol.{MemberNumber}
use bc_server_rust.State.Platform.{Platform}
use bc_server_rust.State.ChatRoom.{member_list_json}

pub record OnlineAccount : Type 0 where
  pub socket_id : String
  pub account_name : String
  pub member_number : MemberNumber
  pub name : String
  pub environment : String
  pub creation : ℤ
  pub item_permission : ℤ  -- i32
  pub white_list : List MemberNumber
  pub black_list : List MemberNumber
  pub friend_list : List MemberNumber
  pub ownership : Option Value
  pub owner : String
  pub lovership : List Value
  pub difficulty : Option Value
  pub appearance : Option Value
  pub inventory_data : Option Value
  pub arousal_settings : Option Value
  pub online_shared_settings : Option Value
  pub game : Option Value
  pub map_data : Option Value
  pub label_color : Option String
  pub reputation : Option Value
  pub description : Option String
  pub block_items : Option Value
  pub limited_items : Option Value
  pub favorite_items : Option Value
  pub title : Option String
  pub nickname : Option String
  pub crafting : Option Value
  pub pose : Option Value
  pub active_pose : Option Value
  pub chat_room_id : Option String
  pub delayed_appearance : Option Value
  pub delayed_skill : Option Value
  pub delayed_game : Option Value
  pub extra : Fields
  pub logged_in_at : ℤ

module _ (P : Platform) where
  open P use {f64_to_i64, value_to_string}

  -- `obj.remove(key)` with the result read as a string, an integer or a list of integers.
  unfoldable pub take_string : Fields → String → Option String
  take_string obj key = elim (find_field obj key) [
    | none ↦ none
    | some v ↦ elim v [ text s ↦ some s | other ↦ some (trim_matches b'"' (value_to_string other)) ]
  ]

  -- `as_i64()`, and else the cast of `as_f64()`, which saturates above `i64::MAX`.
  unfoldable pub number_to_i64 : Value → Option ℤ
  number_to_i64 (int n) = if fits_i64 n then some n else some (pos 0x7fffffffffffffff)
  number_to_i64 (float bits) = some (f64_to_i64 bits)
  number_to_i64 _ = none

  unfoldable pub take_i64 : Fields → String → Option ℤ
  unfolding number_to_i64
  take_i64 obj key = elim (find_field obj key) [
    | none ↦ none
    | some v ↦ elim v [ text s ↦ parse_i64 s | other ↦ number_to_i64 other ]
  ]

  unfoldable pub take_member_list : Fields → String → List MemberNumber
  unfolding number_to_i64
  take_member_list obj key = elim (find_field obj key) [
    | none ↦ []
    | some v ↦ elim v [ array vs ↦ filter_map number_to_i64 (to_list vs) | _ ↦ [] ]
  ]

  abbrev lovership_of : Option Value → List Value
  lovership_of none = []
  lovership_of (some null) = []
  lovership_of (some (array vs)) = to_list vs
  lovership_of (some v) = v ∷ []

  -- The keys that `from_db_doc` removes from the document: each becomes a field or is dropped.
  abbrev pub taken_keys : List String
  taken_keys =
      "AccountName" ∷ "MemberNumber" ∷ "Name" ∷ "Creation" ∷ "ItemPermission" ∷ "WhiteList"
      ∷ "BlackList" ∷ "FriendList" ∷ "Ownership" ∷ "Owner" ∷ "Lovership" ∷ "Difficulty"
      ∷ "Appearance" ∷ "InventoryData" ∷ "ArousalSettings" ∷ "OnlineSharedSettings" ∷ "Game"
      ∷ "MapData" ∷ "LabelColor" ∷ "Reputation" ∷ "Description" ∷ "BlockItems" ∷ "LimitedItems"
      ∷ "FavoriteItems" ∷ "Title" ∷ "Nickname" ∷ "Crafting" ∷ "Pose" ∷ "ActivePose" ∷ "Password"
      ∷ "Email" ∷ "_id" ∷ []

  unfoldable pub from_db_doc : String → String → Fields → ℤ → OnlineAccount
  unfolding take_string take_i64 take_member_list
  from_db_doc socket_id environment obj now = record {
    socket_id = socket_id;
    account_name = unwrap_or (take_string obj "AccountName") "";
    member_number = unwrap_or (take_i64 obj "MemberNumber") (pos 0);
    name = unwrap_or (take_string obj "Name") "";
    environment = environment;
    creation = unwrap_or (take_i64 obj "Creation") now;
    item_permission = wrap_i32 (unwrap_or (take_i64 obj "ItemPermission") (pos 2));
    white_list = take_member_list obj "WhiteList";
    black_list = take_member_list obj "BlackList";
    friend_list = take_member_list obj "FriendList";
    ownership = find_field obj "Ownership";
    owner = unwrap_or (take_string obj "Owner") "";
    lovership = lovership_of (find_field obj "Lovership");
    difficulty = find_field obj "Difficulty";
    appearance = find_field obj "Appearance";
    inventory_data = find_field obj "InventoryData";
    arousal_settings = find_field obj "ArousalSettings";
    online_shared_settings = find_field obj "OnlineSharedSettings";
    game = find_field obj "Game";
    map_data = find_field obj "MapData";
    label_color = take_string obj "LabelColor";
    reputation = find_field obj "Reputation";
    description = take_string obj "Description";
    block_items = find_field obj "BlockItems";
    limited_items = find_field obj "LimitedItems";
    favorite_items = find_field obj "FavoriteItems";
    title = take_string obj "Title";
    nickname = take_string obj "Nickname";
    crafting = find_field obj "Crafting";
    pose = find_field obj "Pose";
    active_pose = find_field obj "ActivePose";
    chat_room_id = none;
    delayed_appearance = none;
    delayed_skill = none;
    delayed_game = none;
    extra = remove_fields obj taken_keys;
    logged_in_at = now;
  }

-- `if let Some(v) = o { map.insert(key, v) }`.
abbrev pub insert_some : String → Option Value → Fields → Fields
insert_some k none fs = fs
insert_some k (some v) fs = insert_field fs k v

abbrev pub insert_text : String → Option String → Fields → Fields
insert_text k none fs = fs
insert_text k (some s) fs = insert_field fs k (text s)

-- `map.entry(k).or_insert(v)`.
abbrev pub or_insert : Fields → String → Value → Fields
or_insert fs k v = if has_field fs k then fs else insert_field fs k v

unfoldable pub or_insert_all : Fields → Fields → Fields
or_insert_all fs end = fs
or_insert_all fs (field k v more) = or_insert_all (or_insert fs k v) more

-- The fields that every response has, in the order of insertion.
unfoldable pub base_fields : OnlineAccount → Fields
base_fields a =
    let m = insert_field end "ID" (text a.socket_id) in
    let m = insert_field m "AccountName" (text a.account_name) in
    let m = insert_field m "MemberNumber" (int a.member_number) in
    let m = insert_field m "Name" (text a.name) in
    let m = insert_field m "Creation" (int a.creation) in
    let m = insert_field m "ItemPermission" (int a.item_permission) in
    let m =
      if has_field a.extra "AssetFamily"
      then m
      else insert_field m "AssetFamily" (text "Female3DCG") in
    let m = insert_field m "WhiteList" (member_list_json a.white_list) in
    let m = insert_field m "BlackList" (member_list_json a.black_list) in
    let m = insert_field m "FriendList" (member_list_json a.friend_list) in
    let m = insert_field m "Lovership" (json_array a.lovership) in
    insert_field m "Environment" (text a.environment)

unfoldable pub optional_fields : OnlineAccount → Fields → Fields
optional_fields a m =
    let m = insert_some "Ownership" a.ownership m in
    let m = if is_empty_text a.owner then m else insert_field m "Owner" (text a.owner) in
    let m = insert_some "Difficulty" a.difficulty m in
    let m = insert_some "Appearance" a.appearance m in
    let m = insert_some "InventoryData" a.inventory_data m in
    let m = insert_some "ArousalSettings" a.arousal_settings m in
    let m = insert_some "OnlineSharedSettings" a.online_shared_settings m in
    let m = insert_some "Game" a.game m in
    let m = insert_some "MapData" a.map_data m in
    let m = insert_text "LabelColor" a.label_color m in
    let m = insert_some "Reputation" a.reputation m in
    let m = insert_text "Description" a.description m in
    let m = insert_some "BlockItems" a.block_items m in
    let m = insert_some "LimitedItems" a.limited_items m in
    let m = insert_some "FavoriteItems" a.favorite_items m in
    let m = insert_text "Title" a.title m in
    let m = insert_text "Nickname" a.nickname m in
    let m = insert_some "Crafting" a.crafting m in
    let m = insert_some "Pose" a.pose m in insert_some "ActivePose" a.active_pose m

unfoldable pub login_fields : OnlineAccount → Fields
unfolding base_fields optional_fields or_insert_all
login_fields a = or_insert_all (optional_fields a (base_fields a)) a.extra

unfoldable pub to_login_response : OnlineAccount → Value
unfolding login_fields
to_login_response a = object (login_fields a)

abbrev pub purged_keys : List String
purged_keys =
    "Log" ∷ "Skill" ∷ "Wardrobe" ∷ "WardrobeCharacterNames" ∷ "ChatSettings" ∷ "VisualSettings"
    ∷ "AudioSettings" ∷ "GameplaySettings" ∷ "GhostList" ∷ "HiddenItems" ∷ "LastLogin" ∷ "Password"
    ∷ "Email" ∷ []

unfoldable pub purge_after_login : OnlineAccount → OnlineAccount
purge_after_login a = record a { extra = remove_fields a.extra purged_keys }

-- The keys that no peer in a room may see.
abbrev pub private_keys : List String
private_keys =
    "Money" ∷ "FriendList" ∷ "AccountName" ∷ "Password" ∷ "Email" ∷ "Environment" ∷ "Pose" ∷ "Log"
    ∷ "Skill" ∷ "Wardrobe" ∷ "WardrobeCharacterNames" ∷ "ChatSettings" ∷ "VisualSettings"
    ∷ "AudioSettings" ∷ "GameplaySettings" ∷ "GhostList" ∷ "HiddenItems" ∷ "LastLogin"
    ∷ "OnlineSettings" ∷ "GraphicsSettings" ∷ "NotificationSettings" ∷ "ControllerSettings"
    ∷ "ImmersionSettings" ∷ "RestrictionSettings" ∷ "GenderSettings" ∷ "ExtensionSettings"
    ∷ "FriendNames" ∷ "SubmissivesList" ∷ []

abbrev pub should_send_blacklist : ℤ → Bool
should_send_blacklist p = p == pos 1 || p == pos 2

unfoldable pub synced_fields : OnlineAccount → List MemberNumber → Fields
unfolding login_fields
synced_fields a room_members =
    let m =
      remove_fields (or_insert (login_fields a) "AssetFamily" (text "Female3DCG")) private_keys in
    if is_empty room_members
    then m
    else (let present = retain (contains room_members) in
        let black = if should_send_blacklist a.item_permission then present a.black_list else [] in
        insert_field (insert_field m "WhiteList" (member_list_json (present a.white_list)))
          "BlackList" (member_list_json black))

unfoldable pub to_synced_character_for_room : OnlineAccount → List MemberNumber → Value
unfolding synced_fields
to_synced_character_for_room a room_members = object (synced_fields a room_members)

unfoldable pub ensure_defaults : OnlineAccount → OnlineAccount
ensure_defaults a =
    if ltb_ℤ a.item_permission (pos 0) || ltb_ℤ (pos 5) a.item_permission
    then record a { item_permission = pos 2 }
    else a
