-- ===== src/State/Account/Privacy.antt =====
-- state/account.rs: what the peers in a room are sent of an account.
use bc_server_rust.Base.{
  ◌≡◌, refl, ap, ◌&&◌, ◌||◌, ◌==◌, Bool, Bool-cases, inl, inr, pos, String, true, false, none, some,
  List, [], ◌∷◌, arith, contains, is_empty, retain, if◌then◌else◌, ==_iff, int_eq, string_eq,
}
use bc_server_rust.Json.{Value, text, Fields, find_field, insert_field, remove_fields}
use bc_server_rust.Json.Laws.{find_field-insert_field, find_field-remove_fields}
use bc_server_rust.Protocol.{MemberNumber}
use bc_server_rust.State.ChatRoom.{member_list_json}
use bc_server_rust.State.Account.{
  OnlineAccount, private_keys, synced_fields, login_fields, or_insert, should_send_blacklist,
}

-- The fields before the two lists are put in.
purged : OnlineAccount → Fields
purged a = remove_fields (or_insert (login_fields a) "AssetFamily" (text "Female3DCG")) private_keys

hidden :
    (a : OnlineAccount) (k : String)
    → contains private_keys k ≡ true
    → find_field (purged a) k ≡ none
unfolding purged
hidden a k h = ground (
  arith,
  find_field-remove_fields (or_insert (login_fields a) "AssetFamily" (text "Female3DCG"))
      private_keys k,
)

-- The two lists have other keys.
listed : contains private_keys "WhiteList" ≡ false
unfolding contains
listed = refl

blacklisted : contains private_keys "BlackList" ≡ false
unfolding contains
blacklisted = refl

-- The members of a list who are in the room.
abbrev pub present : List MemberNumber → List MemberNumber → List MemberNumber
present room = retain (contains room)

abbrev black : OnlineAccount → List MemberNumber → List MemberNumber
black a room = if should_send_blacklist a.item_permission then present room a.black_list else []

-- The two lists do not bring a private key in.
find_field-insert_lists :
    (m : Fields) (x y : Value) (k : String)
    → contains private_keys k ≡ true
    → find_field m k ≡ none
    → find_field (insert_field (insert_field m "WhiteList" x) "BlackList" y) k ≡ none
find_field-insert_lists m x y k h e = ground (
  arith,
  find_field-insert_field m "WhiteList" k x,
  find_field-insert_field (insert_field m "WhiteList" x) "BlackList" k y,
  ==_iff "WhiteList" k,
  ==_iff "BlackList" k,
  listed,
  blacklisted,
)

-- A room is sent nothing of an account's money, contacts and credentials, nor of what it keeps to
-- itself: its log, skills, wardrobe and settings, whatever the document of the account holds.
pub find_field-synced_fields :
    (a : OnlineAccount) (room : List MemberNumber) (k : String)
    → contains
        ("Money" ∷ "FriendList" ∷ "AccountName" ∷ "Password" ∷ "Email" ∷ "Environment" ∷ "Pose"
          ∷ "Log" ∷ "Skill" ∷ "Wardrobe" ∷ "WardrobeCharacterNames" ∷ "ChatSettings"
          ∷ "VisualSettings" ∷ "AudioSettings" ∷ "GameplaySettings" ∷ "GhostList" ∷ "HiddenItems"
          ∷ "LastLogin" ∷ "OnlineSettings" ∷ "GraphicsSettings" ∷ "NotificationSettings"
          ∷ "ControllerSettings" ∷ "ImmersionSettings" ∷ "RestrictionSettings" ∷ "GenderSettings"
          ∷ "ExtensionSettings" ∷ "FriendNames" ∷ "SubmissivesList" ∷ [])
        k
      ≡ true
    → find_field (synced_fields a room) k ≡ none
unfolding synced_fields purged
find_field-synced_fields a [] k h = hidden a k h
find_field-synced_fields a (m ∷ room) k h =
    find_field-insert_lists (purged a) (member_list_json (present (m ∷ room) a.white_list))
      (member_list_json (black a (m ∷ room))) k h (hidden a k h)

contains-retain :
    (p : MemberNumber → Bool) (l : List MemberNumber) (m : MemberNumber)
    → contains (retain p l) m ≡ (contains l m && p m)
unfolding contains retain
contains-retain p [] m = ground arith
contains-retain p (x ∷ l) m = elim (Bool-cases (x == m)) [
  | inl e ↦
      let same : p x ≡ p m = ap p (ground (arith, ==_iff x m)) in
      ground (arith, contains-retain p l m, ==_iff x m, ==_iff m x)
  | inr e ↦ ground (arith, contains-retain p l m, ==_iff x m, ==_iff m x)
]

contains-black :
    (a : OnlineAccount) (room : List MemberNumber) (m : MemberNumber)
    → contains (black a room) m ≡ (
        (a.item_permission == pos 1 || a.item_permission == pos 2)
        && contains a.black_list m
        && contains room m)
unfolding contains
contains-black a room m = ground (arith, contains-retain (contains room) a.black_list m)

-- A room with members is sent the members of the white list who are in the room, and no others; and
-- of the black list those who are in the room if the item permission is 1 or 2, and else nobody.
pub synced_fields_lem :
    (a : OnlineAccount) (room : List MemberNumber)
    → is_empty room ≡ false
    → (white black : List MemberNumber) × (find_field (synced_fields a room) "WhiteList"
        ≡ some (member_list_json white))
      × (find_field (synced_fields a room) "BlackList" ≡ some (member_list_json black))
      × ((m : MemberNumber) → contains white m ≡ (contains a.white_list m && contains room m))
      × ((m : MemberNumber)
          → contains black m ≡ (
              (a.item_permission == pos 1 || a.item_permission == pos 2)
              && contains a.black_list m
              && contains room m))
unfolding synced_fields purged
synced_fields_lem a room h = (
  present room a.white_list,
  black a room,
  ground (
    arith,
    find_field-insert_field (purged a) "WhiteList" "WhiteList"
        (member_list_json (present room a.white_list)),
    find_field-insert_field
        (insert_field (purged a) "WhiteList" (member_list_json (present room a.white_list)))
        "BlackList" "WhiteList" (member_list_json (black a room)),
  ),
  ground (
    arith,
    find_field-insert_field
        (insert_field (purged a) "WhiteList" (member_list_json (present room a.white_list)))
        "BlackList" "BlackList" (member_list_json (black a room)),
  ),
  contains-retain (contains room) a.white_list,
  contains-black a room,
)
