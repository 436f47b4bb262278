-- ===== src/Auth/Create.antt =====
-- auth/create.rs: `handle_account_create`. A run is one step here, its database calls included.
pub mod Consistency
pub mod Bounds
use Prim.Native.String
use bc_server_rust.Base.{
  String, ℕ, ℤ, pos, Bool, true, false, not, ◌||◌, Option, none, some, List, [], ◌∷◌, ◌++◌, leb,
  ltb, push, if◌then◌else◌,
}
use bc_server_rust.Base.Text.{is_empty_text}
use bc_server_rust.Util.Validate.{
  is_account_name, is_account_password, is_character_name, is_email_valid,
}
use bc_server_rust.Json.{
  Value, int, text, object, array, nil, cons, end, find_field, as_str, json_object, json_array,
  ◌>>=◌,
}
use bc_server_rust.Protocol.{MemberNumber, emit}
use bc_server_rust.Protocol.Events
use bc_server_rust.Protocol.Codes
use bc_server_rust.State.Platform.{Platform}
use bc_server_rust.State.Account.{OnlineAccount}
use bc_server_rust.State.World.{
  World, insert_account, allocate_member_number, count_creations_for_ip,
}
use bc_server_rust.Store
use bc_server_rust.Store.{Run, Effect, tell, tell_all, login_handlers}
use bc_server_rust.Connection.{send_server_info_to}
use bc_server_rust.Auth.{Bcrypt, hash_password}

-- protocol/mod.rs.
pub record AccountCreateRequest : Type 0 where
  pub name : String
  pub account_name : String
  pub password : String
  pub email : String

decode_all : Option Value → Option Value → Option Value → Option Value → Option AccountCreateRequest
decode_all n a p e = do
  name ← n >>= as_str
  account_name ← a >>= as_str
  password ← p >>= as_str
  email ← e >>= as_str
  some (record { name = name; account_name = account_name; password = password; email = email })

-- A struct decodes from an object, and from a list of its four fields.
unfoldable pub decode_create : Value → Option AccountCreateRequest
unfolding decode_all
decode_create (object fs) =
    decode_all (find_field fs "Name") (find_field fs "AccountName") (find_field fs "Password")
      (find_field fs "Email")
decode_create (array (cons n (cons a (cons p (cons e nil))))) =
    decode_all (some n) (some a) (some p) (some e)
decode_create _ = none

unfoldable pub is_creatable : AccountCreateRequest → Bool
unfolding is_character_name is_account_name is_account_password is_email_valid
is_creatable req = not (
    not (is_character_name req.name)
    || not (is_account_name req.account_name)
    || not (is_account_password req.password)
    || not (is_empty_text req.email || is_email_valid req.email)
    || ltb 100 (String.len req.email))

unfoldable pub new_online_from_create :
    String → String → MemberNumber → String → String → ℤ → OnlineAccount
new_online_from_create socket_id account_name member_number name environment creation = record {
  socket_id = socket_id;
  account_name = account_name;
  member_number = member_number;
  name = name;
  environment = environment;
  creation = creation;
  item_permission = pos 2;
  white_list = [];
  black_list = [];
  friend_list = [];
  ownership = none;
  owner = "";
  lovership = [];
  difficulty = none;
  appearance = none;
  inventory_data = none;
  arousal_settings = none;
  online_shared_settings = none;
  game = none;
  map_data = none;
  label_color = none;
  reputation = none;
  description = none;
  block_items = none;
  limited_items = none;
  favorite_items = none;
  title = none;
  nickname = none;
  crafting = none;
  pose = none;
  active_pose = none;
  chat_room_id = none;
  delayed_appearance = none;
  delayed_skill = none;
  delayed_game = none;
  extra = end;
  logged_in_at = creation;
}

abbrev account_document : AccountCreateRequest → String → String → MemberNumber → ℤ → Value
account_document req account_name hash m now = json_object (
    ("AccountName", text account_name)
    ∷ ("Email", text req.email)
    ∷ ("Password", text hash)
    ∷ ("MemberNumber", int m)
    ∷ ("Name", text req.name)
    ∷ ("Money", int (pos 100))
    ∷ ("Creation", int now)
    ∷ ("LastLogin", int now)
    ∷ ("Lovership", json_array [])
    ∷ ("ItemPermission", int (pos 2))
    ∷ ("FriendList", json_array [])
    ∷ ("WhiteList", json_array [])
    ∷ ("BlackList", json_array [])
    ∷ [])

-- The limits of the configuration.
pub record CreationLimits : Type 0 where
  pub per_day : ℕ
  pub per_hour : ℕ

-- What the database answers: `found` to `find_by_account_name`, where `none` is an error, and whether
-- the document was inserted.
pub record CreationAnswers : Type 0 where
  pub found : Option (Option Value)
  pub inserted : Bool

abbrev pub record_creation : World → String → ℤ → World
record_creation w ip now = record w {
  account_creation_ip = push w.account_creation_ip (record { address = ip; time = now });
}

module _ (P : Platform) (B : Bcrypt) (sid : String) (now : ℤ) where
  abbrev pub respond : String → List Effect
  respond code = tell (emit sid Events.creation_response (text code)) ∷ []

  abbrev success : MemberNumber → Value
  success m = json_object (
      ("ServerAnswer", text Codes.account_created)
      ∷ ("OnlineID", text sid)
      ∷ ("MemberNumber", int m)
      ∷ [])

  -- The document, and the session if it is stored. The number is given out in any case.
  unfoldable pub create_account : AccountCreateRequest → String → String → String → Bool → Run
  unfolding allocate_member_number Store.insert_account new_online_from_create insert_account
      send_server_info_to
  create_account req account_name hash environment inserted w =
      let (m, w1) = allocate_member_number w in
      let doc = account_document req account_name hash m now in
      let w2 =
        insert_account w1 (new_online_from_create sid account_name m req.name environment now) in
      if inserted
      then (
        w2,
        Store.insert_account doc
            ++ (login_handlers sid
                ∷ tell (emit sid Events.creation_response (success m))
                ∷ tell_all (send_server_info_to now sid w2)),
      )
      else (w1, Store.insert_account doc ++ respond Codes.invalid_account_info)

  unfoldable pub create_unless_found : AccountCreateRequest → String → CreationAnswers → Run
  unfolding hash_password create_account
  create_unless_found req environment answers w = elim answers.found [
    | none ↦ (w, respond Codes.invalid_account_info)
    | some found ↦ elim found [
      | some d ↦ (w, respond Codes.account_already_exists)
      | none ↦ elim (hash_password P B req.password) [
        | none ↦ (w, respond Codes.invalid_account_info)
        | some hash ↦
            create_account req (P.to_uppercase req.account_name) hash environment answers.inserted w
      ]
    ]
  ]

  unfoldable pub handle_account_create :
      CreationLimits → String → String → CreationAnswers → Value → Run
  unfolding decode_create is_creatable count_creations_for_ip create_unless_found
  handle_account_create limits ip environment answers d w = elim (decode_create d) [
    | none ↦ (w, respond Codes.invalid_account_info)
    | some req ↦
        if is_creatable req
        then (let (total, hour) = count_creations_for_ip w ip now in
            if leb limits.per_day total || leb limits.per_hour hour
            then (w, respond Codes.new_accounts_exceeded)
            else create_unless_found req environment answers (record_creation w ip now))
        else (w, respond Codes.invalid_account_info)
  ]
