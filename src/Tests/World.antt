-- ===== src/Tests/World.antt =====
-- A lobby of two sessions, and the world in which the first has opened a room.
use bc_server_rust.Base.{
  pos, String, true, false, ◌≡◌, refl, none, some, [], ◌∷◌, arith, if◌then◌else◌, ◌==◌, ==_iff,
  string_eq, int_eq, int_beq, IsDistinct, contains, ◌⊎◌, inl, inr,
}
use bc_server_rust.Base.HashMap
use bc_server_rust.Base.HashMap.{keys}
use bc_server_rust.Json.{Value, text, bool, json_object, end}
use bc_server_rust.Protocol.{MemberNumber}
use bc_server_rust.State.Platform.{plain}
use bc_server_rust.State.ChatRoom.{ChatRoom}
use bc_server_rust.State.Account.{OnlineAccount}
use bc_server_rust.State.World.{World}
use bc_server_rust.State.Consistency.{IsConsistent, colon_free}
use bc_server_rust.Room.Create.{chat_room_create}
use bc_server_rust.Room.Create.Consistency.{chat_room_create-IsConsistent}

abbrev pub player : String → MemberNumber → OnlineAccount
player sid m = record {
  socket_id = sid;
  account_name = sid;
  member_number = m;
  name = sid;
  environment = "PROD";
  creation = pos 0;
  item_permission = pos 2;
  white_list = [];
  black_list = [];
  friend_list = [];
  ownership = none;
  owner = "";
  lovership = [];
  difficulty = none;
  appearance = none;
  inventory_data = none;
  arousal_settings = none;
  online_shared_settings = none;
  game = none;
  map_data = none;
  label_color = none;
  reputation = none;
  description = none;
  block_items = none;
  limited_items = none;
  favorite_items = none;
  title = none;
  nickname = none;
  crafting = none;
  pose = none;
  active_pose = none;
  chat_room_id = none;
  delayed_appearance = none;
  delayed_skill = none;
  delayed_game = none;
  extra = end;
  logged_in_at = pos 0;
}

abbrev pub ann : OnlineAccount
ann = player "a" (pos 1)

abbrev pub bea : OnlineAccount
bea = player "b" (pos 2)

abbrev pub lobby : World
lobby = record {
  accounts_by_socket = ("a", ann) ∷ ("b", bea) ∷ [];
  socket_by_member = (pos 1, "a") ∷ (pos 2, "b") ∷ [];
  socket_by_account_name = ("a", "a") ∷ ("b", "b") ∷ [];
  chat_rooms = [];
  room_by_name_env = [];
  prison_sector_sessions = [];
  ip_connections = [];
  account_creation_ip = [];
  password_resets = [];
  next_member_number = pos 3;
  next_password_reset_at = pos 0;
  login_pending = [];
  login_queue_len = 0;
}

lobby-get :
    (sid : String) (a : OnlineAccount)
    → HashMap.get lobby.accounts_by_socket sid ≡ some a
    → ((sid ≡ "a") × (a ≡ ann)) ⊎ ((sid ≡ "b") × (a ≡ bea))
unfolding HashMap.get
lobby-get sid a g = ground (arith, tested, ==_iff "a" sid, ==_iff "b" sid)
  where
    tested : (if "a" == sid then some ann else if "b" == sid then some bea else none) ≡ some a
    tested = g

pub lobby-IsConsistent : IsConsistent plain lobby
unfolding int_beq contains HashMap.get
lobby-IsConsistent = record {
  keyed = keyed;
  session = session;
  located = located;
  present = λ rid r m g. absurd (ground arith);
  room = λ rid r g. absurd (ground arith);
  unique = λ rid q r x g. absurd (ground arith);
}
  where
    keyed : IsDistinct (keys lobby.accounts_by_socket)
    keyed = (refl, (refl, tt))

    session :
        (sid : String) (a : OnlineAccount)
        → HashMap.get lobby.accounts_by_socket sid ≡ some a
        → (a.socket_id ≡ sid)
          × (HashMap.get lobby.socket_by_member a.member_number ≡ some sid)
          × (colon_free a.environment ≡ true)
    session sid a g = elim (lobby-get sid a g) [
      | inl (e, f) ↦ rw (e, f) (refl, refl, refl)
      | inr (e, f) ↦ rw (e, f) (refl, refl, refl)
    ]

    located :
        (sid : String) (a : OnlineAccount) (rid : String)
        → HashMap.get lobby.accounts_by_socket sid ≡ some a
        → a.chat_room_id ≡ some rid
        → (r : ChatRoom) × (HashMap.get lobby.chat_rooms rid ≡ some r)
          × (contains r.members a.member_number ≡ true)
    located sid a rid g l = elim (lobby-get sid a g) [
      | inl (e, f) ↦ absurd (ground arith)
      | inr (e, f) ↦ absurd (ground arith)
    ]

-- Ann has opened a room.
abbrev pub room_data : Value
room_data = json_object (
    ("Name", text "Club")
    ∷ ("Description", text "")
    ∷ ("Background", text "B")
    ∷ ("Private", bool false)
    ∷ [])

unfoldable pub club : World
unfolding chat_room_create
club = (chat_room_create plain "a" "r" (pos 5) room_data lobby).0

pub club-IsConsistent : IsConsistent plain club
unfolding HashMap.get club chat_room_create
club-IsConsistent =
    chat_room_create-IsConsistent plain lobby "a" "r" (pos 5) room_data lobby-IsConsistent refl
