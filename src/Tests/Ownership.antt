-- ===== src/Tests/Ownership.antt =====
-- relations/mod.rs at concrete inputs: Bea is in a trial with Ann, who has offered its end.
use mathlib.Core.Path.{subst}
use bc_server_rust.Base.{
  ap, ◌∙◌, String, Bool, Bool-cases, pos, true, false, ◌≡◌, refl, none, some, [], ◌∷◌, arith,
  if◌then◌else◌, ◌==◌, ==_iff, string_eq, int_eq, int_beq, contains, ◌⊎◌, inl, inr, sym, fits_i64,
}
use bc_server_rust.Base.HashMap
use bc_server_rust.Base.HashMap.{keys}
use bc_server_rust.Json.{Value, i64_field, text, int, json_object, find_field, insert_field}
use bc_server_rust.Protocol.{MemberNumber}
use bc_server_rust.State.Platform.{plain}
use bc_server_rust.State.ChatRoom.{ChatRoom}
use bc_server_rust.State.Account.{OnlineAccount}
use bc_server_rust.State.World.{World, room_key}
use bc_server_rust.State.Consistency.{IsConsistent}
use bc_server_rust.Room.Create.{enter, build_room}
use bc_server_rust.Relations.Ownership.Handler.{handle_account_ownership}
use bc_server_rust.Relations.Ownership.Rules.{Step, IsBond}
use bc_server_rust.Relations.Ownership.Refinement.{
  IsSound, handle_account_ownership_lem, handle_account_ownership-IsSound,
}
use bc_server_rust.Tests.World.{lobby, ann, bea}
use bc_server_rust.Tests.Room.{room}

abbrev pub owner : OnlineAccount
owner = enter "r" ann

abbrev pub trial : Value
trial = json_object (
    ("MemberNumber", int (pos 1))
    ∷ ("Stage", int (pos 0))
    ∷ ("Start", int (pos 0))
    ∷ ("EndTrialOfferedByMemberNumber", int (pos 1))
    ∷ [])

abbrev pub on_trial : OnlineAccount
on_trial = record (enter "r" bea) { ownership = some trial }

abbrev pub house : ChatRoom
house = record room { members = pos 1 ∷ pos 2 ∷ [] }

abbrev pub home : World
home = record lobby {
  accounts_by_socket = ("a", owner) ∷ ("b", on_trial) ∷ [];
  chat_rooms = ("r", house) ∷ [];
  room_by_name_env = ("PROD:Club", "r") ∷ [];
}

home-get :
    (sid : String) (a : OnlineAccount)
    → HashMap.get home.accounts_by_socket sid ≡ some a
    → ((sid ≡ "a") × (a ≡ owner)) ⊎ ((sid ≡ "b") × (a ≡ on_trial))
unfolding HashMap.get
home-get sid a g = ground (arith, tested, ==_iff "a" sid, ==_iff "b" sid)
  where
    tested :
        (if "a" == sid then some owner else if "b" == sid then some on_trial else none) ≡ some a
    tested = g

home-room :
    (rid : String) (r : ChatRoom)
    → HashMap.get home.chat_rooms rid ≡ some r
    → (rid ≡ "r") × (r ≡ house)
unfolding HashMap.get
home-room rid r g = ground (arith, tested, ==_iff "r" rid)
  where
    tested : (if "r" == rid then some house else none) ≡ some r
    tested = g

home-present :
    (m : MemberNumber)
    → contains house.members m ≡ true
    → (sid : String) × (a : OnlineAccount) × (HashMap.get home.accounts_by_socket sid ≡ some a)
      × (a.member_number ≡ m)
      × (a.chat_room_id ≡ some "r")
unfolding HashMap.get contains
home-present m c = elim (Bool-cases (pos 1 == m)) [
  | inl h ↦ ("a", owner, refl, ground (arith, ==_iff (pos 1) m), refl)
  | inr h ↦ (
    "b",
    on_trial,
    refl,
    ground (arith, ==_iff (pos 1) m, ==_iff (pos 2) m, ==_iff m (pos 1), ==_iff m (pos 2)),
    refl,
  )
]

in_house : (rid : String) → some "r" ≡ some rid → HashMap.get home.chat_rooms rid ≡ some house
unfolding HashMap.get
in_house rid e = subst (λ q. HashMap.get home.chat_rooms q ≡ some house) same refl
  where
    same : "r" ≡ rid
    same = ground arith

pub home-IsConsistent : IsConsistent plain home
unfolding int_beq contains HashMap.get build_room room_key
home-IsConsistent = record {
  keyed = (refl, (refl, tt));
  session = λ sid a g. elim (home-get sid a g) [
    | inl (e, f) ↦ rw (e, f) (refl, refl, refl)
    | inr (e, f) ↦ rw (e, f) (refl, refl, refl)
  ];
  located = λ sid a rid g l. elim (home-get sid a g) [
    | inl (e, f) ↦ (house, in_house rid (sym (ap (λ x. x.chat_room_id) f) ∙ l), rw f refl)
    | inr (e, f) ↦ (house, in_house rid (sym (ap (λ x. x.chat_room_id) f) ∙ l), rw f refl)
  ];
  present = λ rid r m g c.
      let (e, f) = home-room rid r g in
      subst
        (λ q.
          (sid : String) × (a : OnlineAccount) × (HashMap.get home.accounts_by_socket sid ≡ some a)
          × (a.member_number ≡ m)
          × (a.chat_room_id ≡ some q))
        (sym e) (home-present m (subst (λ x. contains x.members m ≡ true) f c));
  room = λ rid r g.
      let (e, f) = home-room rid r g in rw (e, f) (refl, refl, (refl, (refl, tt)), refl, refl);
  unique = λ rid q r x g h e. ground (arith, home-room rid r g, home-room q x h);
}

trial-IsBond : IsBond (some trial)
unfolding find_field insert_field IsBond
trial-IsBond = λ h. absurd (ground arith)

none-IsBond : IsBond none
unfolding IsBond
none-IsBond = λ h. refl

home-IsSound : IsSound plain home
home-IsSound = record {
  consistent = home-IsConsistent;
  bonds = λ sid a g. elim (home-get sid a g) [
    | inl (e, f) ↦ rw f none-IsBond
    | inr (e, f) ↦ rw f trial-IsBond
  ];
}

accept_data : Value
accept_data = json_object (("MemberNumber", int (pos 1)) ∷ ("Action", text "Accept") ∷ [])

abbrev pub nobody : String → Bool
nobody sid = false

handle_account_ownership-IsSound_example :
    IsSound plain (handle_account_ownership nobody (pos 9) "b" none accept_data home).0
handle_account_ownership-IsSound_example =
    handle_account_ownership-IsSound plain home home-IsSound nobody (pos 9) "b" none accept_data

about_ann : i64_field accept_data "MemberNumber" ≡ some (pos 1)
unfolding accept_data find_field insert_field fits_i64
about_ann = refl

handle_account_ownership_lem_example :
    (b : OnlineAccount) × (HashMap.get
        (handle_account_ownership nobody (pos 9) "b" none accept_data home).0.accounts_by_socket
        "b"
      ≡ some b)
    × Step home (pos 9) none (pos 1) on_trial on_trial b
unfolding HashMap.get
handle_account_ownership_lem_example =
    handle_account_ownership_lem plain home home-IsConsistent nobody (pos 9) none "b" on_trial refl
      trial-IsBond accept_data (pos 1) about_ann "b" on_trial refl
