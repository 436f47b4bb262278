-- ===== src/Relations/Ownership/Facts.antt =====
-- relations/mod.rs: the guards of the handler of ownerships, as facts about what it reads.
use mathlib.Core.Path.{subst}
use Prim.Native.String.{[], ◌∷◌}
use bc_server_rust.Base.{
  String, Bool, true, false, ◌≡◌, ◌≢◌, refl, ◌⊎◌, inl, inr, Option, none, some, ℤ, pos, ◌+i64◌,
  ◌≤ℤ◌, arith, int_eq, string_eq, ==_iff, Option-cases, Bool-cases,
}
use bc_server_rust.Base.HashMap
use bc_server_rust.Base.HashMap.{map_option, get-adjust}
use bc_server_rust.Base.Text.{is_empty_text, take_chars}
use bc_server_rust.Json.{
  Value, null, bool, int, float, text, array, object, get_field, i64_field, is_text, is_number,
  ◌>>=◌,
}
use bc_server_rust.Json.Laws.{find_field-insert_field, find_field-remove_field}
use bc_server_rust.Util.Validate.{ownership_delay_ms}
use bc_server_rust.Protocol.{MemberNumber}
use bc_server_rust.State.Platform.{Platform}
use bc_server_rust.State.ChatRoom.{ChatRoom}
use bc_server_rust.State.Account.{OnlineAccount}
use bc_server_rust.State.World.{World, get_by_member, update_account}
use bc_server_rust.State.Consistency.{IsConsistent}
use bc_server_rust.Chat.Consistency.{Keeps}
use bc_server_rust.Chat.{in_room}
use bc_server_rust.Relations.Ownership.{
  owner_member, stage_of, start_of, difficulty_level, annotate, may_break,
}
use bc_server_rust.Relations.Ownership.Trial.{can_end, may_interact}
use bc_server_rust.Relations.Ownership.Rules.{Step}
use bc_server_rust.Relations.Ownership.Outcome.{Outcome}

pub number_of : (o : Option ℤ) (n : ℤ) → is_number o n ≡ true → o ≡ some n
number_of none n h = absurd (ground arith)
number_of (some z) n h = ground (arith, ==_iff z n)

pub empty_text : (s : String) → is_empty_text s ≡ true → s ≡ ""
empty_text [] h = refl
empty_text (c ∷ s) h = absurd (ground arith)

pub propose_not_accept :
    (o : Option String) → is_text o "Propose" ≡ true → is_text o "Accept" ≡ false
propose_not_accept none h = refl
propose_not_accept (some s) h =
    ground (arith, ==_iff s "Propose", ==_iff s "Accept", ==_iff {A = String} "Propose" "Accept")

pub get_field-annotate :
    (notes : Option String) (v : Value) (k : String)
    → k ≢ "Notes"
    → get_field (annotate notes v) k ≡ get_field v k
get_field-annotate none (object fs) k n =
    ground (arith, find_field-remove_field fs "Notes" k, ==_iff "Notes" k)
get_field-annotate (some s) (object fs) k n = elim (Bool-cases (is_empty_text s)) [
  | inl h ↦ ground (arith, find_field-remove_field fs "Notes" k, ==_iff "Notes" k)
  | inr h ↦
      ground
        (arith, find_field-insert_field fs "Notes" k (text (take_chars 4000 s)), ==_iff "Notes" k)
]
get_field-annotate none null k n = refl
get_field-annotate none (bool b) k n = refl
get_field-annotate none (int z) k n = refl
get_field-annotate none (float z) k n = refl
get_field-annotate none (text t) k n = refl
get_field-annotate none (array l) k n = refl
get_field-annotate (some s) null k n = refl
get_field-annotate (some s) (bool b) k n = refl
get_field-annotate (some s) (int z) k n = refl
get_field-annotate (some s) (float z) k n = refl
get_field-annotate (some s) (text t) k n = refl
get_field-annotate (some s) (array l) k n = refl

pub may_break_lem :
    (now : ℤ) (a : OnlineAccount) (s t : ℤ)
    → may_break now a s t ≡ true
    → (s ≡ pos 0) ⊎ ((t +i64 ownership_delay_ms ≤ℤ now) × (difficulty_level a ≤ℤ pos 2))
unfolding may_break
may_break_lem now a s t h = ground (arith, ==_iff s (pos 0))

module _ (P : Platform) (w : World) (v : IsConsistent P w) where
  -- The session found by a member number stands under its own socket.
  found_at :
      (m : MemberNumber) (t : OnlineAccount)
      → get_by_member w m ≡ some t
      → HashMap.get w.accounts_by_socket t.socket_id ≡ some t
  found_at m t g = elim (Option-cases (HashMap.get w.socket_by_member m)) [
    | inl e ↦ absurd (ground arith)
    | inr (j, e) ↦ ground (arith, (v.session j t (ground arith)).0)
  ]

module _ {P : Platform} {w : World} (v : IsConsistent P w) {now : ℤ} {doc : Option Value}
    {m : MemberNumber} {src : OnlineAccount} where
  pub at_target :
      (t : OnlineAccount) (f : OnlineAccount → OnlineAccount)
      → get_by_member w m ≡ some t
      → Keeps f
      → Step w now doc m src t (f t)
      → Outcome w now doc m src (update_account w t.socket_id f)
  at_target t f g k s =
      Outcome.written t.socket_id f k
        (λ a ga. subst (λ x. Step w now doc m src x (f x)) (ground (arith, found_at P w v m t g)) s)

module _ {w : World} {now : ℤ} {doc : Option Value} {m : MemberNumber} {src : OnlineAccount} where
  pub at_source :
      (sid : String) (f : OnlineAccount → OnlineAccount)
      → HashMap.get w.accounts_by_socket sid ≡ some src
      → Keeps f
      → Step w now doc m src src (f src)
      → Outcome w now doc m src (update_account w sid f)
  at_source sid f online k s =
      Outcome.written sid f k
        (λ a ga. subst (λ x. Step w now doc m src x (f x)) (ground (arith, online)) s)

  pub same_world : {x y : World} → y ≡ x → Outcome w now doc m src x → Outcome w now doc m src y
  same_world e o = rw e o

module _ (connected : String → Bool) (now : ℤ) (sid : String) (src : OnlineAccount) (r : ChatRoom)
    (m : MemberNumber) (t : OnlineAccount) where
  pub no_end :
      (o : Option Value)
      → (o >>= λ u. get_field u "MemberNumber") ≡ none
      → can_end connected now sid src r m t o ≡ false
  no_end none h = refl
  no_end (some u) h = ground arith

  pub can_end_lem :
      (o : Option Value)
      → can_end connected now sid src r m t o ≡ true
      → (s : ℤ) × (owner_member o ≡ some src.member_number)
        × (stage_of o ≡ some (pos 0))
        × (start_of o ≡ some s)
        × (s +i64 ownership_delay_ms ≤ℤ now)
  can_end_lem none h = absurd (ground arith)
  can_end_lem (some u) h = elim (Option-cases (i64_field u "Start")) [
    | inl e ↦ absurd (ground arith)
    | inr (s, e) ↦ (
      s,
      number_of (i64_field u "MemberNumber") src.member_number (ground arith),
      number_of (i64_field u "Stage") (pos 0) (ground arith),
      e,
      ground arith,
    )
  ]

  pub may_interact_lem :
      (o : Value)
      → may_interact connected now sid src r m t o ≡ true
      → (owner_member (some o) ≡ none) ⊎ (owner_member (some o) ≡ some m)
  may_interact_lem o h = elim (Option-cases (owner_member (some o))) [
    | inl e ↦ inl e
    | inr (n, e) ↦ inr (ground (arith, ==_iff n m))
  ]

-- Who is in a room is the session of the socket.
pub in_room_online :
    (w : World) (sid : String) (src a : OnlineAccount) (r : ChatRoom)
    → HashMap.get w.accounts_by_socket sid ≡ some src
    → in_room w sid ≡ some (a, r)
    → a ≡ src
unfolding in_room
in_room_online w sid src a r online e = elim (Option-cases src.chat_room_id) [
  | inl f ↦ absurd (ground arith)
  | inr (q, f) ↦ elim (Option-cases (HashMap.get w.chat_rooms q)) [
    | inl g ↦ absurd (ground arith)
    | inr (x, g) ↦ ground arith
  ]
]
