-- ===== src/Chat/Guard.antt =====
-- chat/mod.rs: a character is changed with permission only.
use mathlib.Core.Path.{subst}
use bc_server_rust.Base.{
  String, List, [], ◌∷◌, Bool, none, false, any, contains, true, ◌||◌, not, ◌≡◌, ◌≢◌, some, inl,
  inr, arith, ◌==◌, ==_iff, int_eq, string_eq, Bool-cases, Option-cases,
}
use bc_server_rust.Base.HashMap
use bc_server_rust.Base.HashMap.{get-adjust}
use bc_server_rust.Base.Text.{is_empty_text}
use bc_server_rust.Json.{Value, get_field, str_field, is_array}
use bc_server_rust.Protocol.{MemberNumber}
use bc_server_rust.Chat.Permission.{chat_room_get_allow_item}
use bc_server_rust.State.Platform.{Platform}
use bc_server_rust.State.ChatRoom.{ChatRoom}
use bc_server_rust.State.Account.{OnlineAccount}
use bc_server_rust.State.World.{World, get_by_member}
use bc_server_rust.Chat.{in_room}
use bc_server_rust.Chat.Targets.{dressed, has_socket, may_change, character_for, character_update}

-- A member of a room whose session has a socket.
pub HasMember : World → ChatRoom → String → Type 0
HasMember w r j =
    (m : MemberNumber) × (b : OnlineAccount) × (contains r.members m ≡ true)
    × (get_by_member w m ≡ some b)
    × (b.socket_id ≡ j)

abbrev at_socket : World → String → MemberNumber → Bool
at_socket w j m = elim (get_by_member w m) [ none ↦ false | some b ↦ b.socket_id == j ]

any_member :
    (w : World) (j : String) (ms : List MemberNumber)
    → any (at_socket w j) ms ≡ true
    → (m : MemberNumber) × (b : OnlineAccount) × (contains ms m ≡ true)
      × (get_by_member w m ≡ some b)
      × (b.socket_id ≡ j)
unfolding any contains
any_member w j [] h = absurd (ground arith)
any_member w j (m ∷ ms) h = elim (Bool-cases (at_socket w j m)) [
  | inl e ↦ elim (Option-cases (get_by_member w m)) [
    | inl g ↦ absurd (ground (arith, e, g))
    | inr (b, g) ↦ (m, b, ground (arith, ==_iff m m), g, ground (arith, e, g, ==_iff b.socket_id j))
  ]
  | inr e ↦
      let (n, b, c, g, k) = any_member w j ms (ground arith) in (n, b, ground (arith, c), g, k)
]

-- The sender is in a room that does not ban him, a member of it has the socket, and the account
-- of the socket allows the sender.
pub IsAllowed : Platform → World → String → String → OnlineAccount → Type 0
IsAllowed P w sid j a =
    (src : OnlineAccount) × (r : ChatRoom) × (in_room w sid ≡ some (src, r))
    × (contains r.ban src.member_number ≡ false)
    × HasMember w r j
    × (chat_room_get_allow_item P src a ≡ true)

may_change_lem :
    (P : Platform) (w : World) (src : OnlineAccount) (r : ChatRoom) (j : String) (a : OnlineAccount)
    → may_change P w src r j a ≡ true
    → (contains r.ban src.member_number ≡ false)
      × HasMember w r j
      × (chat_room_get_allow_item P src a ≡ true)
unfolding may_change has_socket HasMember
may_change_lem P w src r j a h =
    (ground arith, any_member w j r.members (ground arith), ground arith)

module _ (P : Platform) (w : World) (sid j : String) (a : OnlineAccount)
    (online : HashMap.get w.accounts_by_socket j ≡ some a) where
  character_for_lem :
      (target_id : String) (appearance d : Value)
      → HashMap.get (character_for P sid target_id appearance d w).0.accounts_by_socket j ≢ some a
      → IsAllowed P w sid j a
  unfolding character_for IsAllowed
  character_for_lem target_id appearance d changed = elim (Option-cases (in_room w sid)) [
    | inl e ↦ absurd (changed (rw (e, character_for) online))
    | inr ((src, r), e) ↦ elim (Option-cases (HashMap.get w.accounts_by_socket target_id)) [
      | inl f ↦ absurd (changed (rw (e, f, character_for) online))
      | inr (target, f) ↦ elim (Bool-cases (may_change P w src r target_id target)) [
        | inr h ↦ absurd (changed (rw (e, f, h, character_for) online))
        | inl h ↦ elim (Bool-cases (target_id == j)) [
          | inr g ↦ absurd (
              changed (
                rw (e, f, h, character_for)
                  (ground (
                    arith,
                    get-adjust w.accounts_by_socket target_id j
                        (dressed appearance (get_field d "ActivePose")),
                    online,
                  ))))
          | inl g ↦
              let same : target_id ≡ j = ground (arith, ==_iff target_id j) in
              let found : target ≡ a = ground (arith, online) in
              let (unbanned, there, allowed) = may_change_lem P w src r j a (
                subst (λ (t : OnlineAccount). may_change P w src r j t ≡ true) found
                  (subst (λ s. may_change P w src r s target ≡ true) same h)) in
              (src, r, e, unbanned, there, allowed)
        ]
      ]
    ]
  ]

  -- If a character update changes a session, then its sender is in a room that does not ban him, a
  -- member of the room has the session's socket, and the item permission of the session's account lets
  -- the sender in.
  pub character_update_lem :
      (d : Value)
      → HashMap.get (character_update P sid d w).0.accounts_by_socket j ≢ some a
      → IsAllowed P w sid j a
  unfolding character_update
  character_update_lem d changed = elim (Option-cases (str_field d "ID")) [
    | inl e ↦ absurd (changed (rw (e, character_update) online))
    | inr (target_id, e) ↦ elim (Option-cases (get_field d "Appearance")) [
      | inl f ↦ absurd (changed (rw (e, f, character_update) online))
      | inr (appearance, f) ↦
          elim (Bool-cases (is_empty_text target_id || not (is_array appearance))) [
            | inl h ↦ absurd (changed (rw (e, f, h, character_update) online))
            | inr h ↦
                character_for_lem target_id appearance d
                  (λ same. changed (rw (e, f, h, character_update) same))
          ]
    ]
  ]
