-- ===== src/Chat/Permission/Levels.antt =====
-- chat/mod.rs: what the item permission of an account comes to.
use bc_server_rust.Base.{
  ℕ, zero, suc, ◌≤◌, pos, Bool, true, false, not, ◌&&◌, ◌||◌, ◌≡◌, arith, contains, leb_ℤ, ◌+i64◌,
  int_beq, ◌==◌, int_eq, string_eq,
}
use bc_server_rust.Json.{is_number}
use bc_server_rust.State.Platform.{Platform}
use bc_server_rust.State.Account.{OnlineAccount}
use bc_server_rust.Room.Search.{owner_number}
use bc_server_rust.Chat.Permission.{lovers, dominant_value, chat_room_get_allow_item}

abbrev pub at_level : OnlineAccount → ℕ → OnlineAccount
at_level t n = record t { item_permission = pos n }

-- Who is let in at a level, by whether the black list has him, whether he is dominant enough, and
-- whether the white list or the lovers have him.
unfoldable pub let_in : ℕ → Bool → Bool → Bool → Bool → Bool
let_in zero black dominant white lover = true
let_in (suc zero) black dominant white lover = not black
let_in (suc (suc zero)) black dominant white lover = not black && (dominant || white || lover)
let_in (suc (suc (suc zero))) black dominant white lover = white || lover
let_in (suc (suc (suc (suc zero)))) black dominant white lover = lover
let_in (suc (suc (suc (suc (suc n))))) black dominant white lover = false

-- An account may change the items of another if it is the same or its owner, or if the level of the
-- other lets it in: the level 0 all, 1 whoever is not on the black list, 2 of these the dominant, the
-- white list and the lovers, 3 the white list and the lovers, 4 the lovers, and a higher one nobody.
pub chat_room_get_allow_item_lem :
    (P : Platform) (s t : OnlineAccount) (n : ℕ)
    → chat_room_get_allow_item P s (at_level t n) ≡ (
        s.member_number == t.member_number
        || is_number (owner_number t) s.member_number
        || let_in n
            (contains t.black_list s.member_number)
            (leb_ℤ (dominant_value P t) (dominant_value P s +i64 pos 25))
            (contains t.white_list s.member_number)
            (contains (lovers t) s.member_number))
unfolding chat_room_get_allow_item let_in int_beq
chat_room_get_allow_item_lem P s t zero = ground arith
chat_room_get_allow_item_lem P s t (suc zero) = ground arith
chat_room_get_allow_item_lem P s t (suc (suc zero)) = ground arith
chat_room_get_allow_item_lem P s t (suc (suc (suc zero))) = ground arith
chat_room_get_allow_item_lem P s t (suc (suc (suc (suc zero)))) = ground arith
chat_room_get_allow_item_lem P s t (suc (suc (suc (suc (suc n))))) = ground arith

let_in-le :
    (p q : ℕ) (dominant white lover : Bool)
    → p ≤ q
    → let_in q false dominant white lover ≡ true
    → let_in p false dominant white lover ≡ true
unfolding let_in
let_in-le p q d w l h e = ground arith

-- A higher level of the item permission lets in nobody whom a lower level keeps out, but for the
-- accounts on the black list.
pub chat_room_get_allow_item-at_level :
    (P : Platform) (s t : OnlineAccount) (p q : ℕ)
    → p ≤ q
    → contains t.black_list s.member_number ≡ false
    → chat_room_get_allow_item P s (at_level t q) ≡ true
    → chat_room_get_allow_item P s (at_level t p) ≡ true
chat_room_get_allow_item-at_level P s t p q le b h = ground (
  arith,
  chat_room_get_allow_item_lem P s t p,
  chat_room_get_allow_item_lem P s t q,
  let_in-le p q (leb_ℤ (dominant_value P t) (dominant_value P s +i64 pos 25))
      (contains t.white_list s.member_number) (contains (lovers t) s.member_number) le,
)
