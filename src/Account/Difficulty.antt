-- ===== src/Account/Difficulty.antt =====
-- account/mod.rs: `handle_account_difficulty`.
use bc_server_rust.Base.{
  String, Bool, true, not, ◌&&◌, none, some, [], ◌∷◌, ℤ, pos, negsuc, ltb_ℤ, ◌+i64◌, if◌then◌else◌,
  string_eq,
}
use bc_server_rust.Json.{Value, int, json_object, as_i64, i64_field, unwrap_or, ◌>>=◌}
use bc_server_rust.State.Account.{OnlineAccount}
use bc_server_rust.State.World.{get_by_socket, update_account}
use bc_server_rust.Util.Validate.{difficulty_delay_ms}
use bc_server_rust.Store.{Run, save_fields}

abbrev pub level_of : Value → ℤ
level_of d = unwrap_or (as_i64 d) (negsuc 0)

abbrev pub is_level : ℤ → Bool
is_level n = not (ltb_ℤ n (pos 0)) && not (ltb_ℤ (pos 3) n)

abbrev pub last_change : OnlineAccount → ℤ
last_change a = unwrap_or (a.difficulty >>= λ d. i64_field d "LastChange") a.creation

-- The levels 2 and 3 wait for the delay.
unfoldable pub can_change : ℤ → ℤ → OnlineAccount → Bool
can_change now level a =
    if not (ltb_ℤ (pos 1) level) then true else ltb_ℤ (last_change a +i64 difficulty_delay_ms) now

abbrev pub new_difficulty : ℤ → ℤ → Value
new_difficulty level now = json_object (("Level", int level) ∷ ("LastChange", int now) ∷ [])

unfoldable pub set_difficulty : String → OnlineAccount → Value → Run
unfolding save_fields
set_difficulty sid a v w = (
  update_account w sid (λ b. record b { difficulty = some v }),
  save_fields a.account_name (json_object (("Difficulty", v) ∷ [])),
)

-- The clock is read when the request is judged, and again when the change is made.
unfoldable pub handle_account_difficulty : ℤ → ℤ → String → Value → Run
unfolding can_change set_difficulty
handle_account_difficulty now changed sid d w =
    if not (is_level (level_of d)) then (w, []) else elim (get_by_socket w sid) [
      | none ↦ (w, [])
      | some a ↦
          if can_change now (level_of d) a
          then set_difficulty sid a (new_difficulty (level_of d) changed) w
          else (w, [])
    ]
