-- ===== src/Tests/Account.antt =====
-- account/mod.rs at concrete inputs.
use bc_server_rust.Base.{
  some, true, ◌++◌, String, false, ◌≡◌, refl, arith, [], ◌∷◌, pos, fits_i64, int_beq, contains,
  is_empty, ◌+i64◌, ◌+ℤ◌, InI64,
}
use bc_server_rust.Base.HashMap
use bc_server_rust.Json.{Value, null, int, text, json_object, find_field, insert_field}
use bc_server_rust.Protocol.{emit}
use bc_server_rust.Protocol.Events
use bc_server_rust.Account.Beep.{handle_account_beep}
use bc_server_rust.Util.Validate.{difficulty_delay_ms}
use bc_server_rust.Account.Difficulty.{set_difficulty, can_change, handle_account_difficulty}
use bc_server_rust.State.Platform.{plain}
use bc_server_rust.Store.{set_email}
use bc_server_rust.Account.Email.{EmailAnswers, email_result, handle_account_update_email}
use bc_server_rust.Account.Delay.{handle_account_difficulty-handle_account_difficulty}
use bc_server_rust.Tests.World.{lobby}

let_through :
    is_empty (handle_account_difficulty (pos 604801000) (pos 604801000) "a" (int (pos 3)) lobby).1
    ≡ false
unfolding handle_account_difficulty fits_i64 HashMap.get can_change set_difficulty ◌+i64◌
    insert_field
let_through = refl

in_range : InI64 (pos 604801000 +ℤ difficulty_delay_ms)
unfolding ◌+ℤ◌
in_range = ground arith

-- A week and a second after the creation the level is 3; a day later it is not set to 2.
handle_account_difficulty-handle_account_difficulty_example :
    handle_account_difficulty
      (pos 691201000)
      (pos 691201000)
      "a"
      (int (pos 2))
      (handle_account_difficulty (pos 604801000) (pos 604801000) "a" (int (pos 3)) lobby).0
    ≡ ((handle_account_difficulty (pos 604801000) (pos 604801000) "a" (int (pos 3)) lobby).0, [])
unfolding fits_i64 ◌+ℤ◌
handle_account_difficulty-handle_account_difficulty_example =
    handle_account_difficulty-handle_account_difficulty (pos 604801000) (pos 604801000) "a"
      (int (pos 3)) lobby (ground arith) in_range let_through (pos 691201000) (pos 691201000)
      (int (pos 2)) refl refl

-- A leash needs no friendship, any other beep does.
abbrev leash : Value
leash = json_object (("MemberNumber", int (pos 2)) ∷ ("BeepType", text "Leash") ∷ [])

stranger_refused :
    handle_account_beep "a" (json_object (("MemberNumber", int (pos 2)) ∷ [])) lobby ≡ (lobby, [])
unfolding handle_account_beep find_field insert_field fits_i64 HashMap.get int_beq contains
stranger_refused = refl

leash_delivered : handle_account_beep "a" leash lobby ≡ (
  lobby,
  emit "b" Events.account_beep (
        json_object (
          ("MemberNumber", int (pos 1))
          ∷ ("MemberName", text "a")
          ∷ ("ChatRoomSpace", null)
          ∷ ("ChatRoomName", null)
          ∷ ("Private", null)
          ∷ ("BeepType", text "Leash")
          ∷ ("Message", null)
          ∷ []))
      ∷ [],
)
unfolding handle_account_beep find_field insert_field fits_i64 HashMap.get int_beq contains
leash_delivered = refl

-- An address is changed by whoever knows the old one.
abbrev email_answers : EmailAnswers
email_answers = record { current = some (some "a@b.cd"); stored = true }

new_address : String → Value
new_address old = json_object (("EmailOld", text old) ∷ ("EmailNew", text "") ∷ [])

email_changed :
    handle_account_update_email plain "a" email_answers (new_address " a@b.cd") lobby
    ≡ (lobby, set_email "a" "" ++ email_result "a" true)
unfolding handle_account_update_email find_field insert_field HashMap.get new_address
email_changed = refl

email_kept :
    handle_account_update_email plain "a" email_answers (new_address "") lobby
    ≡ (lobby, email_result "a" false)
unfolding handle_account_update_email find_field insert_field HashMap.get new_address
email_kept = refl
