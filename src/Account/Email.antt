-- ===== src/Account/Email.antt =====
-- account/mod.rs: `handle_account_update_email`.
use bc_server_rust.Base.{
  String, Bool, true, false, not, ◌&&◌, Option, none, some, List, [], ◌∷◌, ◌++◌, if◌then◌else◌,
  ◌==◌, string_eq,
}
use bc_server_rust.Base.Text.{is_empty_text, trim}
use bc_server_rust.Json.{
  Value, text, bool, object, array, nil, cons, json_object, find_field, as_str, unwrap_or, ◌>>=◌,
}
use bc_server_rust.Protocol.{emit}
use bc_server_rust.Protocol.Events
use bc_server_rust.Util.Validate.{is_email_valid}
use bc_server_rust.State.Platform.{Platform}
use bc_server_rust.State.Account.{OnlineAccount}
use bc_server_rust.State.World.{get_by_socket}
use bc_server_rust.Store.{Run, Effect, tell, set_email}

-- protocol/mod.rs.
pub record AccountUpdateEmailRequest : Type 0 where
  pub email_old : String
  pub email_new : String

read_email : Option Value → Option Value → Option AccountUpdateEmailRequest
read_email o n = do
  email_old ← o >>= as_str
  email_new ← n >>= as_str
  some (record { email_old = email_old; email_new = email_new })

unfoldable pub decode_email : Value → Option AccountUpdateEmailRequest
unfolding read_email
decode_email (object fs) = read_email (find_field fs "EmailOld") (find_field fs "EmailNew")
decode_email (array (cons o (cons n nil))) = read_email (some o) (some n)
decode_email _ = none

abbrev pub email_result : String → Bool → List Effect
email_result sid ok =
    tell (
      emit sid Events.account_query_result
        (json_object (("Query", text "EmailUpdate") ∷ ("Result", bool ok) ∷ [])))
    ∷ []

-- The stored address, where the outer `none` is an error, and whether the update succeeds.
pub record EmailAnswers : Type 0 where
  pub current : Option (Option String)
  pub stored : Bool

module _ (P : Platform) (sid : String) (answers : EmailAnswers) where
  -- An account that has an address must know it.
  unfoldable pub knows_email : String → String → Bool
  unfolding trim
  knows_email current email_old =
      if is_empty_text current
      then true
      else P.to_lowercase (trim current) == P.to_lowercase (trim email_old)

  unfoldable pub update_email : OnlineAccount → AccountUpdateEmailRequest → List Effect
  unfolding is_email_valid knows_email set_email
  update_email a req =
      if not (is_empty_text req.email_new) && not (is_email_valid req.email_new)
      then email_result sid false
      else elim answers.current [
        | none ↦ email_result sid false
        | some current ↦
            if knows_email (unwrap_or current "") req.email_old
            then set_email a.account_name req.email_new ++ email_result sid answers.stored
            else email_result sid false
      ]

  unfoldable pub handle_account_update_email : Value → Run
  unfolding decode_email update_email
  handle_account_update_email d w = elim (decode_email d) [
    | none ↦ (w, email_result sid false)
    | some req ↦ elim (get_by_socket w sid) [
      | none ↦ (w, email_result sid false)
      | some a ↦ (w, update_email a req)
    ]
  ]
