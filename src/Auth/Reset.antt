-- ===== src/Auth/Reset.antt =====
-- auth/reset.rs: the two halves of a password reset. The database, the mailer and the random bytes are
-- arguments; a run is one step, its calls included.
pub mod Tokens
use bc_server_rust.Base.{
  String, ℕ, zero, suc, ℤ, pos, ◌+◌, ◌*◌, ◌%◌, ◌+i64◌, ltb_ℤ, Bool, true, false, not, ◌&&◌, ◌||◌,
  Option, none, some, List, [], ◌∷◌, ◌++◌, any, retain, push, if◌then◌else◌, ◌==◌, string_eq,
}
use bc_server_rust.Base.Text.{is_empty_text, to_string}
use bc_server_rust.Util.Validate.{is_account_name, is_account_password, is_email_valid}
use bc_server_rust.Json.{Value, text, object, array, nil, cons, find_field, as_str, ◌>>=◌}
use bc_server_rust.Protocol.{emit}
use bc_server_rust.Protocol.Events
use bc_server_rust.Protocol.Codes
use bc_server_rust.State.Platform.{Platform}
use bc_server_rust.State.World.{World, PasswordResetEntry}
use bc_server_rust.Store.{Run, Effect, tell, mail, set_password}
use bc_server_rust.Auth.{Bcrypt, hash_password}

-- The big-endian number of the random bytes.
abbrev from_bytes : ℕ → List ℕ → ℕ
from_bytes n [] = n
from_bytes n (b ∷ bs) = from_bytes (n * 256 + b) bs

unfoldable pub generate_reset_number : List ℕ → String
unfolding to_string
generate_reset_number bytes = to_string (pos (from_bytes 0 bytes % 1_000_000_000_000))

abbrev pub not_of : String → PasswordResetEntry → Bool
not_of name e = not (e.account_name == name)

abbrev pub clear_resets : String → World → World
clear_resets name w = record w { password_resets = retain (not_of name) w.password_resets }

-- The entry of the account is replaced.
abbrev pub issue : String → String → World → World
issue name number w = record w {
  password_resets =
      push (retain (not_of name) w.password_resets)
        (record { account_name = name; reset_number = number });
}

-- An entry for every account, each from six bytes of its own, and the pairs for the mail.
unfoldable pub issue_all : (ℕ → List ℕ) → List String → World → World × List (String × String)
unfolding generate_reset_number
issue_all random [] w = (w, [])
issue_all random (name ∷ names) w =
    let number = generate_reset_number (random 0) in
    let (w', pairs) = issue_all (λ n. random (suc n)) names (issue name number w) in
    (w', (name, number) ∷ pairs)

abbrev pub respond : String → String → List Effect
respond sid code = tell (emit sid Events.password_reset_response (text code)) ∷ []

-- The names that the database answers, with `none` for an error, and the mailer.
pub record ResetAnswers : Type 0 where
  pub names : Option (List String)
  pub smtp_configured : Bool
  pub delivered : Bool

abbrev pub set_next_reset : ℤ → World → World
set_next_reset now w = record w { next_password_reset_at = now +i64 pos 5000 }

module _ (sid : String) where
  unfoldable pub send_numbers : ResetAnswers → String → List (String × String) → List Effect
  send_numbers answers email pairs =
      if not answers.smtp_configured
      then respond sid Codes.email_sent_error
      else mail email pairs
        ∷ respond sid (if answers.delivered then Codes.email_sent else Codes.email_sent_error)

  unfoldable pub reset_for : (ℕ → List ℕ) → ResetAnswers → String → Run
  unfolding issue_all send_numbers
  reset_for random answers email w = elim answers.names [
    | none ↦ (w, respond sid Codes.email_sent_error)
    | some names ↦ elim names [
      | [] ↦ (w, respond sid Codes.no_account_on_email)
      | name ∷ more ↦
          let (w', pairs) = issue_all random (name ∷ more) w in
          (w', send_numbers answers email pairs)
    ]
  ]

  abbrev email_of : Value → Option String
  email_of (text s) = if not (is_empty_text s) && is_email_valid s then some s else none
  email_of _ = none

  unfoldable pub handle_password_reset : ℤ → (ℕ → List ℕ) → ResetAnswers → Value → Run
  unfolding is_email_valid reset_for
  handle_password_reset now random answers d w = elim (email_of d) [
    | none ↦ (w, [])
    | some email ↦
        if ltb_ℤ now w.next_password_reset_at
        then (w, respond sid Codes.retry_later)
        else reset_for random answers email (set_next_reset now w)
  ]

-- protocol/mod.rs.
pub record PasswordResetProcessRequest : Type 0 where
  pub account_name : String
  pub reset_number : String
  pub new_password : String

decode_three : Option Value → Option Value → Option Value → Option PasswordResetProcessRequest
decode_three a r n = do
  account_name ← a >>= as_str
  reset_number ← r >>= as_str
  new_password ← n >>= as_str
  some (record {
    account_name = account_name;
    reset_number = reset_number;
    new_password = new_password;
  })

unfoldable pub decode_process : Value → Option PasswordResetProcessRequest
unfolding decode_three
decode_process (object fs) =
    decode_three (find_field fs "AccountName") (find_field fs "ResetNumber")
      (find_field fs "NewPassword")
decode_process (array (cons a (cons r (cons n nil)))) = decode_three (some a) (some r) (some n)
decode_process _ = none

abbrev pub matches_entry : PasswordResetProcessRequest → PasswordResetEntry → Bool
matches_entry req e = e.account_name == req.account_name && e.reset_number == req.reset_number

abbrev pub is_pending : World → PasswordResetProcessRequest → Bool
is_pending w req = any (matches_entry req) w.password_resets

module _ (P : Platform) (B : Bcrypt) (sid : String) where
  abbrev pub refuse : List Effect
  refuse = respond sid Codes.invalid_password_reset

  -- `stored` says whether the database took the new hash.
  unfoldable pub process_request : Bool → PasswordResetProcessRequest → Run
  unfolding is_account_name is_account_password hash_password set_password
  process_request stored req w =
      if not (is_account_name req.account_name) || not (is_account_password req.new_password)
      then (w, refuse)
      else if not (is_pending w req)
      then (w, refuse)
      else elim (hash_password P B req.new_password) [
        | none ↦ (w, refuse)
        | some hash ↦
            if stored
            then (
              clear_resets req.account_name w,
              set_password req.account_name hash ++ respond sid Codes.password_reset_success,
            )
            else (w, set_password req.account_name hash ++ refuse)
      ]

  unfoldable pub handle_password_reset_process : Bool → Value → Run
  unfolding decode_process process_request
  handle_password_reset_process stored d w = elim (decode_process d) [
    | none ↦ (w, refuse)
    | some req ↦ process_request stored req w
  ]
