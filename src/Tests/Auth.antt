-- ===== src/Tests/Auth.antt =====
-- auth/ at concrete inputs.
use mathlib.Core.Path.{subst}
use bc_server_rust.Base.{
  ℕ, true, ◌≡◌, refl, ap, pos, wrap_i32, fits_i64, some, none, List, [], ◌∷◌, any, int_beq, ◌==◌,
  string_eq, int_eq, ◌+i64◌,
}
use bc_server_rust.Base.HashMap
use bc_server_rust.Base.Text.{split}
use bc_server_rust.Util.Validate.{is_account_name, is_account_password, is_email_valid}
use bc_server_rust.Json.{
  Value, text, int, json_object, fields, Fields, end, unwrap_or, find_field, insert_field,
}
use bc_server_rust.Protocol.Codes
use bc_server_rust.State.Platform.{plain}
use bc_server_rust.State.Account.{ensure_defaults, from_db_doc}
use bc_server_rust.State.World.{World}
use bc_server_rust.State.Consistency.{IsConsistent}
use bc_server_rust.Auth.{Bcrypt, hash_password}
use bc_server_rust.Auth.Create.{CreationLimits, CreationAnswers, handle_account_create}
use bc_server_rust.Auth.Create.Consistency.{handle_account_create-IsConsistent}
use bc_server_rust.Auth.Create.Bounds.{Attempt}
use bc_server_rust.Auth.Reset.{
  PasswordResetProcessRequest, ResetAnswers, process_request, refuse, respond,
  handle_password_reset,
}
use bc_server_rust.Auth.Reset.Tokens.{
  process_request-process_request, handle_password_reset-handle_password_reset,
}
use bc_server_rust.Auth.Login.{LoginAnswers, AccountLoginRequest, serve, kick_duplicate, numbered}
use bc_server_rust.Auth.Login.Queue.{IsReleased, serve-IsReleased}
use bc_server_rust.Auth.Login.Consistency.{IsOrdered}
use bc_server_rust.Auth.Login.Entry.{IsNew, serve-IsConsistent}
use bc_server_rust.Tests.World.{lobby, lobby-IsConsistent}

-- A hash that hides nothing.
abbrev pub plain_hash : Bcrypt
plain_hash = record { hash = λ p. some p; verify = λ p h. some (p == h) }

abbrev pub limits : CreationLimits
limits = record { per_day = 12; per_hour = 4 }

abbrev pub stored : CreationAnswers
stored = record { found = some none; inserted = true }

abbrev pub create_data : Value
create_data = json_object (
    ("Name", text "Cat")
    ∷ ("AccountName", text "CAT")
    ∷ ("Password", text "P")
    ∷ ("Email", text "")
    ∷ [])

handle_account_create-IsConsistent_example :
    IsConsistent plain
      (handle_account_create plain plain_hash "c"
        (pos 9)
        limits
        "ip"
        "PROD"
        stored
        create_data
        lobby).0
unfolding HashMap.get int_beq
handle_account_create-IsConsistent_example =
    handle_account_create-IsConsistent plain plain_hash "c" (pos 9) "PROD" refl lobby
      lobby-IsConsistent refl refl limits "ip" stored create_data

abbrev attempts : List Attempt
attempts =
    record {
      socket = "c";
      time = pos 9;
      address = "ip";
      environment = "PROD";
      answers = stored;
      payload = create_data;
    }
    ∷ record {
      socket = "d";
      time = pos 10;
      address = "ip";
      environment = "PROD";
      answers = stored;
      payload = create_data;
    }
    ∷ []

abbrev waiting : World
waiting = record lobby {
  password_resets = record { account_name = "ANN"; reset_number = "7" } ∷ [];
}

abbrev new_password : PasswordResetProcessRequest
new_password = record { account_name = "ANN"; reset_number = "7"; new_password = "Q" }

process_request-process_request_example :
    process_request plain plain_hash "d" true new_password
      (process_request plain plain_hash "c" true new_password waiting).0
    ≡ (
      (process_request plain plain_hash "c" true new_password waiting).0,
      refuse plain plain_hash "d",
    )
unfolding is_account_name is_account_password any hash_password
process_request-process_request_example =
    process_request-process_request plain plain_hash "c" new_password new_password waiting "Q" refl
      refl refl refl refl "d" true

abbrev answers : ResetAnswers
answers = record { names = some ("ANN" ∷ []); smtp_configured = true; delivered = true }

abbrev zeros : ℕ → List ℕ
zeros n = 0 ∷ 0 ∷ 0 ∷ 0 ∷ 0 ∷ 0 ∷ []

handle_password_reset-handle_password_reset_example :
    handle_password_reset "d"
      (pos 10)
      zeros
      answers
      (text "a@b.c")
      (handle_password_reset "c" (pos 9) zeros answers (text "a@b.c") lobby).0
    ≡ (
      (handle_password_reset "c" (pos 9) zeros answers (text "a@b.c") lobby).0,
      respond "d" Codes.retry_later,
    )
unfolding is_email_valid split any ◌+i64◌
handle_password_reset-handle_password_reset_example =
    handle_password_reset-handle_password_reset "c" (pos 9) zeros answers (text "a@b.c") "a@b.c"
      lobby refl refl "d" (pos 10) zeros answers (text "a@b.c") "a@b.c" refl refl

abbrev login_answers : LoginAnswers
login_answers = record {
  connected_before = true;
  found = some (some (fields (("AccountName", text "CAT") ∷ ("Password", text "P") ∷ [])));
  connected_after = true;
  environment = "PROD";
}

abbrev cat : AccountLoginRequest
cat = record { account_name = "CAT"; password = "P" }

abbrev queued : World
queued = record lobby { login_pending = "c" ∷ []; login_queue_len = 1 }

serve-IsReleased_example :
    IsReleased "c" queued (serve plain plain_hash "c" (pos 9) login_answers cat queued).0
serve-IsReleased_example = serve-IsReleased plain plain_hash "c" (pos 9) login_answers cat queued

queued-IsOrdered : IsOrdered plain queued
queued-IsOrdered = record {
  consistent = record {
    keyed = lobby-IsConsistent.keyed;
    session = lobby-IsConsistent.session;
    located = lobby-IsConsistent.located;
    present = lobby-IsConsistent.present;
    room = lobby-IsConsistent.room;
    unique = lobby-IsConsistent.unique;
  };
  rooms = tt;
}

-- The account of a session that is online logs in at another socket.
abbrev ann_document : Fields
ann_document =
    fields (("AccountName", text "a") ∷ ("MemberNumber", int (pos 1)) ∷ ("Password", text "P") ∷ [])

abbrev ann_answers : LoginAnswers
ann_answers = record login_answers { found = some (some ann_document) }

abbrev ann_request : AccountLoginRequest
ann_request = record { account_name = "a"; password = "P" }

ann-IsNew :
    (doc : Fields)
    → ann_answers.found ≡ some (some doc)
    → IsNew plain plain_hash "c" (pos 9) "a" "PROD" queued doc
unfolding kick_duplicate numbered HashMap.get int_beq HashMap.remove ensure_defaults from_db_doc
    wrap_i32 find_field insert_field fits_i64
ann-IsNew doc e =
    subst (IsNew plain plain_hash "c" (pos 9) "a" "PROD" queued)
      (ap (λ o. unwrap_or (unwrap_or o none) end) e) (refl, refl)

serve-IsConsistent_example :
    IsConsistent plain (serve plain plain_hash "c" (pos 9) ann_answers ann_request queued).0
serve-IsConsistent_example =
    serve-IsConsistent plain plain_hash "c" (pos 9) ann_answers ann_request queued queued-IsOrdered
      refl ann-IsNew
