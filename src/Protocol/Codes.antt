-- ===== src/Protocol/Codes.antt =====
-- The response codes of protocol/mod.rs.
use bc_server_rust.Base.{String, List, [], ◌∷◌}

abbrev pub invalid_name_password : String
invalid_name_password = "InvalidNamePassword"

abbrev pub error_rate_limited : String
error_rate_limited = "ErrorRateLimited"

abbrev pub error_duplicated_login : String
error_duplicated_login = "ErrorDuplicatedLogin"

abbrev pub account_already_exists : String
account_already_exists = "Account already exists"

abbrev pub invalid_account_info : String
invalid_account_info = "Invalid account information"

abbrev pub new_accounts_exceeded : String
new_accounts_exceeded = "New accounts per day exceeded"

abbrev pub account_created : String
account_created = "AccountCreated"

abbrev pub retry_later : String
retry_later = "RetryLater"

abbrev pub email_sent : String
email_sent = "EmailSent"

abbrev pub email_sent_error : String
email_sent_error = "EmailSentError"

abbrev pub no_account_on_email : String
no_account_on_email = "NoAccountOnEmail"

abbrev pub password_reset_success : String
password_reset_success = "PasswordResetSuccessful"

abbrev pub invalid_password_reset : String
invalid_password_reset = "InvalidPasswordResetInfo"

abbrev pub chat_types : List String
chat_types = "Chat" ∷ "Action" ∷ "Activity" ∷ "Emote" ∷ "Whisper" ∷ "Hidden" ∷ "Status" ∷ []
