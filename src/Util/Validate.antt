-- ===== src/Util/Validate.antt =====
-- util/validate.rs. The regular expressions are a class of characters and a range of lengths, and
-- are anchored at both ends.
use Prim.Native.String.{String}
use Prim.Native.String
use bc_server_rust.Base.{
  ℕ, Bool, false, not, ◌&&◌, ◌||◌, List, [], ◌∷◌, ℤ, pos, leb, nat_beq, any, if◌then◌else◌,
}
use bc_server_rust.Base.Text.{all_chars, split, contains_text}

abbrev pub chat_message_max_length : ℕ
chat_message_max_length = 2000

abbrev pub chat_room_description_max_length : ℕ
chat_room_description_max_length = 300

abbrev pub ownership_delay_ms : ℤ
ownership_delay_ms = pos 604_800_000

abbrev pub lovership_delay_ms : ℤ
lovership_delay_ms = pos 604_800_000

abbrev pub difficulty_delay_ms : ℤ
difficulty_delay_ms = pos 604_800_000

abbrev is_letter : ℕ → Bool
is_letter c = (leb b'a' c && leb c b'z') || (leb b'A' c && leb c b'Z')

abbrev is_alphanumeric : ℕ → Bool
is_alphanumeric c = is_letter c || (leb b'0' c && leb c b'9')

abbrev pub is_printable : ℕ → Bool
is_printable c = leb 0x20 c && leb c 0x7e

abbrev email_marks : List ℕ
email_marks =
    b'@' ∷ b'.' ∷ b'!' ∷ b'#' ∷ b'$' ∷ b'%' ∷ b'&' ∷ 0x27 ∷ b'*' ∷ b'+' ∷ b'/' ∷ b'=' ∷ b'?' ∷ b'^'
    ∷ b'_' ∷ b'`' ∷ b'{' ∷ b'|' ∷ b'}' ∷ b'~' ∷ b'-' ∷ []

abbrev is_email_char : ℕ → Bool
is_email_char c = is_alphanumeric c || any (nat_beq c) email_marks

-- `^[class]{low,high}$`.
abbrev pub matches : (ℕ → Bool) → ℕ → ℕ → String → Bool
matches p low high s = leb low (String.count s) && leb (String.count s) high && all_chars p s

unfoldable pub is_account_name : String → Bool
is_account_name s = matches is_alphanumeric 1 20 s

unfoldable pub is_account_password : String → Bool
is_account_password s = matches is_alphanumeric 1 20 s

unfoldable pub is_character_name : String → Bool
is_character_name s = matches (λ c. is_letter c || nat_beq c 0x20) 1 20 s

unfoldable pub is_chat_room_name : String → Bool
is_chat_room_name s = matches is_printable 1 20 s

-- Two parts at one `@`, the second with a dot.
abbrev has_domain : List String → Bool
has_domain (user ∷ domain ∷ []) = contains_text domain "."
has_domain _ = false

unfoldable pub is_email_valid : String → Bool
unfolding split any
is_email_valid s = if not (matches is_email_char 5 100 s) then false else has_domain (split b'@' s)
