-- ===== src/State/Platform.antt =====
-- What the server takes from outside its own sources: the Unicode case tables, the cast of a float
-- and the printer of serde_json. The theorems hold for every choice.
use bc_server_rust.Base.{ℕ, String, ℤ, pos}
use bc_server_rust.Json.{Value}

pub record Platform : Type 0 where
  pub to_uppercase : String → String
  pub to_lowercase : String → String
  pub f64_to_i64 : ℕ → ℤ  -- `f as i64`, on the bit pattern
  pub value_to_string : Value → String  -- `Value::to_string`

-- A platform on which case does not matter, for tests.
abbrev pub plain : Platform
plain = record {
  to_uppercase = λ s. s;
  to_lowercase = λ s. s;
  f64_to_i64 = λ n. pos 0;
  value_to_string = λ v. "";
}
