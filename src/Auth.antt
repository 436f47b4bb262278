-- ===== src/Auth.antt =====
-- auth/password.rs and the ends of auth/create.rs: the hash of a password, and where a socket comes
-- from. The hash is bcrypt's.
pub mod Create
pub mod Reset
pub mod Login
use bc_server_rust.Base.{
  String, ℕ, ◌%◌, Bool, Option, none, some, List, [], any, pos, not, ◌&&◌, if◌then◌else◌, ◌==◌,
  string_eq,
}
use bc_server_rust.Base.Text.{is_empty_text, to_string}
use bc_server_rust.Json.{unwrap_or}
use bc_server_rust.Limits.{extract_ip}
use bc_server_rust.State.Platform.{Platform}

-- The library of hashes: `none` is its error.
pub record Bcrypt : Type 0 where
  pub hash : String → Option String
  pub verify : String → String → Option Bool

unfoldable pub hash_password : Platform → Bcrypt → String → Option String
hash_password P B password = B.hash (P.to_uppercase password)

unfoldable pub verify_password : Platform → Bcrypt → String → String → Option Bool
verify_password P B password hash = B.verify (P.to_uppercase password) hash

-- `stored` is the address that the connection has stored.
unfoldable pub client_ip : Option String → Option String → Option String → String
unfolding extract_ip
client_ip none remote xff = extract_ip remote xff
client_ip (some ip) remote xff =
    if not (is_empty_text ip) && not (ip == "unknown") then ip else extract_ip remote xff

-- The rooms of the production and of the development are apart, and a visitor without an origin is
-- alone.
unfoldable pub account_environment : Platform → List String → Option String → ℕ → String
unfolding to_string any
account_environment P production origin random =
    let o = P.to_lowercase (unwrap_or origin "") in
    if is_empty_text o
    then to_string (pos (random % 1_000_000_000_000))
    else if any (λ p. p == o) production
    then "PROD"
    else "DEV"
