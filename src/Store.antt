-- ===== src/Store.antt =====
-- db/mod.rs: what the server asks of the account store, and what a handler that awaits it does.
use bc_server_rust.Base.{
  String, ◌||◌, Option, none, some, List, [], ◌∷◌, ◌++◌, map, ℤ, if◌then◌else◌, ◌==◌, string_eq,
}
use bc_server_rust.Json.{
  Value, null, int, text, object, Fields, end, field, fields, insert_field, is_no_field,
}
use bc_server_rust.Protocol.{MemberNumber, Emission}
use bc_server_rust.State.World.{World}

-- The requests that reach the database.
pub data Write : Type 0 where
  fields_by_name : String → Fields → Write
  fields_by_number : MemberNumber → Fields → Write
  new_document : Value → Write
  drop_lover : MemberNumber → MemberNumber → Write  -- of the first, the second

pub data Effect : Type 0 where
  tell : Emission → Effect
  store : Write → Effect
  mail : String → List (String × String) → Effect  -- the address, the accounts and their numbers
  login_handlers : String → Effect  -- `on_login`: the socket gets the handlers of a session

-- A handler that awaits the database: the world after it, and what it sends and writes, in order.
abbrev pub Run : Type 0
Run = World → World × List Effect

abbrev pub tell_all : List Emission → List Effect
tell_all = map tell

-- One part of a handler, and the rest of it on the world that the part leaves.
abbrev pub then_run : World × List Effect → Run → World × List Effect
then_run (w, out) g = let (w', more) = g w in (w', out ++ more)

abbrev pub run_both : Run → Run → Run
run_both f g w = then_run (f w) g

-- The facade `Db`: an update of no field does not reach the database.
unfoldable pub update_fields : String → Fields → List Effect
update_fields name set = if is_no_field set then [] else store (fields_by_name name set) ∷ []

unfoldable pub update_fields_by_member_number : MemberNumber → Fields → List Effect
update_fields_by_member_number m set =
    if is_no_field set then [] else store (fields_by_number m set) ∷ []

unfoldable pub insert_account : Value → List Effect
insert_account doc = store (new_document doc) ∷ []

unfoldable pub pull_lovership_member : MemberNumber → MemberNumber → List Effect
pull_lovership_member target source = store (drop_lover target source) ∷ []

unfoldable pub clear_ownership : String → List Effect
unfolding update_fields
clear_ownership name = update_fields name (fields (("Owner", text "") ∷ ("Ownership", null) ∷ []))

unfoldable pub set_password : String → String → List Effect
unfolding update_fields
set_password name hash = update_fields name (fields (("Password", text hash) ∷ []))

unfoldable pub set_member_number : String → MemberNumber → List Effect
unfolding update_fields
set_member_number name n = update_fields name (fields (("MemberNumber", int n) ∷ []))

unfoldable pub set_last_login : String → ℤ → List Effect
unfolding update_fields
set_last_login name t = update_fields name (fields (("LastLogin", int t) ∷ []))

unfoldable pub set_email : String → String → List Effect
unfolding update_fields
set_email name email = update_fields name (fields (("Email", text email) ∷ []))

-- The fields of a payload without those that are never stored.
unfoldable pub stored_fields : Fields → Fields
stored_fields end = end
stored_fields (field k v fs) =
    let rest = stored_fields fs in
    if k == "_id" || k == "MapData" then rest else insert_field rest k v

unfoldable pub json_object_to_set_map : Value → Option Fields
unfolding stored_fields
json_object_to_set_map (object fs) = some (stored_fields fs)
json_object_to_set_map _ = none

-- `if let Ok(doc) = json_object_to_set_map(set) { db.update_fields(name, doc) }`.
unfoldable pub save_fields : String → Value → List Effect
unfolding json_object_to_set_map update_fields
save_fields name set = elim (json_object_to_set_map set) [
  | none ↦ []
  | some doc ↦ update_fields name doc
]
