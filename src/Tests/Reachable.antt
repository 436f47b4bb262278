-- ===== src/Tests/Reachable.antt =====
-- A server that has just started: an account is created, and opens a room.
use bc_server_rust.Base.{◌≡◌, refl, none, pos, string_eq}
use bc_server_rust.Base.HashMap
use bc_server_rust.Json.{find_field, insert_field}
use bc_server_rust.State.Platform.{plain}
use bc_server_rust.State.World.{World, new}
use bc_server_rust.State.Consistency.{IsConsistent}
use bc_server_rust.Room.Create.{chat_room_create}
use bc_server_rust.Auth.Create.{handle_account_create}
use bc_server_rust.Reachable.{
  Reachable, started, later, account_created, room_created, Reachable-IsConsistent,
}
use bc_server_rust.Tests.World.{room_data}
use bc_server_rust.Tests.Auth.{plain_hash, limits, stored, create_data}

abbrev first : World
first =
    (handle_account_create plain plain_hash "c" (pos 9) limits "ip" "PROD" stored create_data
      (new (pos 1))).0

abbrev second : World
second = (chat_room_create plain "c" "r" (pos 10) room_data first).0

no_room : HashMap.get first.chat_rooms "r" ≡ none
unfolding HashMap.get handle_account_create new find_field insert_field
no_room = refl

reached : Reachable plain plain_hash second
unfolding HashMap.get new
reached =
    later
      (later (started (pos 1))
        (account_created "c" "ip" "PROD" (pos 9) limits stored create_data refl refl refl))
      (room_created "c" "r" (pos 10) room_data no_room)

Reachable-IsConsistent_example : IsConsistent plain second
Reachable-IsConsistent_example = Reachable-IsConsistent plain plain_hash second reached
