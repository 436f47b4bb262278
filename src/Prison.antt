-- ===== src/Prison.antt =====
-- account/mod.rs: what the members of a prison sector are sent.
use Prim.Native.String.{◌++◌}
use bc_server_rust.Base.{
  ℕ, pos, String, Option, none, some, List, [], ◌∷◌, map, filter_map, leb_ℤ, if◌then◌else◌, ◌==◌,
  int_eq, string_eq,
}
use bc_server_rust.Base.HashMap
use bc_server_rust.Base.Text.{to_string}
use bc_server_rust.Json.{
  Value, null, int, text, json_object, json_array, find_field, as_str, unwrap_or, ◌>>=◌,
}
use bc_server_rust.Protocol.{MemberNumber, Emission, emit}
use bc_server_rust.Protocol.Events
use bc_server_rust.State.Account.{OnlineAccount}
use bc_server_rust.State.World.{World, PrisonSectorSession, get_by_member}

unfoldable pub prison_sector_key : MemberNumber → ℕ → String
prison_sector_key host sector = to_string host ++ ":" ++ to_string (pos sector)

abbrev or_null : Option Value → Value
or_null none = null
or_null (some v) = v

abbrev pub text_or_null : Option String → Value
text_or_null none = null
text_or_null (some s) = text s

unfoldable pub sector_entry : MemberNumber → OnlineAccount → Value
sector_entry host a = json_object (
    ("MemberNumber", int a.member_number)
    ∷ ("Name", text a.name)
    ∷ ("Role", text (if a.member_number == host then "Owner" else "Renter"))
    ∷ ("AssetFamily", text (unwrap_or (find_field a.extra "AssetFamily" >>= as_str) "Female3DCG"))
    ∷ ("Appearance", unwrap_or a.appearance (json_array []))
    ∷ ("ActivePose", or_null a.active_pose)
    ∷ ("Title", text_or_null a.title)
    ∷ [])

-- The stable sort by the member numbers.
unfoldable pub insert_member : OnlineAccount → List OnlineAccount → List OnlineAccount
insert_member a [] = a ∷ []
insert_member a (b ∷ bs) =
    if leb_ℤ a.member_number b.member_number then a ∷ b ∷ bs else b ∷ insert_member a bs

unfoldable pub by_member_number : List OnlineAccount → List OnlineAccount
unfolding insert_member
by_member_number [] = []
by_member_number (a ∷ bs) = insert_member a (by_member_number bs)

abbrev online_members : World → PrisonSectorSession → List OnlineAccount
online_members w s = filter_map (get_by_member w) s.members

unfoldable pub prison_sector_snapshot : World → MemberNumber → ℕ → Option (List Value)
unfolding prison_sector_key sector_entry by_member_number
prison_sector_snapshot w host sector =
    elim (HashMap.get w.prison_sector_sessions (prison_sector_key host sector)) [
      | none ↦ none
      | some s ↦ some (map (sector_entry host) (by_member_number (online_members w s)))
    ]

unfoldable pub emit_prison_sector_sync : World → MemberNumber → ℕ → List Emission
unfolding prison_sector_snapshot prison_sector_key
emit_prison_sector_sync w host sector =
    elim (HashMap.get w.prison_sector_sessions (prison_sector_key host sector)) [
      | none ↦ []
      | some s ↦
          let payload = json_object (
            ("HostMemberNumber", int host)
            ∷ ("SectorIndex", int (pos sector))
            ∷ ("Mode", text "AI")
            ∷ ("Members", json_array (unwrap_or (prison_sector_snapshot w host sector) []))
            ∷ []) in
          map (λ (a : OnlineAccount). emit a.socket_id Events.prison_sector_sync payload)
            (online_members w s)
    ]
