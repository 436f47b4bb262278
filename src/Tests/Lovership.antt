-- ===== src/Tests/Lovership.antt =====
-- relations/mod.rs at concrete inputs: Ann and Bea are dating.
use bc_server_rust.Base.{
  none, string_eq, ℕ, suc, ℤ, length, get_elem?, ltb, IsIn, inl, if◌then◌else◌, ◌≢◌, String, pos,
  true, false, ◌≡◌, ◌≢◌, refl, some, [], ◌∷◌, all, arith, int_beq, fits_i64, position, string_eq,
  int_eq, ==_iff, none,
}
use bc_server_rust.Base.HashMap
use bc_server_rust.Json.{
  Value, Fields, fields, i64_field, is_number, text, int, json_object, find_field, insert_field,
}
use bc_server_rust.State.Account.{OnlineAccount}
use bc_server_rust.State.World.{World}
use bc_server_rust.Relations.Lovership.{lover_index}
use bc_server_rust.Relations.Lovership.Offer.{begin_dating}
use bc_server_rust.Relations.Lovership.Accept.{lover_entry}
use bc_server_rust.Relations.Lovership.Break.{handle_lover_break}
use bc_server_rust.Relations.Lovership.Handler.{handle_account_lovership}
use bc_server_rust.Relations.Lovership.Clean.{is_clean_write}
use bc_server_rust.Relations.Lovership.Persisted.{handle_account_lovership_lem}
use bc_server_rust.Relations.Lovership.Parting.{handle_lover_break_lem}
use bc_server_rust.Tests.World.{lobby, ann, bea}
use bc_server_rust.Tests.Ownership.{nobody}

abbrev with_bea : OnlineAccount
with_bea = record ann { lovership = lover_entry (pos 2) "b" (pos 0) (pos 0) ∷ [] }

abbrev with_ann : OnlineAccount
with_ann = record bea {
  lovership = lover_entry (pos 1) "a" (pos 0) (pos 0) ∷ begin_dating (pos 7) ∷ [];
}

abbrev couple : World
couple = record lobby { accounts_by_socket = ("a", with_bea) ∷ ("b", with_ann) ∷ [] }

-- A lover who has offered to marry, beside an offer of somebody else.
abbrev engaged : Fields
engaged =
    fields (("MemberNumber", int (pos 1)) ∷ ("BeginWeddingOfferedByMemberNumber", int (pos 1)) ∷ [])

break_data : Value
break_data = json_object (("MemberNumber", int (pos 2)) ∷ ("Action", text "Break") ∷ [])

handle_account_lovership_lem_example :
    all is_clean_write (handle_account_lovership nobody (pos 9) "a" break_data couple).1 ≡ true
handle_account_lovership_lem_example =
    handle_account_lovership_lem nobody (pos 9) "a" break_data couple

unmarried : ◌≢◌ {A = ℤ} (pos 0) (pos 2)
unmarried e = ground (arith, ==_iff {A = ℤ} (pos 0) (pos 2))

apart : ◌≢◌ {A = String} "a" "b"
apart = λ e. ground (arith, ==_iff {A = String} "a" "b")

-- Ann leaves Bea, who keeps an offer of somebody else.
handle_lover_break_lem_example :
    (x y : OnlineAccount) × (HashMap.get
        (handle_lover_break nobody (pos 9) "a" (pos 2) none couple).0.accounts_by_socket
        "a"
      ≡ some x)
    × (suc (length x.lovership) ≡ length with_bea.lovership)
    × ((k : ℕ)
        → get_elem? x.lovership k ≡ get_elem? with_bea.lovership (if ltb k 0 then k else suc k))
    × (HashMap.get
          (handle_lover_break nobody (pos 9) "a" (pos 2) none couple).0.accounts_by_socket
          "b"
        ≡ some y)
    × ((v : Value) → IsIn v y.lovership → is_number (i64_field v "MemberNumber") (pos 1) ≡ false)
    × ((v : Value)
        → IsIn v with_ann.lovership
        → is_number (i64_field v "MemberNumber") (pos 1) ≡ false
        → IsIn v y.lovership)
    × ((k : String)
        → k ≢ "a"
        → k ≢ "b"
        → HashMap.get
            (handle_lover_break nobody (pos 9) "a" (pos 2) none couple).0.accounts_by_socket
            k
          ≡ HashMap.get couple.accounts_by_socket k)
unfolding HashMap.get int_beq lover_index position find_field insert_field fits_i64
handle_lover_break_lem_example =
    handle_lover_break_lem nobody (pos 9) "a" (pos 2) couple with_bea refl "b" with_ann apart refl
      refl none 0 (lover_entry (pos 2) "b" (pos 0) (pos 0)) (pos 0) (pos 0) refl refl refl refl refl
      (inl unmarried)
