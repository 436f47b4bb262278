-- ===== src/Relations/Lovership/Clean.antt =====
-- relations/mod.rs: no offer reaches the database.
use bc_server_rust.Base.{
  String, Bool, true, false, not, ◌&&◌, ◌||◌, ◌≡◌, refl, Option, none, some, List, [], ◌∷◌, ◌++◌,
  arith, all, ◌==◌, ==_iff, int_eq, string_eq,
}
use bc_server_rust.Json.{
  Value, null, bool, int, float, text, array, object, Fields, find_field, insert_field,
  remove_field, to_list, get_field, is_some,
}
use bc_server_rust.Json.Laws.{find_field-remove_field, to_list-from_list}
use bc_server_rust.Protocol.{MemberNumber, Emission}
use bc_server_rust.Store.{
  Effect, tell, store, mail, login_handlers, tell_all, fields_by_name, fields_by_number,
  new_document, drop_lover, update_fields_by_member_number, json_object_to_set_map, stored_fields,
}
use bc_server_rust.Relations.Lovership.{clean_lovership, strip_offers, persist_lovership_clean}

-- An entry of a list with no offer in it.
abbrev pub is_offer_free : Value → Bool
is_offer_free v =
    not (is_some (get_field v "BeginDatingOfferedByMemberNumber"))
    && not (is_some (get_field v "BeginEngagementOfferedByMemberNumber"))
    && not (is_some (get_field v "BeginWeddingOfferedByMemberNumber"))

abbrev all_free : Option Value → Bool
all_free (some (array vs)) = all is_offer_free (to_list vs)
all_free _ = false

-- A write of one list of lovers, all of them free of offers, or the removal of a lover.
abbrev pub is_clean_write : Effect → Bool
is_clean_write (tell e) = true
is_clean_write (mail address pairs) = true
is_clean_write (login_handlers sid) = true
is_clean_write (store (fields_by_name name fs)) = false
is_clean_write (store (fields_by_number m fs)) = all_free (find_field fs "Lovership")
is_clean_write (store (new_document v)) = false
is_clean_write (store (drop_lover m n)) = true

-- A key that is removed in one of three places is gone.
stripped :
    (fs : Fields) (a b c k : String)
    → ((k == a) || (k == b) || (k == c)) ≡ true
    → find_field (remove_field (remove_field (remove_field fs a) b) c) k ≡ none
stripped fs a b c k h = ground (
  arith,
  find_field-remove_field (remove_field (remove_field fs a) b) c k,
  find_field-remove_field (remove_field fs a) b k,
  find_field-remove_field fs a k,
  ==_iff k a,
  ==_iff k b,
  ==_iff k c,
  ==_iff a k,
  ==_iff b k,
  ==_iff c k,
)

pub strip_offers_lem : (v : Value) → is_offer_free (strip_offers v) ≡ true
strip_offers_lem (object fs) =
    rw
      (
        stripped fs "BeginEngagementOfferedByMemberNumber" "BeginWeddingOfferedByMemberNumber"
            "BeginDatingOfferedByMemberNumber" "BeginDatingOfferedByMemberNumber" refl,
        stripped fs "BeginEngagementOfferedByMemberNumber" "BeginWeddingOfferedByMemberNumber"
            "BeginDatingOfferedByMemberNumber" "BeginEngagementOfferedByMemberNumber" refl,
        stripped fs "BeginEngagementOfferedByMemberNumber" "BeginWeddingOfferedByMemberNumber"
            "BeginDatingOfferedByMemberNumber" "BeginWeddingOfferedByMemberNumber" refl,
      )
      refl
strip_offers_lem null = refl
strip_offers_lem (bool b) = refl
strip_offers_lem (int z) = refl
strip_offers_lem (float z) = refl
strip_offers_lem (text t) = refl
strip_offers_lem (array l) = refl

pub clean_lovership_lem : (l : List Value) → all is_offer_free (clean_lovership l) ≡ true
unfolding clean_lovership all
clean_lovership_lem [] = refl
clean_lovership_lem (v ∷ l) = ground (arith, strip_offers_lem v, clean_lovership_lem l)

pub all-append :
    (out more : List Effect)
    → all is_clean_write out ≡ true
    → all is_clean_write more ≡ true
    → all is_clean_write (out ++ more) ≡ true
unfolding all
all-append [] more h g = g
all-append (e ∷ out) more h g = ground (arith, all-append out more)

pub all-tell_all : (es : List Emission) → all is_clean_write (tell_all es) ≡ true
unfolding all
all-tell_all [] = refl
all-tell_all (e ∷ es) = all-tell_all es

pub persist_lovership_clean_lem :
    (m : MemberNumber) (l : List Value) → all is_clean_write (persist_lovership_clean m l) ≡ true
unfolding all persist_lovership_clean json_object_to_set_map stored_fields
    update_fields_by_member_number insert_field find_field
persist_lovership_clean_lem m l = rw to_list-from_list (ground (arith, clean_lovership_lem l))
