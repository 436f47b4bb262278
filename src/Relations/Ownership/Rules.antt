-- ===== src/Relations/Ownership/Rules.antt =====
-- relations/mod.rs: the ways in which an ownership may change, apart from the code that changes it.
use mathlib.Core.Path.{subst}
use bc_server_rust.Base.{
  String, true, false, ◌≡◌, ◌≢◌, refl, sym, ap, ◌∙◌, ◌⊎◌, inl, inr, Option, none, some, ℤ, pos,
  ◌+i64◌, ◌≤ℤ◌, contains, arith, int_eq, string_eq, ==_iff, Bool-cases,
}
use bc_server_rust.Base.HashMap.{map_option}
use bc_server_rust.Json.{
  Value, null, bool, int, float, text, array, object, get_field, is_some, ◌>>=◌, find_field,
  insert_field,
}
use bc_server_rust.Json.Laws.{find_field-insert_field}
use bc_server_rust.Util.Validate.{ownership_delay_ms}
use bc_server_rust.Protocol.{MemberNumber}
use bc_server_rust.State.Account.{OnlineAccount}
use bc_server_rust.State.World.{World, get_by_member}
use bc_server_rust.Relations.Ownership.{
  owner_member, stage_of, start_of, start_offer, end_offer, difficulty_level, freed, offered,
  insert_offer, end_offered, set_ownership, bond, bound,
}

-- What one request may do to a session: `src` asks, about the member `m`, and `doc` is the stored
-- account of that member.
pub data Step (w : World) (now : ℤ) (doc : Option Value) (m : MemberNumber) (src : OnlineAccount)
    : OnlineAccount → OnlineAccount → Type 0 where
  stay : {a : OnlineAccount} → Step w now doc m src a a
  -- The trial ends at will, the collar after the delay and not at the difficulty Extreme.
  broken :
      {s t : ℤ}
      → stage_of src.ownership ≡ some s
      → start_of src.ownership ≡ some t
      → ((s ≡ pos 0) ⊎ ((t +i64 ownership_delay_ms ≤ℤ now) × (difficulty_level src ≤ℤ pos 2)))
      → Step w now doc m src src (freed src)
  released :
      {a : OnlineAccount}
      → get_by_member w m ≡ some a
      → owner_member a.ownership ≡ some src.member_number
      → Step w now doc m src a (freed a)
  -- The stored account counts when the two are in different rooms.
  released_stored :
      {a : OnlineAccount} {d : Value}
      → get_by_member w m ≡ some a
      → doc ≡ some d
      → owner_member (get_field d "Ownership") ≡ some src.member_number
      → Step w now doc m src a (freed a)
  noted :
      {a : OnlineAccount} {v v' : Value}
      → get_by_member w m ≡ some a
      → a.ownership ≡ some v
      → owner_member a.ownership ≡ some src.member_number
      → stage_of a.ownership ≡ some (pos 1)
      → ((k : String) → k ≢ "Notes" → get_field v' k ≡ get_field v k)
      → Step w now doc m src a (set_ownership v' a)
  offering :
      {a : OnlineAccount}
      → get_by_member w m ≡ some a
      → a.owner ≡ ""
      → (a.ownership >>= λ o. get_field o "MemberNumber") ≡ none
      → contains a.black_list src.member_number ≡ false
      → src.member_number ≢ m
      → Step w now doc m src a (offered src.member_number a)
  offering_end :
      {a : OnlineAccount} {t : ℤ}
      → get_by_member w m ≡ some a
      → owner_member a.ownership ≡ some src.member_number
      → stage_of a.ownership ≡ some (pos 0)
      → start_of a.ownership ≡ some t
      → t +i64 ownership_delay_ms ≤ℤ now
      → contains a.black_list src.member_number ≡ false
      → Step w now doc m src a (end_offered src.member_number a)
  starting :
      {t : OnlineAccount}
      → get_by_member w m ≡ some t
      → start_offer src.ownership ≡ some m
      → ((owner_member src.ownership ≡ none) ⊎ (owner_member src.ownership ≡ some m))
      → contains t.black_list src.member_number ≡ false
      → Step w now doc m src src (bound "" (bond m t.name now (pos 0)) src)
  collaring :
      {t : OnlineAccount}
      → get_by_member w m ≡ some t
      → stage_of src.ownership ≡ some (pos 0)
      → end_offer src.ownership ≡ some m
      → ((owner_member src.ownership ≡ none) ⊎ (owner_member src.ownership ≡ some m))
      → contains t.black_list src.member_number ≡ false
      → Step w now doc m src src (bound t.name (bond m t.name now (pos 1)) src)

-- An offer to start a trial stands beside no stage.
unfoldable pub IsBond : Option Value → Type 0
IsBond o =
    is_some (o >>= λ v. get_field v "StartTrialOfferedByMemberNumber") ≡ true
    → (o >>= λ v. get_field v "Stage") ≡ none

IsBond-bond :
    (m : MemberNumber) (name : String) (start stage : ℤ) → IsBond (some (bond m name start stage))
unfolding IsBond find_field insert_field
IsBond-bond m name start stage = λ h. absurd (ground arith)

start_not_end : ◌≢◌ {A = String} "StartTrialOfferedByMemberNumber" "EndTrialOfferedByMemberNumber"
start_not_end = λ e.
    ground
      (arith, ==_iff {A = String} "StartTrialOfferedByMemberNumber" "EndTrialOfferedByMemberNumber")

start_not_notes : ◌≢◌ {A = String} "StartTrialOfferedByMemberNumber" "Notes"
start_not_notes = λ e. ground (arith, ==_iff {A = String} "StartTrialOfferedByMemberNumber" "Notes")

-- An ownership with a stage keeps it apart from an offer to start.
pub staged :
    (o : Option Value) (z : ℤ)
    → stage_of o ≡ some z
    → IsBond o
    → is_some (o >>= λ v. get_field v "StartTrialOfferedByMemberNumber") ≡ false
unfolding IsBond
staged none z s h = refl
staged (some v) z s h =
    elim (Bool-cases (is_some (get_field v "StartTrialOfferedByMemberNumber"))) [
      | inr n ↦ n
      | inl y ↦ absurd (ground (arith, h y))
    ]

get_field-insert_offer :
    (v : Value) (m : MemberNumber) (k : String)
    → k ≢ "EndTrialOfferedByMemberNumber"
    → get_field (insert_offer m v) k ≡ get_field v k
get_field-insert_offer null m k n = refl
get_field-insert_offer (bool b) m k n = refl
get_field-insert_offer (int z) m k n = refl
get_field-insert_offer (float z) m k n = refl
get_field-insert_offer (text t) m k n = refl
get_field-insert_offer (array l) m k n = refl
get_field-insert_offer (object fs) m k n = ground (
  arith,
  find_field-insert_field fs "EndTrialOfferedByMemberNumber" k (int m),
  ==_iff "EndTrialOfferedByMemberNumber" k,
)

offered_end :
    (o : Option Value) (m : MemberNumber)
    → is_some (o >>= λ v. get_field v "StartTrialOfferedByMemberNumber") ≡ false
    → IsBond (map_option (insert_offer m) o)
unfolding IsBond
offered_end none m h = λ x. refl
offered_end (some v) m h = λ x. absurd (
    ground (
      arith,
      sym x
          ∙ (ap is_some (get_field-insert_offer v m "StartTrialOfferedByMemberNumber" start_not_end)
              ∙ h),
    ))

pub Step-IsBond :
    {w : World} {now : ℤ} {doc : Option Value} {m : MemberNumber} {src a b : OnlineAccount}
    → Step w now doc m src a b
    → IsBond a.ownership
    → IsBond b.ownership
unfolding IsBond find_field insert_field
Step-IsBond Step.stay h = h
Step-IsBond (Step.broken e f g) h = λ x. refl
Step-IsBond (Step.released g e) h = λ x. refl
Step-IsBond (Step.released_stored g e f) h = λ x. refl
Step-IsBond (Step.noted {a} {v} {v'} g e f s k) h = λ x. absurd (
    ground (
      arith,
      sym x
          ∙ (ap is_some (k "StartTrialOfferedByMemberNumber" start_not_notes)
              ∙ subst
                  (λ o. is_some (o >>= λ u. get_field u "StartTrialOfferedByMemberNumber") ≡ false)
                  e (staged a.ownership (pos 1) s h)),
    ))
Step-IsBond (Step.offering g e f b n) h = λ x. refl
Step-IsBond (Step.offering_end {a} {t} g e s f l b) h =
    offered_end a.ownership _ (staged a.ownership (pos 0) s h)
Step-IsBond {now = now} {m = m} (Step.starting {t} g e o b) h = IsBond-bond m t.name now (pos 0)
Step-IsBond {now = now} {m = m} (Step.collaring {t} g e f o b) h = IsBond-bond m t.name now (pos 1)
