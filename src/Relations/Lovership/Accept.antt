-- ===== src/Relations/Lovership/Accept.antt =====
-- relations/mod.rs: the steps 2, 4 and 6 of handle_account_lovership, which accept. The sender is read
-- again after the offers, and the target in front of each step.
use bc_server_rust.Base.{
  String, Bool, ◌&&◌, ◌||◌, Option, none, some, [], ◌∷◌, ℕ, ℤ, pos, ltb, length, get_elem?,
  if◌then◌else◌, int_eq, string_eq,
}
use bc_server_rust.Json.{Value, int, text, json_object, i64_field, is_number, is_some, is_text}
use bc_server_rust.Protocol.{MemberNumber}
use bc_server_rust.State.ChatRoom.{ChatRoom, socket_room_name}
use bc_server_rust.State.Account.{OnlineAccount}
use bc_server_rust.State.World.{get_by_socket, get_by_member}
use bc_server_rust.Store.{Run, then_run}
use bc_server_rust.Relations.Lovership.{lover_index, apply_mutual_lover}
use bc_server_rust.Relations.Lovership.Offer.{may_do}

abbrev pub lover_entry : MemberNumber → String → ℤ → ℤ → Value
lover_entry m name start stage = json_object (
    ("MemberNumber", int m)
    ∷ ("Name", text name)
    ∷ ("Start", int start)
    ∷ ("Stage", int stage)
    ∷ [])

module _ (connected : String → Bool) (now : ℤ) (sid : String) (r : ChatRoom) (m : MemberNumber)
    (action : Option String) where
  -- Both lists get an entry of the stage.
  abbrev pub become : ℤ → String → OnlineAccount → OnlineAccount → ℕ → Run
  become stage content src target ai =
      apply_mutual_lover connected sid (socket_room_name r) src target ai
        (lover_index target.lovership src.member_number) (lover_entry m target.name now stage)
        (lover_entry src.member_number src.name now stage) content

  -- Step 2. `rest` is what follows it; a target that is gone ends the handler.
  unfoldable pub accept_dating : OnlineAccount → Value → ℕ → Run → Run
  unfolding apply_mutual_lover lover_index
  accept_dating src entry ai rest w =
      if is_number (i64_field entry "BeginDatingOfferedByMemberNumber") m
      then elim (get_by_member w m) [
        | none ↦ (w, [])
        | some target ↦
            if ltb (length target.lovership) 5
              || is_some (lover_index target.lovership src.member_number)
            then if is_text action "Accept"
              then then_run (become (pos 0) "BeginDating" src target ai w) rest
              else then_run (may_do now sid src r m target "CanBeginDating" w) rest
            else rest w
      ]
      else rest w

  -- Step 4 and step 6.
  unfoldable pub accept_next :
      OnlineAccount → Value → ℕ → ℤ → String → ℤ → String → String → Run → Run
  unfolding apply_mutual_lover lover_index
  accept_next src entry ai stage key next content result rest w =
      if is_number (i64_field entry "Stage") stage && is_number (i64_field entry key) m
      then if is_text action "Accept"
        then elim (get_by_member w m) [
          | none ↦ (w, [])
          | some target ↦ then_run (become next content src target ai w) rest
        ]
        else then_run (may_do now sid src r m src result w) rest
      else rest w

  abbrev pub done : Run
  done w = (w, [])

  unfoldable pub accept_wedding : OnlineAccount → Value → ℕ → Run
  unfolding accept_next
  accept_wedding src entry ai =
      accept_next src entry ai (pos 1) "BeginWeddingOfferedByMemberNumber" (pos 2) "BeginWedding"
        "CanBeginWedding" done

  unfoldable pub accept_engagement : OnlineAccount → Value → ℕ → Run
  unfolding accept_next accept_wedding
  accept_engagement src entry ai =
      accept_next src entry ai (pos 0) "BeginEngagementOfferedByMemberNumber" (pos 1)
        "BeginEngagement" "CanBeginEngagement" (accept_wedding src entry ai)

  -- `count` is the length of the sender's list before the offers.
  unfoldable pub accepts : ℕ → Option ℕ → Run
  unfolding accept_dating accept_engagement
  accepts count none w = (w, [])
  accepts count (some ai) w = if ltb 5 count then (w, []) else elim (get_by_socket w sid) [
    | none ↦ (w, [])
    | some src ↦ elim (get_elem? src.lovership ai) [
      | none ↦ (w, [])
      | some entry ↦ accept_dating src entry ai (accept_engagement src entry ai) w
    ]
  ]
