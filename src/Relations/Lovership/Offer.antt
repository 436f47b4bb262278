-- ===== src/Relations/Lovership/Offer.antt =====
-- relations/mod.rs: the steps 1, 3 and 5 of handle_account_lovership, which offer. The target is the
-- snapshot that the handler takes before it changes anything.
use bc_server_rust.Base.{
  String, Bool, false, not, ◌&&◌, ◌||◌, Option, none, some, List, [], ◌∷◌, ℕ, ℤ, pos, ◌+i64◌, ltb,
  leb_ℤ, length, get_elem?, adjust_at, push, if◌then◌else◌, int_eq, string_eq,
}
use bc_server_rust.Json.{
  Value, object, int, text, json_object, json_array, get_field, i64_field, is_number, is_some,
  is_text, insert_field,
}
use bc_server_rust.Util.Validate.{lovership_delay_ms}
use bc_server_rust.Protocol.{MemberNumber, emit}
use bc_server_rust.Protocol.Events
use bc_server_rust.State.ChatRoom.{ChatRoom, socket_room_name}
use bc_server_rust.State.Account.{OnlineAccount}
use bc_server_rust.State.World.{update_account}
use bc_server_rust.Room.Sync.{room_message}
use bc_server_rust.Store.{Run, tell, tell_all, run_both}
use bc_server_rust.Relations.Lovership.{lover_tag, set_lovership}

abbrev pub begin_dating : MemberNumber → Value
begin_dating m = json_object (("BeginDatingOfferedByMemberNumber", int m) ∷ [])

abbrev pub add_offer : String → MemberNumber → Value → Value
add_offer key m (object fs) = object (insert_field fs key (int m))
add_offer key m v = v

module _ (now : ℤ) (sid : String) (src : OnlineAccount) (r : ChatRoom) (m : MemberNumber)
    (target : OnlineAccount) where
  abbrev pub may_do : String → Run
  may_do result w = (
    w,
    tell (
          emit sid Events.account_lovership
            (json_object (("MemberNumber", int m) ∷ ("Result", text result) ∷ [])))
        ∷ [],
  )

  -- A change of the target's list, and the word of it to the target.
  abbrev pub offer_with : String → (List Value → List Value) → Run
  offer_with content f w =
      let w' = update_account w target.socket_id (set_lovership f) in
      (
        w',
        tell_all (
            room_message w' (socket_room_name r) src.member_number content "ServerMessage" (some m)
              (some (json_array (lover_tag "SourceCharacter" src.name src.member_number ∷ [])))),
      )

  unfoldable pub offer_dating : Option String → Option ℕ → Run
  unfolding room_message
  offer_dating action tl w =
      if ltb (length target.lovership) 5 && not (is_some tl)
      then if is_text action "Propose"
        then offer_with "OfferBeginDating" (λ l. push l (begin_dating src.member_number)) w
        else may_do "CanOfferBeginDating" w
      else (w, [])

  -- The entry is at the stage, long enough, and the next is not yet offered.
  abbrev pub is_due : Value → String → ℤ → Bool
  is_due entry key stage =
      not (is_some (get_field entry key))
      && is_number (i64_field entry "Stage") stage
      && elim (i64_field entry "Start") [
        | none ↦ false
        | some s ↦ leb_ℤ (s +i64 lovership_delay_ms) now
      ]

  unfoldable pub offer_next : Option String → Value → ℕ → String → ℤ → String → String → Run
  unfolding room_message
  offer_next action entry ti key stage content result w =
      if is_due entry key stage
      then if is_text action "Propose"
        then offer_with content (λ l. adjust_at l ti (add_offer key src.member_number)) w
        else may_do result w
      else (w, [])

  unfoldable pub offer_further : Option String → Option ℕ → Run
  unfolding offer_next
  offer_further action none w = (w, [])
  offer_further action (some ti) w = elim (get_elem? target.lovership ti) [
    | none ↦ (w, [])
    | some entry ↦
        run_both
          (offer_next action entry ti "BeginEngagementOfferedByMemberNumber" (pos 0)
            "OfferBeginEngagement" "CanOfferBeginEngagement")
          (offer_next action entry ti "BeginWeddingOfferedByMemberNumber" (pos 1)
            "OfferBeginWedding" "CanOfferBeginWedding")
          w
  ]

  unfoldable pub offers : Option String → Option ℕ → Option ℕ → Run
  unfolding offer_dating offer_further
  offers action al tl w =
      if (ltb (length src.lovership) 5 && not (is_some al)) || is_some al
      then run_both (offer_dating action tl) (offer_further action tl) w
      else (w, [])
