-- ===== src/Relations/Lovership/Persisted.antt =====
-- relations/mod.rs: no run of the handler of lovers writes an offer to the database.
use bc_server_rust.Base.{
  String, Bool, true, not, ◌&&◌, ◌||◌, ◌≡◌, inl, inr, Option, none, some, [], ℕ, ℤ, pos, ltb,
  length, get_elem?, all, contains, ◌==◌, int_eq, string_eq, Bool-cases, Option-cases,
}
use bc_server_rust.Base.HashMap
use bc_server_rust.Json.{Value, i64_field, str_field, is_text, is_number, is_some}
use bc_server_rust.Protocol.{MemberNumber}
use bc_server_rust.State.ChatRoom.{ChatRoom, socket_room_name}
use bc_server_rust.State.Account.{OnlineAccount}
use bc_server_rust.State.World.{World, get_by_member}
use bc_server_rust.Chat.{in_room}
use bc_server_rust.State.Platform.{Platform}
use bc_server_rust.State.Consistency.{IsConsistent}
use bc_server_rust.Store.{Run}
use bc_server_rust.Relations.Lovership.{
  apply_mutual_lover, tell_room, put_at, put_or_push, lover_index, mutual_world,
}
use bc_server_rust.Relations.Lovership.Accept.{
  accept_dating, accept_next, accept_engagement, accept_wedding, accepts,
}
use bc_server_rust.Relations.Lovership.Handler.{court, court_in_room, handle_account_lovership}
use bc_server_rust.Relations.Lovership.Clean.{is_clean_write, all-tell_all}
use bc_server_rust.Relations.Lovership.Accept.{become, done, lover_entry}
use bc_server_rust.Relations.Lovership.Writes.{
  IsProperRun, then_run-IsProper, left_one, changed, idle, nothing, saved, tell_lovership_lem,
  handle_lover_break_lem, may_do_lem, offers_lem,
}

apply_mutual_lover_lem :
    (connected : String → Bool) (sid room_name : String) (src target : OnlineAccount) (ai : ℕ)
    (tl : Option ℕ) (v u : Value) (content : String)
    → IsProperRun (apply_mutual_lover connected sid room_name src target ai tl v u content)
unfolding apply_mutual_lover
apply_mutual_lover_lem connected sid room_name src target ai tl v u content w =
    left_one (changed src.socket_id (put_at ai v) [] nothing) (
      changed target.socket_id (put_or_push tl u) _ (
        saved _ _ _ (
          saved _ _ _ (
            tell_lovership_lem _ _ _ (
              tell_lovership_lem _ _ _ (
                all-tell_all (
                  tell_room connected (mutual_world src target ai tl v u w) sid room_name src
                    content v)))))))

module _ (connected : String → Bool) (now : ℤ) (sid : String) (r : ChatRoom) (m : MemberNumber)
    (action : Option String) where
  become_lem :
      (stage : ℤ) (content : String) (src target : OnlineAccount) (ai : ℕ)
      → IsProperRun (become connected now sid r m action stage content src target ai)
  become_lem stage content src target ai w =
      apply_mutual_lover_lem connected sid (socket_room_name r) src target ai
        (lover_index target.lovership src.member_number) (lover_entry m target.name now stage)
        (lover_entry src.member_number src.name now stage) content w

  accept_dating_lem :
      (src : OnlineAccount) (entry : Value) (ai : ℕ) (rest : Run)
      → IsProperRun rest
      → IsProperRun (accept_dating connected now sid r m action src entry ai rest)
  unfolding accept_dating
  accept_dating_lem src entry ai rest c w =
      elim (Bool-cases (is_number (i64_field entry "BeginDatingOfferedByMemberNumber") m)) [
        | inr h ↦ rw (h, accept_dating) (c w)
        | inl h ↦ elim (Option-cases (get_by_member w m)) [
          | inl e ↦ rw (h, e, accept_dating) idle
          | inr (t, e) ↦
              elim (Bool-cases (
                ltb (length t.lovership) 5
                || is_some (lover_index t.lovership src.member_number))) [
                  | inr f ↦ rw (h, e, f, accept_dating) (c w)
                  | inl f ↦ elim (Bool-cases (is_text action "Accept")) [
                    | inl y ↦
                        rw (h, e, f, y, accept_dating)
                          (then_run-IsProper rest (become_lem (pos 0) "BeginDating" src t ai w) c)
                    | inr y ↦
                        rw (h, e, f, y, accept_dating)
                          (then_run-IsProper rest (may_do_lem now sid src r m t "CanBeginDating" w)
                            c)
                  ]
                ]
        ]
      ]

  accept_next_lem :
      (src : OnlineAccount) (entry : Value) (ai : ℕ) (stage : ℤ) (key : String) (next : ℤ)
      (content result : String) (rest : Run)
      → IsProperRun rest
      → IsProperRun
          (accept_next connected now sid r m action src entry ai stage key next content result rest)
  unfolding accept_next
  accept_next_lem src entry ai stage key next content result rest c w =
      elim (Bool-cases
        (is_number (i64_field entry "Stage") stage && is_number (i64_field entry key) m)) [
          | inr h ↦ rw (h, accept_next) (c w)
          | inl h ↦ elim (Bool-cases (is_text action "Accept")) [
            | inr y ↦
                rw (h, y, accept_next)
                  (then_run-IsProper rest (may_do_lem now sid src r m src result w) c)
            | inl y ↦ elim (Option-cases (get_by_member w m)) [
              | inl e ↦ rw (h, y, e, accept_next) idle
              | inr (t, e) ↦
                  rw (h, y, e, accept_next)
                    (then_run-IsProper rest (become_lem next content src t ai w) c)
            ]
          ]
        ]

  accept_wedding_lem :
      (src : OnlineAccount) (entry : Value) (ai : ℕ)
      → IsProperRun (accept_wedding connected now sid r m action src entry ai)
  unfolding accept_wedding
  accept_wedding_lem src entry ai =
      accept_next_lem src entry ai (pos 1) "BeginWeddingOfferedByMemberNumber" (pos 2)
        "BeginWedding" "CanBeginWedding" (done connected now sid r m action) (λ x. idle)

  accept_engagement_lem :
      (src : OnlineAccount) (entry : Value) (ai : ℕ)
      → IsProperRun (accept_engagement connected now sid r m action src entry ai)
  unfolding accept_engagement
  accept_engagement_lem src entry ai =
      accept_next_lem src entry ai (pos 0) "BeginEngagementOfferedByMemberNumber" (pos 1)
        "BeginEngagement" "CanBeginEngagement"
        (accept_wedding connected now sid r m action src entry ai) (accept_wedding_lem src entry ai)

  accepts_lem :
      (count : ℕ) (al : Option ℕ) → IsProperRun (accepts connected now sid r m action count al)
  unfolding accepts
  accepts_lem count none w = idle
  accepts_lem count (some ai) w = elim (Bool-cases (ltb 5 count)) [
    | inl h ↦ rw (h, accepts) idle
    | inr h ↦ elim (Option-cases (HashMap.get w.accounts_by_socket sid)) [
      | inl e ↦ rw (h, e, accepts) idle
      | inr (src, e) ↦ elim (Option-cases (get_elem? src.lovership ai)) [
        | inl f ↦ rw (h, e, f, accepts) idle
        | inr (entry, f) ↦
            rw (h, e, f, accepts)
              (accept_dating_lem src entry ai
                (accept_engagement connected now sid r m action src entry ai)
                (accept_engagement_lem src entry ai) w)
      ]
    ]
  ]

module _ (connected : String → Bool) (now : ℤ) (sid : String) where
  court_lem :
      (src : OnlineAccount) (r : ChatRoom) (m : MemberNumber) (action : Option String)
      (target : OnlineAccount)
      → IsProperRun (court connected now sid src r m action target)
  unfolding court
  court_lem src r m action target w =
      then_run-IsProper
        (accepts connected now sid r m action (length src.lovership) (lover_index src.lovership m))
        (offers_lem now sid src r m target action (lover_index src.lovership m)
          (lover_index target.lovership src.member_number) w)
        (accepts_lem connected now sid r m action (length src.lovership)
          (lover_index src.lovership m))

  court_in_room_lem :
      (m : MemberNumber) (action : Option String)
      → IsProperRun (court_in_room connected now sid m action)
  unfolding court_in_room
  court_in_room_lem m action w = elim (Option-cases (in_room w sid)) [
    | inl e ↦ rw (e, court_in_room) idle
    | inr ((src, r), e) ↦ elim (Bool-cases (not (contains r.members m) || src.member_number == m)) [
      | inl h ↦ rw (e, h, court_in_room) idle
      | inr h ↦ elim (Option-cases (get_by_member w m)) [
        | inl f ↦ rw (e, h, f, court_in_room) idle
        | inr (t, f) ↦ elim (Bool-cases (contains t.black_list src.member_number)) [
          | inl g ↦ rw (e, h, f, g, court_in_room) idle
          | inr g ↦ rw (e, h, f, g, court_in_room) (court_lem src r m action t w)
        ]
      ]
    ]
  ]

  handle_lem : (d : Value) → IsProperRun (handle_account_lovership connected now sid d)
  unfolding handle_account_lovership
  handle_lem d w = elim (Option-cases (i64_field d "MemberNumber")) [
    | inl e ↦ rw (e, handle_account_lovership) idle
    | inr (m, e) ↦ elim (Bool-cases (is_text (str_field d "Action") "Break")) [
      | inl h ↦
          rw (e, h, handle_account_lovership)
            (handle_lover_break_lem connected now sid m (str_field d "Name") w)
      | inr h ↦ rw (e, h, handle_account_lovership) (court_in_room_lem m (str_field d "Action") w)
    ]
  ]

  -- Whatever a request about a lover writes to the database, it writes no offer: each of its writes
  -- is a list of lovers without one, or takes a lover off the list of an account.
  pub handle_account_lovership_lem :
      (d : Value) (w : World)
      → all is_clean_write (handle_account_lovership connected now sid d w).1 ≡ true
  handle_account_lovership_lem d w = (handle_lem d w).clean

  -- Every request about a lover keeps the tables consistent.
  pub handle_account_lovership-IsConsistent :
      (P : Platform) (d : Value) (w : World)
      → IsConsistent P w
      → IsConsistent P (handle_account_lovership connected now sid d w).0
  handle_account_lovership-IsConsistent P d w v = (handle_lem d w).consistent P v
