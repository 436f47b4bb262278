-- ===== src/Relations/Lovership/Writes.antt =====
-- relations/mod.rs: what every run of the handler of lovers writes to the database.
use bc_server_rust.Base.{
  String, Bool, true, not, ◌&&◌, ◌||◌, ◌≡◌, refl, inl, inr, Option, none, some, List, [], ◌∷◌, ◌++◌,
  ℕ, ℤ, pos, ltb_ℤ, ltb, length, remove_at, adjust_at, push, get_elem?, all, int_eq, string_eq,
  Bool-cases, Option-cases,
}
use bc_server_rust.Base.HashMap
use bc_server_rust.Json.{Value, i64_field, is_text, is_some}
use bc_server_rust.Protocol.{MemberNumber}
use bc_server_rust.State.ChatRoom.{ChatRoom}
use bc_server_rust.State.Account.{OnlineAccount}
use bc_server_rust.State.World.{World, update_account}
use bc_server_rust.State.Platform.{Platform}
use bc_server_rust.State.Consistency.{IsConsistent}
use bc_server_rust.Chat.Consistency.{Keeps, update_account-IsConsistent}
use bc_server_rust.Store.{Run, Effect, then_run, pull_lovership_member}
use bc_server_rust.Relations.Lovership.{
  persist_lovership_clean, tell_lovership, lover_index, set_lovership,
}
use bc_server_rust.Relations.Lovership.Break.{
  break_npc, drop_npc, break_at, may_part, handle_lover_break, after_break, tell_forgotten, forget,
}
use bc_server_rust.Relations.Lovership.Offer.{
  may_do, begin_dating, add_offer, offer_with, offer_dating, is_due, offer_next, offer_further,
  offers,
}
use bc_server_rust.Relations.Lovership.Clean.{
  is_clean_write, all-append, all-tell_all, persist_lovership_clean_lem,
}

-- A run keeps the tables consistent, and writes no offer to the database.
pub record IsProper (w : World) (p : World × List Effect) : Type 0 where
  pub consistent : (P : Platform) → IsConsistent P w → IsConsistent P p.0
  pub clean : all is_clean_write p.1 ≡ true

abbrev pub IsProperRun : Run → Type 0
IsProperRun f = (w : World) → IsProper w (f w)

pub then_run-IsProper :
    {w : World} {p : World × List Effect} (g : Run)
    → IsProper w p
    → IsProperRun g
    → IsProper w (then_run p g)
then_run-IsProper {w} {p} g h k = record {
  consistent = λ P v. (k p.0).consistent P (h.consistent P v);
  clean = all-append p.1 (g p.0).1 h.clean (k p.0).clean;
}

-- A change without an effect, in front of what is proper after it.
pub left_one :
    {w x : World} {p : World × List Effect} → IsProper w (x, []) → IsProper x p → IsProper w p
left_one h k = record { consistent = λ P v. k.consistent P (h.consistent P v); clean = k.clean }

pub sent : {w : World} (out : List Effect) → all is_clean_write out ≡ true → IsProper w (w, out)
sent out h = record { consistent = λ P v. v; clean = h }

set_lovership-Keeps : (f : List Value → List Value) → Keeps (set_lovership f)
set_lovership-Keeps f = record {
  socket = λ a. refl;
  number = λ a. refl;
  environment = λ a. refl;
  chat_room = λ a. refl;
}

pub changed :
    {w : World} (sid : String) (f : List Value → List Value) (out : List Effect)
    → all is_clean_write out ≡ true
    → IsProper w (update_account w sid (set_lovership f), out)
changed {w} sid f out h = record {
  consistent =
      λ P v. update_account-IsConsistent P w v sid (set_lovership f) (set_lovership-Keeps f);
  clean = h;
}

pub nothing : all is_clean_write [] ≡ true
unfolding all
nothing = refl

pub tell_lovership_lem :
    (sid : String) (l : List Value) (out : List Effect)
    → all is_clean_write out ≡ true
    → all is_clean_write (tell_lovership sid l ∷ out) ≡ true
unfolding all tell_lovership
tell_lovership_lem sid l out h = h

pull_lem :
    (m n : MemberNumber) (out : List Effect)
    → all is_clean_write out ≡ true
    → all is_clean_write (pull_lovership_member m n ++ out) ≡ true
unfolding all pull_lovership_member
pull_lem m n out h = h

pub saved :
    (m : MemberNumber) (l : List Value) (out : List Effect)
    → all is_clean_write out ≡ true
    → all is_clean_write (persist_lovership_clean m l ++ out) ≡ true
saved m l out h = all-append (persist_lovership_clean m l) out (persist_lovership_clean_lem m l) h

pub idle : {w : World} → IsProper w (w, [])
idle = sent [] nothing

break_npc_lem : (sid : String) (name : Option String) → IsProperRun (break_npc sid name)
unfolding break_npc
break_npc_lem sid none w = idle
break_npc_lem sid (some name) w = elim (Option-cases (HashMap.get w.accounts_by_socket sid)) [
  | inl e ↦ rw (e, break_npc) idle
  | inr (acc, e) ↦
      rw (e, break_npc)
        (changed sid (λ _. drop_npc name acc.lovership) _
          (saved _ _ _ (tell_lovership_lem _ _ _ nothing)))
]

module _ (connected : String → Bool) (now : ℤ) (sid : String) where
  after_break_lem :
      (acc : OnlineAccount) (m : MemberNumber) (l : List Value)
      → IsProperRun (after_break connected now sid acc m l)
  after_break_lem acc m l w = elim (Option-cases (HashMap.get w.socket_by_member m)) [
    | inl e ↦
        rw (e, after_break)
          (sent _ (saved _ _ _ (pull_lem _ _ _ (tell_lovership_lem _ _ _ (all-tell_all _)))))
    | inr (j, e) ↦
        rw (e, after_break)
          (sent _ (saved _ _ _ (saved _ _ _ (tell_lovership_lem _ _ _ (all-tell_all _)))))
  ]

  tell_forgotten_lem : (w : World) (j : String) → all is_clean_write (tell_forgotten w j) ≡ true
  tell_forgotten_lem w j = elim (Option-cases (HashMap.get w.accounts_by_socket j)) [
    | inl e ↦ rw (e, tell_forgotten) nothing
    | inr (t, e) ↦ rw (e, tell_forgotten) (tell_lovership_lem _ _ _ nothing)
  ]

  break_at_lem :
      (acc : OnlineAccount) (m : MemberNumber) (i : ℕ)
      → IsProperRun (break_at connected now sid acc m i)
  unfolding break_at
  break_at_lem acc m i w =
      let w1 = update_account w sid (set_lovership (λ _. remove_at acc.lovership i)) in
      elim (Option-cases (HashMap.get w.socket_by_member m)) [
        | inl e ↦
            rw (e, break_at)
              (then_run-IsProper (after_break connected now sid acc m (remove_at acc.lovership i))
                (changed sid (λ _. remove_at acc.lovership i) [] nothing)
                (after_break_lem acc m (remove_at acc.lovership i)))
        | inr (j, e) ↦
            let f = forget connected now sid acc.member_number in
            let w2 = update_account w1 j (set_lovership f) in
            rw (e, break_at)
              (left_one (changed sid (λ _. remove_at acc.lovership i) [] nothing) (
                then_run-IsProper (after_break connected now sid acc m (remove_at acc.lovership i))
                  (changed j f (tell_forgotten w2 j) (tell_forgotten_lem w2 j))
                  (after_break_lem acc m (remove_at acc.lovership i))))
      ]

  pub handle_lover_break_lem :
      (m : MemberNumber) (name : Option String)
      → IsProperRun (handle_lover_break connected now sid m name)
  unfolding handle_lover_break
  handle_lover_break_lem m name w = elim (Bool-cases (ltb_ℤ m (pos 0))) [
    | inl h ↦ rw (h, handle_lover_break) (break_npc_lem sid name w)
    | inr h ↦ elim (Option-cases (HashMap.get w.accounts_by_socket sid)) [
      | inl e ↦ rw (h, e, handle_lover_break) idle
      | inr (acc, e) ↦ elim (Option-cases (lover_index acc.lovership m)) [
        | inl f ↦ rw (h, e, f, handle_lover_break) idle
        | inr (i, f) ↦ elim (Option-cases (get_elem? acc.lovership i)) [
          | inl g ↦ rw (h, e, f, g, handle_lover_break) idle
          | inr (v, g) ↦ elim (Option-cases (i64_field v "Stage")) [
            | inl a ↦ rw (h, e, f, g, a, handle_lover_break) idle
            | inr (s, a) ↦ elim (Option-cases (i64_field v "Start")) [
              | inl b ↦ rw (h, e, f, g, a, b, handle_lover_break) idle
              | inr (t, b) ↦ elim (Bool-cases (may_part connected now sid s t)) [
                | inr c ↦ rw (h, e, f, g, a, b, c, handle_lover_break) idle
                | inl c ↦ rw (h, e, f, g, a, b, c, handle_lover_break) (break_at_lem acc m i w)
              ]
            ]
          ]
        ]
      ]
    ]
  ]

module _ (now : ℤ) (sid : String) (src : OnlineAccount) (r : ChatRoom) (m : MemberNumber)
    (target : OnlineAccount) where
  pub may_do_lem : (result : String) → IsProperRun (may_do now sid src r m target result)
  unfolding all
  may_do_lem result w = sent (may_do now sid src r m target result w).1 refl

  offer_with_lem :
      (content : String) (f : List Value → List Value)
      → IsProperRun (offer_with now sid src r m target content f)
  offer_with_lem content f w =
      changed target.socket_id f (offer_with now sid src r m target content f w).1 (all-tell_all _)

  offer_dating_lem :
      (action : Option String) (tl : Option ℕ)
      → IsProperRun (offer_dating now sid src r m target action tl)
  unfolding offer_dating
  offer_dating_lem action tl w =
      elim (Bool-cases (ltb (length target.lovership) 5 && not (is_some tl))) [
        | inr h ↦ rw (h, offer_dating) idle
        | inl h ↦ elim (Bool-cases (is_text action "Propose")) [
          | inl y ↦
              rw (h, y, offer_dating)
                (offer_with_lem "OfferBeginDating" (λ l. push l (begin_dating src.member_number)) w)
          | inr y ↦ rw (h, y, offer_dating) (may_do_lem "CanOfferBeginDating" w)
        ]
      ]

  offer_next_lem :
      (action : Option String) (entry : Value) (ti : ℕ) (key : String) (stage : ℤ)
      (content result : String)
      → IsProperRun (offer_next now sid src r m target action entry ti key stage content result)
  unfolding offer_next
  offer_next_lem action entry ti key stage content result w =
      elim (Bool-cases (is_due now sid src r m target entry key stage)) [
        | inr h ↦ rw (h, offer_next) idle
        | inl h ↦ elim (Bool-cases (is_text action "Propose")) [
          | inl y ↦
              rw (h, y, offer_next)
                (offer_with_lem content (λ l. adjust_at l ti (add_offer key src.member_number)) w)
          | inr y ↦ rw (h, y, offer_next) (may_do_lem result w)
        ]
      ]

  offer_further_lem :
      (action : Option String) (tl : Option ℕ)
      → IsProperRun (offer_further now sid src r m target action tl)
  unfolding offer_further
  offer_further_lem action none w = idle
  offer_further_lem action (some ti) w = elim (Option-cases (get_elem? target.lovership ti)) [
    | inl e ↦ rw (e, offer_further) idle
    | inr (entry, e) ↦
        rw (e, offer_further)
          (then_run-IsProper
            (offer_next now sid src r m target action entry ti "BeginWeddingOfferedByMemberNumber"
              (pos 1) "OfferBeginWedding" "CanOfferBeginWedding")
            (offer_next_lem action entry ti "BeginEngagementOfferedByMemberNumber" (pos 0)
              "OfferBeginEngagement" "CanOfferBeginEngagement" w)
            (offer_next_lem action entry ti "BeginWeddingOfferedByMemberNumber" (pos 1)
              "OfferBeginWedding" "CanOfferBeginWedding"))
  ]

  pub offers_lem :
      (action : Option String) (al tl : Option ℕ)
      → IsProperRun (offers now sid src r m target action al tl)
  unfolding offers
  offers_lem action al tl w =
      elim (Bool-cases ((ltb (length src.lovership) 5 && not (is_some al)) || is_some al)) [
        | inr h ↦ rw (h, offers) idle
        | inl h ↦
            rw (h, offers)
              (then_run-IsProper (offer_further now sid src r m target action tl)
                (offer_dating_lem action tl w) (offer_further_lem action tl))
      ]
