-- ===== src/Room/Admin/Changes.antt =====
-- room/admin.rs: the edits that an administrator makes keep the tables consistent.
use bc_server_rust.Base.{
  ℕ, String, true, ◌≡◌, refl, sym, ap, ◌∙◌, some, List, [], ◌∷◌, inl, inr, arith, contains,
  position, ◌==◌, ==_iff, int_eq, string_eq, Option-cases, SameItems, contains-SameItems,
  IsDistinct-SameItems,
}
use bc_server_rust.Base.HashMap
use bc_server_rust.Base.HashMap.{get-adjust}
use bc_server_rust.Room.Admin.Effects.{source_target_dict}
use bc_server_rust.Protocol.{MemberNumber}
use bc_server_rust.State.Platform.{Platform}
use bc_server_rust.State.ChatRoom.{ChatRoom}
use bc_server_rust.State.Account.{OnlineAccount}
use bc_server_rust.State.World.{World, get_by_member, update_room, room_key}
use bc_server_rust.State.Consistency.{IsConsistent}
use bc_server_rust.Room.Leave.{name_of}
use bc_server_rust.Room.Leave.Consistency.{leave_room_inner_reason-IsConsistent}
use bc_server_rust.Room.Admin.{edit_members, throw_out}
use bc_server_rust.Room.Admin.Edit.{Keeps, edited-IsConsistent}

module _ (P : Platform) (w : World) (v : IsConsistent P w) (r : ChatRoom)
    (here : HashMap.get w.chat_rooms r.id ≡ some r) where
  pub update_room-IsConsistent :
      (f : ChatRoom → ChatRoom)
      → Keeps r (f r)
      → (f r).name ≡ r.name
      → IsConsistent P (update_room w r.id f)
  update_room-IsConsistent f keeps named =
      edited-IsConsistent P w v r.id r f w.room_by_name_env here keeps indexed
        (λ q y g ne. (v.room q y g).1)
        (λ q y g e. v.unique r.id q r y here g (sym (e ∙ ap P.to_uppercase named)))
    where
      indexed : HashMap.get w.room_by_name_env (room_key P (f r).environment (f r).name) ≡ some r.id
      indexed = rw (keeps.environment, named) (v.room r.id r here).1

  -- An edit of the lists of roles and bans.
  pub lists-IsConsistent :
      (f : ChatRoom → ChatRoom)
      → (f r).id ≡ r.id
      → (f r).environment ≡ r.environment
      → (f r).name ≡ r.name
      → (f r).members ≡ r.members
      → IsConsistent P (update_room w r.id f)
  lists-IsConsistent f i e n m = update_room-IsConsistent f keeps n
    where
      keeps : Keeps r (f r)
      keeps = record { id = i; environment = e; listed = λ k. rw m refl; distinct = λ d. rw m d }

  pub members-IsConsistent :
      (g : List MemberNumber → List MemberNumber)
      → SameItems (g r.members) r.members
      → IsConsistent P (update_room w r.id (edit_members g))
  members-IsConsistent g same = update_room-IsConsistent (edit_members g) keeps refl
    where
      keeps : Keeps r (edit_members g r)
      keeps = record {
        id = refl;
        environment = refl;
        listed = contains-SameItems (g r.members) r.members same;
        distinct = IsDistinct-SameItems (g r.members) r.members same;
      }

  pub throw_out-IsConsistent :
      (shuffled : List MemberNumber → List MemberNumber) (acc : OnlineAccount)
      (target : MemberNumber) (code reason : String)
      → contains r.members target ≡ true
      → IsConsistent P (throw_out P shuffled w acc r.id target code reason).0
  unfolding throw_out
  throw_out-IsConsistent shuffled acc target code reason c =
      let (j, b, g, e, l) = v.present r.id r target here c in
      rw (← e)
        (leave_room_inner_reason-IsConsistent P w j r.id b (some reason)
          (some
            (source_target_dict acc b.member_number (name_of (get_by_member w b.member_number))))
          v g l).consistent

-- A place found is the place of an item of the list.
pub contains-position :
    (xs : List MemberNumber) (m : MemberNumber) (i : ℕ)
    → position (λ n. n == m) xs ≡ some i
    → contains xs m ≡ true
unfolding position contains
contains-position [] m i h = absurd (ground arith)
contains-position (x ∷ xs) m i h = elim (Option-cases (position (λ n. n == m) xs)) [
  | inl e ↦ ground (arith, ==_iff x m, ==_iff m x)
  | inr (j, e) ↦ ground (arith, contains-position xs m j e, ==_iff x m, ==_iff m x)
]
