-- ===== src/State/RoomKey.antt =====
-- state/world.rs: a room key tells the environment and the name apart.
use Prim.Native.Char.{Char, code}
use Prim.Native.String.{◌++◌, [], ◌∷◌}
use Prim.Native.String.append
use bc_server_rust.Base.{String, true, ◌≡◌, sym, ap, ◌∙◌, arith, some, string_eq, int_eq}
use bc_server_rust.Base.HashMap
use bc_server_rust.State.ChatRoom.{ChatRoom}
use bc_server_rust.State.Platform.{Platform}
use bc_server_rust.State.World.{World, room_key, get_room_by_name}
use bc_server_rust.State.Consistency.{colon_free, IsConsistent}

abbrev colon : Char
colon = ":"

keyed-nil : (s : String) → [] ++ (":" ++ s) ≡ colon ∷ s
keyed-nil s =
    append.nil (":" ++ s) ∙ append.cons colon [] s ∙ ap (λ (t : String). colon ∷ t) (append.nil s)

keyed-cons : (c : Char) (d s : String) → (c ∷ d) ++ (":" ++ s) ≡ c ∷ (d ++ (":" ++ s))
keyed-cons c d s = append.cons c d (":" ++ s)

not_colon : (c : Char) (d : String) → colon_free (c ∷ d) ≡ true → colon ≡ c → ⊥
not_colon c d h e = ground (arith, ap code e)

after_colon :
    (d e s t : String)
    → colon_free d ≡ true
    → colon_free e ≡ true
    → d ++ (":" ++ s) ≡ e ++ (":" ++ t)
    → s ≡ t
after_colon [] [] s t hd he h = cc (sym (keyed-nil s) ∙ h ∙ keyed-nil t)
after_colon [] (c ∷ e) s t hd he h =
    absurd (not_colon c e he (cc (sym (keyed-nil s) ∙ h ∙ keyed-cons c e t)))
after_colon (c ∷ d) [] s t hd he h =
    absurd (not_colon c d hd (cc (sym (keyed-nil t) ∙ sym h ∙ keyed-cons c d s)))
after_colon (c ∷ d) (b ∷ e) s t hd he h =
    after_colon d e s t (ground arith) (ground arith)
      (cc (sym (keyed-cons c d s) ∙ h ∙ keyed-cons b e t))

-- Rooms of environments without a colon share a key only if their names are one up to case.
pub room_key_name :
    (P : Platform) (d e m n : String)
    → colon_free d ≡ true
    → colon_free e ≡ true
    → room_key P d m ≡ room_key P e n
    → P.to_uppercase m ≡ P.to_uppercase n
unfolding room_key
room_key_name P d e m n hd he h = after_colon d e (P.to_uppercase m) (P.to_uppercase n) hd he h

-- In a consistent world a room is found in its environment by its name in any case.
pub get_room_by_name_lem :
    (P : Platform) (w : World) (id name : String) (r : ChatRoom)
    → IsConsistent P w
    → HashMap.get w.chat_rooms id ≡ some r
    → P.to_uppercase name ≡ P.to_uppercase r.name
    → get_room_by_name P w r.environment name ≡ some r
unfolding get_room_by_name room_key
get_room_by_name_lem P w id name r v g e = rw (e, (v.room id r g).1) g
