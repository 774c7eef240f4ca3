-- ===== src/Store/Classrooms/Coaches.antt =====
-- Rooms keep a coach and stay within their size, whatever role was read before a transaction.
use blundernet.Base.{
  ◌≡◌, ◌≢◌, ◌≤◌, refl, subst, String, str_eq, eq_iff, Text, Bool, false, ◌||◌, ltb, leb, length,
  trim_space, ◌==◌, List, [], ◌∷◌, inl, inr, arith, Bool-cases, if-cases,
}
use mathlib.Core.List.{Memᴰ}
use blundernet.Store.Classrooms.{
  RoomResult, done, failed, Role, coach, student, Room, Member, Tables, role_of, count_members,
  count_coaches, drop_member, drop_members, drop_room, set_code, has_room, free_code,
  require_account, count_coached, insert, Outcome, after_code, after_account, create_room, join_row,
  join_tx, remove_row, remove_tx, as_coach, remove_as, may_remove, Write, creates, joins, removes,
  deletes, rotates, run_write, IsNew, Writes, here, next, without_room, after_draw,
}

-- Every room has a coach and at most 200 members.
abbrev pub RoomOk : Tables → String → Type 0
RoomOk t id = (1 ≤ count_coaches id t.members) × (count_members id t.members ≤ 200)

abbrev pub AllOk : Tables → Type 0
AllOk t = (r : Room) → Memᴰ r t.rooms → RoomOk t r.id

count-drop_member :
    (id room user : String) (ms : List Member)
    → id ≢ room
    → (count_coaches id (drop_member room user ms) ≡ count_coaches id ms)
      × (count_members id (drop_member room user ms) ≡ count_members id ms)
unfolding count_coaches count_members drop_member
count-drop_member id room user [] ne = (refl, refl)
count-drop_member id room user (m ∷ ms) ne =
    ground (arith, count-drop_member id room user ms ne, eq_iff m.room id, eq_iff m.room room)

count_members-drop_member :
    (id room user : String) (ms : List Member)
    → count_members id (drop_member room user ms) ≤ count_members id ms
unfolding count_members drop_member
count_members-drop_member id room user [] = omega arith
count_members-drop_member id room user (m ∷ ms) =
    ground (arith, count_members-drop_member id room user ms)

count-drop_members :
    (id room : String) (ms : List Member)
    → id ≢ room
    → (count_coaches id (drop_members room ms) ≡ count_coaches id ms)
      × (count_members id (drop_members room ms) ≡ count_members id ms)
unfolding count_coaches count_members drop_members
count-drop_members id room [] ne = (refl, refl)
count-drop_members id room (m ∷ ms) ne =
    ground (arith, count-drop_members id room ms ne, eq_iff m.room id, eq_iff m.room room)

Memᴰ-drop_room :
    (id : String) (r : Room) (rs : List Room) → Memᴰ r (drop_room id rs) → Memᴰ r rs × (r.id ≢ id)
unfolding drop_room
Memᴰ-drop_room id r [] = λ m. elim m [ ]
Memᴰ-drop_room id r (x ∷ xs) =
    if-cases (str_eq x.id id) (λ rs. Memᴰ r rs → Memᴰ r (x ∷ xs) × (r.id ≢ id))
      (λ _ m. let (h, ne) = Memᴰ-drop_room id r xs m in (Memᴰ.tail h, ne))
      (λ other m. kept other (Memᴰ-drop_room id r xs) m)
  where
    kept :
        str_eq x.id id ≡ false
        → (Memᴰ r (drop_room id xs) → Memᴰ r xs × (r.id ≢ id))
        → Memᴰ r (x ∷ drop_room id xs)
        → Memᴰ r (x ∷ xs) × (r.id ≢ id)
    kept other rest (Memᴰ.head p) = (Memᴰ.head p, ground (arith, eq_iff x.id id))
    kept other rest (Memᴰ.tail m) = (Memᴰ.tail (rest m).0, (rest m).1)

Memᴰ-set_code :
    (id : String) (code : Text) (r : Room) (rs : List Room)
    → Memᴰ r (set_code id code rs)
    → (old : Room) × Memᴰ old rs × (old.id ≡ r.id)
unfolding set_code
Memᴰ-set_code id code r [] m = absurd (elim m [ ])
Memᴰ-set_code id code r (x ∷ xs) (Memᴰ.head p) = (x, Memᴰ.head refl, ground arith)
Memᴰ-set_code id code r (x ∷ xs) (Memᴰ.tail m) =
    let (old, h, same) = Memᴰ-set_code id code r xs m in (old, Memᴰ.tail h, same)

join_row-AllOk :
    (room user : String) (t : Tables) (found : RoomResult Role)
    → AllOk t
    → AllOk (join_row room user t found).0
join_row-AllOk room user t (done role) ok = ok
join_row-AllOk room user t (failed e) ok =
    if-cases (ltb 200 (count_members room ms)) (λ (p : Outcome). AllOk p.0) (λ _. ok)
      (λ fits r m. seated fits r (ok r m))
  where
    ms : List Member
    ms = record { room = room; user = user; role = student } ∷ t.members

    seated :
        ltb 200 (count_members room ms) ≡ false
        → (r : Room) → RoomOk t r.id
        → RoomOk (record t { members = ms }) r.id
    seated fits r old = unfold count_members count_coaches in ground (arith, eq_iff room r.id)

join_tx-AllOk : (room user : String) (t : Tables) → AllOk t → AllOk (join_tx room user t).0
unfolding join_tx
join_tx-AllOk room user t ok =
    if-cases (has_room room t.rooms) (λ (p : Outcome). AllOk p.0)
      (λ _. join_row-AllOk room user t (role_of room user t.members) ok) (λ _. ok)

remove_row-AllOk :
    (room target : String) (t : Tables) (found : RoomResult Role)
    → AllOk t
    → AllOk (remove_row room target t found).0
remove_row-AllOk room target t (failed e) ok = ok
remove_row-AllOk room target t (done role) ok =
    if-cases (count_coaches room (drop_member room target t.members) == 0)
      (λ (p : Outcome). AllOk p.0) (λ _. ok)
      (λ coached r m. elim (Bool-cases (str_eq r.id room)) [
        | inl mine ↦ (
          ground (arith, eq_iff r.id room),
          omega (arith, count_members-drop_member r.id room target t.members, (ok r m).1),
        )
        | inr other ↦
            let kept =
              count-drop_member r.id room target t.members (ground (arith, eq_iff r.id room)) in
            (omega (arith, kept.0, (ok r m).0), omega (arith, kept.1, (ok r m).1))
      ])

remove_tx-AllOk : (room target : String) (t : Tables) → AllOk t → AllOk (remove_tx room target t).0
unfolding remove_tx
remove_tx-AllOk room target t ok =
    if-cases (has_room room t.rooms) (λ (p : Outcome). AllOk p.0)
      (λ _. remove_row-AllOk room target t (role_of room target t.members) ok) (λ _. ok)

remove_as-AllOk :
    (room caller target : String) (t : Tables) (read : RoomResult Role)
    → AllOk t
    → AllOk (remove_as room caller target t read).0
remove_as-AllOk room caller target t (failed e) ok = ok
remove_as-AllOk room caller target t (done role) ok =
    if-cases (may_remove role caller target) (λ (p : Outcome). AllOk p.0)
      (λ _. remove_tx-AllOk room target t ok) (λ _. ok)

as_coach-AllOk :
    (t : Tables) (read : RoomResult Role) (p : Outcome)
    → AllOk t
    → AllOk p.0
    → AllOk (as_coach t read p).0
as_coach-AllOk t (failed e) p ok then' = ok
as_coach-AllOk t (done student) p ok then' = ok
as_coach-AllOk t (done coach) p ok then' = then'

without_room-AllOk : (id : String) (t : Tables) → AllOk t → AllOk (without_room id t)
without_room-AllOk id t ok r m =
    let (h, ne) = Memᴰ-drop_room id r t.rooms m in
    let kept = count-drop_members r.id id t.members ne in
    (omega (arith, kept.0, (ok r h).0), omega (arith, kept.1, (ok r h).1))

after_draw-AllOk :
    (room : String) (t : Tables) (drawn : RoomResult Text)
    → AllOk t
    → AllOk (after_draw room t drawn).0
after_draw-AllOk room t (failed e) ok r m = ok r m
after_draw-AllOk room t (done code) ok r m =
    let (old, h, same) = Memᴰ-set_code room code r t.rooms m in subst (RoomOk t) same (ok old h)

insert-AllOk :
    (id : String) (name code : Text) (user : String) (t : Tables)
    → count_members id t.members ≡ 0
    → AllOk t
    → AllOk (insert id name code user t)
unfolding insert count_members count_coaches
insert-AllOk id name code user t new ok r (Memᴰ.head p) =
    ground (arith, eq_iff id id, eq_iff id r.id)
insert-AllOk id name code user t new ok r (Memᴰ.tail m) = ground (arith, eq_iff id r.id, ok r m)

after_code-AllOk :
    (id : String) (name : Text) (user : String) (t : Tables) (drawn : RoomResult Text)
    → count_members id t.members ≡ 0
    → AllOk t
    → AllOk (after_code id name user t drawn).0
after_code-AllOk id name user t (failed e) new ok = ok
after_code-AllOk id name user t (done code) new ok = insert-AllOk id name code user t new ok

after_account-AllOk :
    (id : String) (name : Text) (codes : List Text) (user : String) (t : Tables)
    (found : RoomResult (Unit {0}))
    → count_members id t.members ≡ 0
    → AllOk t
    → AllOk (after_account id name codes user t found).0
after_account-AllOk id name codes user t (failed e) new ok = ok
after_account-AllOk id name codes user t (done u) new ok =
    if-cases (leb 20 (count_coached user t.members)) (λ (p : Outcome). AllOk p.0) (λ _. ok)
      (λ _. after_code-AllOk id name user t (free_code id codes t.rooms) new ok)

create_room-AllOk :
    (lost : Bool) (id : String) (codes : List Text) (user : String) (name : Text) (t : Tables)
    → count_members id t.members ≡ 0
    → AllOk t
    → AllOk (create_room lost id codes user name t).0
unfolding create_room
create_room-AllOk lost id codes user name t new ok =
    if-cases (length (trim_space name) == 0 || ltb 60 (length (trim_space name)))
      (λ (p : Outcome). AllOk p.0) (λ _. ok)
      (λ _.
        if-cases lost (λ (p : Outcome). AllOk p.0) (λ _. ok)
          (λ _.
            after_account-AllOk id (trim_space name) codes user t (require_account user t) new ok))

run_write-AllOk : (s : Write) (t : Tables) → IsNew s t → AllOk t → AllOk (run_write s t).0
unfolding run_write
run_write-AllOk (creates lost id codes user name) t new ok =
    create_room-AllOk lost id codes user name t new ok
run_write-AllOk (joins room user) t new ok = join_tx-AllOk room user t ok
run_write-AllOk (removes room caller target read) t new ok =
    remove_as-AllOk room caller target t read ok
run_write-AllOk (deletes room read) t new ok =
    as_coach-AllOk t read _ ok (without_room-AllOk room t ok)
run_write-AllOk (rotates room codes read) t new ok =
    as_coach-AllOk t read _ ok (after_draw-AllOk room t (free_code room codes t.rooms) ok)

-- If every classroom has a coach and at most 200 members, then so it is after any sequence of
-- the writes of Create, Join, Remove, Delete and RotateCode, whatever roles were read before
-- them and as long as a new room's id is one that no member row names.
pub Writes-AllOk : {t u : Tables} → AllOk t → Writes t u → AllOk u
Writes-AllOk ok here = ok
Writes-AllOk ok (next {u = u} s ws new) = run_write-AllOk s u new (Writes-AllOk ok ws)
