-- ===== src/Cameras/Paths.antt =====
-- Lemmas on the stream paths of the cameras' rows.
use sentry_backend.Base.{
  ℕ, ◌≡◌, ◌⊎◌, refl, subst, ap, ◌∙◌, false, Option, none, some, List, [], ◌∷◌, ◌==◌, arith,
  Bool-cases, inl, inr,
}
use sentry_backend.Base.Lists.{find_by, some_inj}
use sentry_backend.Base.Sets.{member}
use sentry_backend.Base.Keyed.{Distinct}
use sentry_backend.Base.Text.{Text, text_beq, text_eq}
use sentry_backend.Cameras.{CameraRow, get_camera, put_row, remove_row, with_path, paths}

-- A row's path is none of the others.
abbrev Spare : Option Text → List Text → Type 0
Spare none xs = Unit
Spare (some p) xs = member p xs ≡ false

Distinct-with_path :
    (o : Option Text) (xs : List Text) → Spare o xs → Distinct xs → Distinct (with_path o xs)
Distinct-with_path none xs s d = d
Distinct-with_path (some p) xs s d = (s, d)

with_path-Distinct :
    (o : Option Text) (xs : List Text) → Distinct (with_path o xs) → Spare o xs × Distinct xs
with_path-Distinct none xs d = (tt, d)
with_path-Distinct (some p) xs d = d

-- A row with its path kept or changed for one that is free.
abbrev pub Renamed : CameraRow → CameraRow → List Text → Type 0
Renamed old new taken =
    (new.mediamtx_path ≡ old.mediamtx_path)
    ⊎ ((p : Text) × (new.mediamtx_path ≡ some p) × (member p taken ≡ false))

abbrev Differs : Text → Option Text → Type 0
Differs x none = Unit
Differs x (some p) = text_beq p x ≡ false

member-tail :
    (x : Text) (o : Option Text) (xs : List Text)
    → member x (with_path o xs) ≡ false
    → Differs x o × (member x xs ≡ false)
unfolding member
member-tail x none xs h = (tt, h)
member-tail x (some p) xs h = (ground (arith, h), ground (arith, h))

member-cons :
    (x : Text) (o : Option Text) (xs : List Text)
    → Differs x o
    → member x xs ≡ false
    → member x (with_path o xs) ≡ false
unfolding member
member-cons x none xs d h = h
member-cons x (some p) xs d h = rw (d, h) refl

-- A text that is no path before a row is written is none after, unless it is the new row's.
member-put_row :
    (x : Text) (new : CameraRow) (cams : List CameraRow)
    → member x (paths cams) ≡ false
    → Differs x new.mediamtx_path
    → member x (paths (put_row new cams)) ≡ false
unfolding paths put_row
member-put_row x new [] h other = h
member-put_row x new (c ∷ cams) h other =
    let (own, rest) = member-tail x c.mediamtx_path (paths cams) h in
    elim (Bool-cases (c.id == new.id)) [
      | inl hit ↦ rw hit (member-cons x new.mediamtx_path (paths cams) other rest)
      | inr miss ↦ rw miss (
          member-cons x c.mediamtx_path (paths (put_row new cams)) own
            (member-put_row x new cams rest other))
    ]

text_beq_comm : (x y : Text) → text_beq x y ≡ text_beq y x
text_beq_comm [] [] = refl
text_beq_comm [] (d ∷ y) = refl
text_beq_comm (c ∷ x) [] = refl
text_beq_comm (c ∷ x) (d ∷ y) = ground (arith, text_beq_comm x y)

-- The path of a row that is there is among the paths, so no spare text is it.
found-Differs :
    (x : Text) (id : ℕ) (old : CameraRow) (cams : List CameraRow)
    → get_camera id cams ≡ some old
    → member x (paths cams) ≡ false
    → Differs x old.mediamtx_path
unfolding get_camera paths
found-Differs x id old [] found free = ground (arith, found)
found-Differs x id old (c ∷ cams) found free =
    let (own, rest) = member-tail x c.mediamtx_path (paths cams) free in
    elim (Bool-cases (c.id == id)) [
      | inl hit ↦ subst (λ r. Differs x r.mediamtx_path) (some_inj (rw (find_by, hit) at found)) own
      | inr miss ↦ found-Differs x id old cams (rw (find_by, miss) at found) rest
    ]

Renamed-Differs :
    (x : Text) (old new : CameraRow) (cams : List CameraRow)
    → get_camera new.id cams ≡ some old
    → Renamed old new (with_path (some x) (paths cams))
    → member x (paths cams) ≡ false
    → Differs x new.mediamtx_path
unfolding member
Renamed-Differs x old new cams found (inl same) free =
    rw same (found-Differs x new.id old cams found free)
Renamed-Differs x old new cams found (inr (p, named, fresh)) free =
    rw (named, text_beq_comm p x) (ground (arith, fresh))

Spare-put_row :
    (o : Option Text) (old new : CameraRow) (cams : List CameraRow)
    → get_camera new.id cams ≡ some old
    → Renamed old new (with_path o (paths cams))
    → Spare o (paths cams)
    → Spare o (paths (put_row new cams))
Spare-put_row none old new cams found renamed s = tt
Spare-put_row (some x) old new cams found renamed s =
    member-put_row x new cams s (Renamed-Differs x old new cams found renamed s)

Renamed-tail :
    (old new : CameraRow) (o : Option Text) (xs : List Text)
    → Renamed old new (with_path o xs)
    → Renamed old new xs
Renamed-tail old new o xs (inl same) = inl same
Renamed-tail old new o xs (inr (p, named, fresh)) = inr (p, named, (member-tail p o xs fresh).1)

Renamed-head :
    (old new : CameraRow) (xs : List Text)
    → Renamed old new (with_path old.mediamtx_path xs)
    → Distinct (with_path old.mediamtx_path xs)
    → Distinct (with_path new.mediamtx_path xs)
Renamed-head old new xs (inl same) d = rw same d
Renamed-head old new xs (inr (p, named, fresh)) d =
    rw named
      ((member-tail p old.mediamtx_path xs fresh).1, (with_path-Distinct old.mediamtx_path xs d).1)

-- Writing a row back whose path is kept, or is free, keeps the paths apart.
pub put_row-Distinct :
    (old new : CameraRow) (cams : List CameraRow)
    → get_camera new.id cams ≡ some old
    → Renamed old new (paths cams)
    → Distinct (paths cams)
    → Distinct (paths (put_row new cams))
unfolding paths put_row get_camera
put_row-Distinct old new [] found renamed d = tt
put_row-Distinct old new (c ∷ cams) found renamed d =
    let (own, rest) = with_path-Distinct c.mediamtx_path (paths cams) d in
    elim (Bool-cases (c.id == new.id)) [
      | inl hit ↦
          let e : c ≡ old = some_inj (rw (find_by, hit) at found) in
          rw hit (
            Renamed-head old new (paths cams)
              (subst (λ r. Renamed old new (with_path r.mediamtx_path (paths cams))) e renamed)
              (subst (λ r. Distinct (with_path r.mediamtx_path (paths cams))) e d))
      | inr miss ↦
          let there : get_camera new.id cams ≡ some old = (rw (find_by, miss) at found) in
          rw miss (
            Distinct-with_path c.mediamtx_path (paths (put_row new cams))
              (Spare-put_row c.mediamtx_path old new cams there renamed own)
              (put_row-Distinct old new cams there
                (Renamed-tail old new c.mediamtx_path (paths cams) renamed) rest))
    ]

member-remove_row :
    (x : Text) (id : ℕ) (cams : List CameraRow)
    → member x (paths cams) ≡ false
    → member x (paths (remove_row id cams)) ≡ false
unfolding paths remove_row
member-remove_row x id [] h = h
member-remove_row x id (c ∷ cams) h =
    let (own, rest) = member-tail x c.mediamtx_path (paths cams) h in
    elim (Bool-cases (c.id == id)) [
      | inl hit ↦ rw hit rest
      | inr miss ↦ rw miss (
          member-cons x c.mediamtx_path (paths (remove_row id cams)) own
            (member-remove_row x id cams rest))
    ]

Spare-remove_row :
    (o : Option Text) (id : ℕ) (cams : List CameraRow)
    → Spare o (paths cams)
    → Spare o (paths (remove_row id cams))
Spare-remove_row none id cams s = tt
Spare-remove_row (some x) id cams s = member-remove_row x id cams s

pub remove_row-Distinct :
    (id : ℕ) (cams : List CameraRow) → Distinct (paths cams) → Distinct (paths (remove_row id cams))
unfolding paths remove_row
remove_row-Distinct id [] d = tt
remove_row-Distinct id (c ∷ cams) d =
    let (own, rest) = with_path-Distinct c.mediamtx_path (paths cams) d in
    elim (Bool-cases (c.id == id)) [
      | inl hit ↦ rw hit rest
      | inr miss ↦ rw miss (
          Distinct-with_path c.mediamtx_path (paths (remove_row id cams))
            (Spare-remove_row c.mediamtx_path id cams own) (remove_row-Distinct id cams rest))
    ]

Spare-Differs :
    (x : Text) (o : Option Text) (id : ℕ) (b : CameraRow) (cams : List CameraRow)
    → get_camera id cams ≡ some b
    → o ≡ some x
    → Spare o (paths cams)
    → Differs x b.mediamtx_path
Spare-Differs x o id b cams found e s =
    found-Differs x id b cams found (subst (λ r. Spare r (paths cams)) e s)

Differs-apart : (p q : Text) (o : Option Text) → o ≡ some q → Differs p o → text_beq p q ≡ false
Differs-apart p q o e d = text_beq_comm p q ∙ subst (λ r. Differs p r) e d

-- Two cameras that have a path have two.
pub paths_apart :
    (a b : CameraRow) (p q : Text) (cams : List CameraRow)
    → get_camera a.id cams ≡ some a
    → get_camera b.id cams ≡ some b
    → (a.id == b.id) ≡ false
    → a.mediamtx_path ≡ some p
    → b.mediamtx_path ≡ some q
    → Distinct (paths cams)
    → text_beq p q ≡ false
unfolding paths get_camera
paths_apart a b p q [] ha hb apart pa pb d = ground (arith, ha)
paths_apart a b p q (c ∷ cams) ha hb apart pa pb d =
    let (own, rest) = with_path-Distinct c.mediamtx_path (paths cams) d in
    elim (Bool-cases (c.id == a.id)) [
      | inl hit_a ↦
          let e : c ≡ a = some_inj (rw (find_by, hit_a) at ha) in
          elim (Bool-cases (c.id == b.id)) [
            | inl hit_b ↦ absurd (both e (some_inj (rw (find_by, hit_b) at hb)))
            | inr miss_b ↦ Differs-apart p q b.mediamtx_path pb (
                Spare-Differs p c.mediamtx_path b.id b cams (rw (find_by, miss_b) at hb)
                  (ap (λ r. r.mediamtx_path) e ∙ pa) own)
          ]
      | inr miss_a ↦
          let ha' : get_camera a.id cams ≡ some a = (rw (find_by, miss_a) at ha) in
          elim (Bool-cases (c.id == b.id)) [
            | inl hit_b ↦
                let e : c ≡ b = some_inj (rw (find_by, hit_b) at hb) in
                text_beq_comm p q
                ∙ Differs-apart q p a.mediamtx_path pa (
                    Spare-Differs q c.mediamtx_path a.id a cams ha'
                      (ap (λ r. r.mediamtx_path) e ∙ pb) own)
            | inr miss_b ↦
                paths_apart a b p q cams ha' (rw (find_by, miss_b) at hb) apart pa pb rest
          ]
    ]
  where
    both : c ≡ a → c ≡ b → ⊥
    both ea eb = ground (arith, ea, eb, apart)
