-- ===== src/Scheduler/Describe/Sorting.antt =====
-- How a snapshot collects its rows by group, and sorts those of each.
use cron_manager.Base.{
  ◌≡◌, inl, inr, refl, sym, ap, ◌∙◌, Bool, Bool-cases, true, false, List, [], ◌∷◌, ◌++◌, keep, map,
  arith,
}
use mathlib.Core.List.{Perm}
use mathlib.Core.List.Perm
use mathlib.Core.List.{append-nil, append_assoc}
use cron_manager.Base.Eq.{◌==◌, ==_iff, list_eq, nat_eq}
use cron_manager.Base.Map.{Map, get, insert, get-insert}
use cron_manager.Base.Text.{Text}
use cron_manager.Dsl.{key_eq}
use cron_manager.Scheduler.Describe.{
  JobDescriptor, text_leb, insert_row, sort_rows, rows_or, push_row, push_rows, sort_groups,
}

-- The rows of one group, in their order.
abbrev pub rows_of : Text → List (Text × JobDescriptor) → List JobDescriptor
rows_of g rows = map (λ e. e.1) (keep (λ e. e.0 == g) rows)

push_row_lem :
    (g h : Text) (row : JobDescriptor) (out : Map Text (List JobDescriptor))
    → rows_or (get g (push_row h row out)) ≡ rows_or (get g out) ++ rows_of g ((h, row) ∷ [])
unfolding push_row
push_row_lem g h row out = pushed (h == g) refl
  where
    value : List JobDescriptor
    value = rows_or (get h out) ++ (row ∷ [])

    pushed :
        (b : Bool)
        → (h == g) ≡ b
        → rows_or (get g (insert h value out)) ≡ rows_or (get g out) ++ rows_of g ((h, row) ∷ [])
    pushed true e = ground (arith, e, get-insert h g value out, ==_iff h g)
    pushed false e = ground (arith, e, get-insert h g value out, append-nil (rows_or (get g out)))

rows_of-cons :
    (g : Text) (e : Text × JobDescriptor) (rows : List (Text × JobDescriptor))
    → rows_of g (e ∷ []) ++ rows_of g rows ≡ rows_of g (e ∷ rows)
rows_of-cons g e rows = ground arith

push_rows_lem :
    (g : Text) (rows : List (Text × JobDescriptor)) (out : Map Text (List JobDescriptor))
    → rows_or (get g (push_rows rows out)) ≡ rows_or (get g out) ++ rows_of g rows
unfolding push_rows push_row
push_rows_lem g [] out = sym (append-nil _)
push_rows_lem g ((h, row) ∷ rows) out =
    push_rows_lem g rows (push_row h row out)
    ∙ ap (λ x. x ++ rows_of g rows) (push_row_lem g h row out)
    ∙ append_assoc (rows_or (get g out)) (rows_of g ((h, row) ∷ [])) (rows_of g rows)
    ∙ ap (λ x. rows_or (get g out) ++ x) (rows_of-cons g (h, row) rows)

get-sort_groups :
    (g : Text) (out : Map Text (List JobDescriptor))
    → rows_or (get g (sort_groups out)) ≡ sort_rows (rows_or (get g out))
unfolding sort_groups get sort_rows
get-sort_groups g [] = refl
get-sort_groups g ((h, rows) ∷ out) = ground (arith, get-sort_groups g out)

-- Each row's name is at most the next one's.
abbrev pub Ascending : List JobDescriptor → Type 0
Ascending [] = Unit
Ascending (r ∷ []) = Unit
Ascending (r ∷ s ∷ rows) = (text_leb r.name s.name ≡ true) × Ascending (s ∷ rows)

text_leb_total : (s t : Text) → text_leb s t ≡ false → text_leb t s ≡ true
unfolding text_leb
text_leb_total [] t h = cc
text_leb_total (c ∷ s) [] h = refl
text_leb_total (c ∷ s) (d ∷ t) h = ground (arith, text_leb_total s t)

insert_row-Ascending :
    (r : JobDescriptor) (rows : List JobDescriptor) → Ascending rows → Ascending (insert_row r rows)
unfolding insert_row
insert_row-Ascending r [] h = tt
insert_row-Ascending r (s ∷ []) h = ground (arith, text_leb_total r.name s.name)
insert_row-Ascending r (s ∷ t ∷ rows) h =
    ground (arith, text_leb_total r.name s.name, insert_row-Ascending r (t ∷ rows))

pub sort_rows-Ascending : (rows : List JobDescriptor) → Ascending (sort_rows rows)
unfolding sort_rows
sort_rows-Ascending [] = tt
sort_rows-Ascending (r ∷ rows) = insert_row-Ascending r (sort_rows rows) (sort_rows-Ascending rows)

pub grouped :
    (g : Text) (rows : List (Text × JobDescriptor))
    → rows_or (get g (sort_groups (push_rows rows []))) ≡ sort_rows (rows_of g rows)
unfolding get
grouped g rows = get-sort_groups g (push_rows rows []) ∙ ap sort_rows (push_rows_lem g rows [])

insert_row-perm :
    (r : JobDescriptor) (rows : List JobDescriptor) → Perm (insert_row r rows) (r ∷ rows)
unfolding insert_row
insert_row-perm r [] = Perm.refl _
insert_row-perm r (s ∷ rows) = elim (Bool-cases (text_leb r.name s.name)) [
  | inl first ↦ rw first (Perm.refl _)
  | inr later ↦ rw later (Perm.trans (Perm.cons s (insert_row-perm r rows)) (Perm.swap r s rows))
]

pub sort_rows-perm : (rows : List JobDescriptor) → Perm (sort_rows rows) rows
unfolding sort_rows
sort_rows-perm [] = Perm.refl []
sort_rows-perm (r ∷ rows) =
    Perm.trans (insert_row-perm r (sort_rows rows)) (Perm.cons r (sort_rows-perm rows))
