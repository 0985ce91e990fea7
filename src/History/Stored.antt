-- ===== src/History/Stored.antt =====
-- What the history holds, whatever the runs answered.
use mathlib.Core.Option
use mathlib.Core.List.{append_assoc}
use cron_manager.Base.{
  ℕ, ◌+◌, ◌-◌, ◌≡◌, sym, ap, subst, ◌⊎◌, inl, inr, Bool, Bool-cases, true, false, Option, none,
  some, List, [], ◌∷◌, ◌++◌, leb, All, All-append,
}
use cron_manager.Base.Bytes.{take_bytes, drop_bytes, take_bytes-append-drop_bytes, byte_len}
use cron_manager.Base.Text.{Text, codes, decimal}
use cron_manager.History.{HistoryEntry, Recorder, postgres, noop, record_entry, record_all}
use cron_manager.Security.Sanitize.{
  truncate_response_body, cap_body, sanitize_for_persistence, marker, head_end, tail_start,
}
use cron_manager.Security.Sanitize.Laws.{IsClean, sanitize_for_persistence-IsClean}

-- A sanitised body; or two sanitised ends with the mark of a cut between them, which says how many
-- bytes are left out.
abbrev pub BodyIsStored : Text → Type 0
BodyIsStored body =
    All IsClean body
    ⊎ ((front : Text) × (back : Text) × (n : ℕ) × (body
          ≡ front
            ++ ((10 ∷ codes "… [")
                ++ (decimal n ++ (codes " bytes truncated] …" ++ (10 ∷ []) ++ back))))
        × All IsClean front
        × All IsClean back)

All-split : (s t : Text) → All IsClean (s ++ t) → All IsClean s × All IsClean t
All-split [] t h = (tt, h)
All-split (c ∷ s) t (hc, hs) = let (a, b) = All-split s t hs in ((hc, a), b)

bytes-IsClean :
    (s : Text) (i : ℕ) → All IsClean s → All IsClean (take_bytes s i) × All IsClean (drop_bytes s i)
bytes-IsClean s i h =
    All-split (take_bytes s i) (drop_bytes s i)
      (subst (All IsClean) (sym (take_bytes-append-drop_bytes s i)) h)

-- The number of bytes left out.
abbrev cut : Text → ℕ → ℕ
cut s max = byte_len s - (head_end s max + (byte_len s - tail_start s max))

marker_lem :
    (n : ℕ) (back : Text)
    → marker n ++ back
      ≡ (10 ∷ codes "… [") ++ (decimal n ++ (codes " bytes truncated] …" ++ (10 ∷ []) ++ back))
marker_lem n back =
    ap (λ s. (10 ∷ codes "… [") ++ s)
      (append_assoc (decimal n) (codes " bytes truncated] …\n") back)

cap_body-BodyIsStored : (s : Text) (max : ℕ) → All IsClean s → BodyIsStored (cap_body s max)
unfolding cap_body
cap_body-BodyIsStored s max h = elim (Bool-cases (leb (byte_len s) max)) [
  | inl short ↦ rw short (inl h)
  | inr long ↦ rw long (
      inr (
        take_bytes s (head_end s max),
        drop_bytes s (tail_start s max),
        cut s max,
        ap (λ rest. take_bytes s (head_end s max) ++ rest)
            (marker_lem (cut s max) (drop_bytes s (tail_start s max))),
        (bytes-IsClean s (head_end s max) h).0,
        (bytes-IsClean s (tail_start s max) h).1,
      ))
]

body-BodyIsStored : (s : Text) (max : ℕ) → BodyIsStored (truncate_response_body s max)
unfolding truncate_response_body
body-BodyIsStored s max =
    cap_body-BodyIsStored (sanitize_for_persistence s) max (sanitize_for_persistence-IsClean s)

-- The body of a row, where it has one.
abbrev pub HasBody : Option Text → Type 0
HasBody none = Unit
HasBody (some body) = BodyIsStored body

abbrev pub RowIsStored : HistoryEntry → Type 0
RowIsStored row = HasBody row.response_body

record_entry-RowIsStored :
    (recorder : Recorder) (taken : Bool) (entry : HistoryEntry) (rows : List HistoryEntry)
    → All RowIsStored rows
    → All RowIsStored (record_entry recorder taken entry rows)
unfolding record_entry
record_entry-RowIsStored noop taken entry rows h = h
record_entry-RowIsStored (postgres cap) false entry rows h = h
record_entry-RowIsStored (postgres cap) true entry rows h =
    All-append RowIsStored rows (_ ∷ []) h (stored_body cap entry.response_body, tt)
  where
    stored_body :
        (cap : ℕ) (o : Option Text) → HasBody (Option.map (λ s. truncate_response_body s cap) o)
    stored_body cap none = tt
    stored_body cap (some body) = body-BodyIsStored body cap

-- Over every sequence of rows that the runs of jobs hand to the recorder, whichever recorder it is,
-- whatever bodies the runs answered, and whichever rows the database takes: the body of every stored
-- row, if those stored before are so, is a text without a character below the space but tabs and
-- without DEL, or two such texts with the mark of a cut between them, whose two line breaks are the
-- only ones.
pub record_all-IsStored :
    (recorder : Recorder) (entries : List (Bool × HistoryEntry)) (rows : List HistoryEntry)
    → All RowIsStored rows
    → All RowIsStored (record_all recorder entries rows)
unfolding record_all
record_all-IsStored recorder [] rows h = h
record_all-IsStored recorder ((taken, entry) ∷ entries) rows h =
    record_all-IsStored recorder entries (record_entry recorder taken entry rows)
      (record_entry-RowIsStored recorder taken entry rows h)
