-- ===== src/Executor/Http/Body.antt =====
-- The bounded body, and what an HTTP attempt that succeeds has received.
use mathlib.Core.List.{append_assoc, append-nil}
use mathlib.Core.Path.{subst}
use cron_manager.Base.{
  ℕ, ◌+◌, ◌≤◌, ◌<◌, ◌≡◌, refl, sym, ap, ◌∙◌, inl, inr, false, Bool-cases, List, [], ◌∷◌, ◌++◌,
  arith, length, length-append, ltb, leb, if◌then◌else◌,
}
use cron_manager.Base.Results.{ok, err}
use cron_manager.Error.{upstream_body_too_large}
use cron_manager.Executor.Http.{Chunk, bytes, read_chunks}

-- The bytes of a response that arrives whole.
abbrev pub whole : List (List ℕ) → List Chunk
whole [] = []
whole (c ∷ cs) = bytes c ∷ whole cs

abbrev pub concat : List (List ℕ) → List ℕ
concat [] = []
concat (c ∷ cs) = c ++ concat cs

read_chunks_fits :
    (limit : ℕ) (buf : List ℕ) (cs : List (List ℕ))
    → length (buf ++ concat cs) ≤ limit
    → read_chunks limit buf (whole cs) ≡ ok (buf ++ concat cs)
unfolding read_chunks
read_chunks_fits limit buf [] h = ap ok (sym (append-nil buf))
read_chunks_fits limit buf (c ∷ cs) h =
    let room : ltb limit (length buf + length c) ≡ false =
      ground (arith, length-append buf (c ++ concat cs), length-append c (concat cs)) in
    rw room (
      read_chunks_fits limit (buf ++ c) cs
        (subst (λ t. length t ≤ limit) (sym (append_assoc buf c (concat cs))) h)
      ∙ ap ok (append_assoc buf c (concat cs)))

read_chunks_overflows :
    (limit : ℕ) (buf : List ℕ) (cs : List (List ℕ))
    → length buf ≤ limit
    → limit < length (buf ++ concat cs)
    → read_chunks limit buf (whole cs) ≡ err (upstream_body_too_large limit)
unfolding read_chunks
read_chunks_overflows limit buf [] r h = absurd (omega (arith, length-append buf []))
read_chunks_overflows limit buf (c ∷ cs) r h =
    elim (Bool-cases (ltb limit (length buf + length c))) [
      | inl full ↦ rw full refl
      | inr room ↦ rw room (
          read_chunks_overflows limit (buf ++ c) cs (ground (arith, length-append buf c))
            (subst (λ t. limit < length t) (sym (append_assoc buf c (concat cs))) h))
    ]

-- A body that arrives whole, however it is cut into chunks, is read whole if it fits the limit,
-- and refused as too large if it does not.
pub read_chunks-whole :
    (limit : ℕ) (cs : List (List ℕ))
    → read_chunks limit [] (whole cs) ≡ (
        if leb (length (concat cs)) limit
        then ok (concat cs)
        else err (upstream_body_too_large limit))
read_chunks-whole limit cs = elim (Bool-cases (leb (length (concat cs)) limit)) [
  | inl fits ↦ rw fits (read_chunks_fits limit [] cs (ground (arith, fits)))
  | inr over ↦ rw over (read_chunks_overflows limit [] cs (omega arith) (ground (arith, over)))
]
