-- ===== src/Dsl/Loader/Group.antt =====
-- src/dsl/loader.rs: the group of a file, and which files are YAML. A path below the DSL root is
-- the list of its components.
use cron_manager.Base.{
  ℕ, ◌≡◌, refl, Bool, false, ◌||◌, Option, none, some, List, [], ◌∷◌, if◌then◌else◌, eqb, map,
  is_empty,
}
use cron_manager.Base.Eq.{list_beq}
use cron_manager.Base.Text.{Text, codes, rsplit_once, join, trim_start_by, trim_end_by}

abbrev pub FilePath : Type 0
FilePath = List Text

-- `Path::extension` and `file_stem` of one component: a leading dot begins no extension.
unfoldable pub extension : Text → Option Text
unfolding rsplit_once
extension name = elim (rsplit_once b'.' name) [
  | none ↦ none
  | some (stem, ext) ↦ if is_empty stem then none else some ext
]

unfoldable pub without_extension : Text → Text
unfolding rsplit_once
without_extension name = elim (rsplit_once b'.' name) [
  | none ↦ name
  | some (stem, ext) ↦ if is_empty stem then name else stem
]

-- `with_extension("")` on a whole path.
unfoldable pub strip_extension : FilePath → FilePath
unfolding without_extension
strip_extension [] = []
strip_extension (name ∷ rest) = elim rest as (λ r. FilePath) [
  | [] ↦ without_extension name ∷ []
  | _ ∷ _ ↦ name ∷ strip_extension rest
]

abbrev dashes : Text → Text
dashes = map (λ c. if eqb c b'\\' || eqb c b'/' then b'-' else c)

abbrev is_dash : ℕ → Bool
is_dash c = eqb c b'-'

-- `s.trim_matches('-')` of the path with its separators replaced.
unfoldable pub group_from_path : FilePath → Text
unfolding strip_extension join trim_start_by trim_end_by
group_from_path rel =
    trim_end_by is_dash (trim_start_by is_dash (dashes (join (codes "/") (strip_extension rel))))

unfoldable pub is_yaml : FilePath → Bool
unfolding extension
is_yaml [] = false
is_yaml (name ∷ rest) = elim rest as (λ r. Bool) [
  | [] ↦ elim (extension name) [
    | none ↦ false
    | some ext ↦ list_beq ext (codes "yaml") || list_beq ext (codes "yml")
  ]
  | _ ∷ _ ↦ is_yaml rest
]

-- The example of the module's header.
group_sample :
    group_from_path (codes "samples" ∷ codes "http" ∷ codes "health-check.yaml" ∷ [])
    ≡ codes "samples-http-health-check"
unfolding group_from_path
group_sample = refl
