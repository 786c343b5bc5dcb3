-- ===== src/Sync/Jobs/Category.antt =====
-- src/ntulearn_skill/sync/jobs.py: `_safe_error_category`, over the characters of a class name.
use ntulearn_skill.Prelude.{
  leb, ◌==◌, if◌then◌else◌, codes, Error, type_error, value_error, assertion_error, storage_error,
  local_job_error, local_job_contract_mismatch, other_error, ℕ, zero, suc, ◌+◌, Bool, ◌&&◌, ◌||◌,
  List, [], ◌∷◌, ◌++◌, map,
}
use ntulearn_skill.Sync.Jobs.{Category}

abbrev pub is_upper : ℕ → Bool
is_upper c = leb 65 c && leb c 90

-- `re.sub(r"(?<!^)(?=[A-Z])", "_", name)`, behind the first character.
unfoldable pub split_words : List ℕ → List ℕ
split_words [] = []
split_words (c ∷ cs) = if is_upper c then 95 ∷ c ∷ split_words cs else c ∷ split_words cs

abbrev pub after_first : List ℕ → List ℕ
after_first [] = []
after_first (c ∷ cs) = c ∷ split_words cs

-- `lower` of one character. Beyond ASCII, only `İ` and the Kelvin sign have a small letter of ASCII in
-- what they become; every other character there becomes one that is beyond ASCII too, which the
-- replacement by `_` does not tell from the character itself.
abbrev pub to_lower : ℕ → List ℕ
to_lower c =
    if is_upper c
    then (c + 32) ∷ []
    else (if c == 304 then 105 ∷ 775 ∷ [] else (if c == 8490 then 107 ∷ [] else c ∷ []))

unfoldable pub lower : List ℕ → List ℕ
lower [] = []
lower (c ∷ cs) = to_lower c ++ lower cs

-- `[a-z0-9_.-]`
abbrev pub is_plain : ℕ → Bool
is_plain c = (leb 97 c && leb c 122) || (leb 48 c && leb c 57) || c == 95 || c == 46 || c == 45

abbrev pub replaced : ℕ → ℕ
replaced c = if is_plain c then c else 95

-- `text[:n]`
unfoldable pub take : ℕ → List ℕ → List ℕ
take zero cs = []
take (suc n) [] = []
take (suc n) (c ∷ cs) = c ∷ take n cs

abbrev pub or_default : Category → Category → Category
or_default [] d = d
or_default (c ∷ cs) d = c ∷ cs

unfoldable pub safe_error_category : List ℕ → Category
unfolding split_words lower take
safe_error_category name =
    or_default (take 120 (map replaced (lower (after_first name)))) (codes "local_job_error")

-- The class of an exception.
unfoldable pub class_name : Error → List ℕ
class_name (type_error _) = codes "TypeError"
class_name (value_error _) = codes "ValueError"
class_name (assertion_error _) = codes "AssertionError"
class_name (storage_error _) = codes "StorageError"
class_name (local_job_error _) = codes "LocalJobError"
class_name (local_job_contract_mismatch _) = codes "LocalJobContractMismatch"
class_name (other_error name) = codes name
