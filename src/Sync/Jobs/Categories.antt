-- ===== src/Sync/Jobs/Categories.antt =====
-- The form of the categories that `_safe_error_category` (src/ntulearn_skill/sync/jobs.py) makes.
use ntulearn_skill.Prelude.{
  length, All, codes, ℕ, zero, suc, ◌≤◌, ◌<◌, ◌≡◌, refl, true, List, [], ◌∷◌, map, arith,
}
use ntulearn_skill.Sync.Jobs.{Category}
use ntulearn_skill.Sync.Jobs.Update.{is_category}
use ntulearn_skill.Sync.Jobs.Category.{
  after_first, lower, is_plain, replaced, take, or_default, safe_error_category,
}

replaced-is_plain : (c : ℕ) → is_plain (replaced c) ≡ true
replaced-is_plain c = ground arith

map-plain : (cs : List ℕ) → All (λ c. is_plain c ≡ true) (map replaced cs)
map-plain [] = tt
map-plain (c ∷ cs) = (replaced-is_plain c, map-plain cs)

take-All :
    (n : ℕ) (cs : List ℕ)
    → All (λ c. is_plain c ≡ true) cs
    → All (λ c. is_plain c ≡ true) (take n cs)
unfolding take
take-All zero cs h = tt
take-All (suc n) [] h = tt
take-All (suc n) (c ∷ cs) (p, h) = (p, take-All n cs h)

length-take_le : (n : ℕ) (cs : List ℕ) → length (take n cs) ≤ n
unfolding take
length-take_le zero cs = omega arith
length-take_le (suc n) [] = omega arith
length-take_le (suc n) (c ∷ cs) = omega (arith, length-take_le n cs)

-- One to a hundred and twenty characters, each a small letter, a digit, or one of `_.-`.
pub record IsSafe (c : Category) : Type 0 where
  pub not_empty : 0 < length c
  pub short : length c ≤ 120
  pub plain : All (λ x. is_plain x ≡ true) c

or_default-IsSafe :
    (c d : Category)
    → length c ≤ 120
    → All (λ x. is_plain x ≡ true) c
    → IsSafe d
    → IsSafe (or_default c d)
or_default-IsSafe [] d le h s = s
or_default-IsSafe (x ∷ c) d le h s = record { not_empty = omega arith; short = le; plain = h }

default-IsSafe : IsSafe (codes "local_job_error")
default-IsSafe = record {
  not_empty = omega arith;
  short = omega arith;
  plain = (
    refl,
    (
      refl,
      (
        refl,
        (
          refl,
          (
            refl,
            (refl, (refl, (refl, (refl, (refl, (refl, (refl, (refl, (refl, (refl, tt)))))))))),
          ),
        ),
      ),
    ),
  );
}

-- Whatever the class of an exception is called, its category is safe: one to a hundred and twenty
-- characters, each a small letter, a digit, or one of `_.-`.
pub safe_error_category-IsSafe : (name : List ℕ) → IsSafe (safe_error_category name)
unfolding safe_error_category
safe_error_category-IsSafe name =
    let cs = map replaced (lower (after_first name)) in
    or_default-IsSafe (take 120 cs) (codes "local_job_error") (length-take_le 120 cs)
      (take-All 120 cs (map-plain (lower (after_first name)))) default-IsSafe

-- A safe category passes the constraint of the table.
pub IsSafe-is_category : (c : Category) → IsSafe c → is_category c ≡ true
IsSafe-is_category [] s = absurd (omega (arith, s.not_empty))
IsSafe-is_category (x ∷ c) s =
    let p : is_plain x ≡ true = s.plain.0 in let le : suc (length c) ≤ 120 = s.short in ground arith
