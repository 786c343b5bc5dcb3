-- ===== src/Sync/Discovery/Outcomes.antt =====
-- What a part of src/ntulearn_skill/sync/discovery.py that calls the repository or the recorder raises
-- or returns.
use ntulearn_skill.Prelude.{Error, Result, err, ok, ◌>>=◌, ◌≡◌, refl, sym}
use mathlib.Core.Path.{subst}

-- An error is one of those given, or the value that is returned has the property.
abbrev pub Outcome {ℓ} : {V : Type ℓ} → (Error → Type 0) → (V → Type 0) → Result V → Type 0
Outcome F P (err e) = F e
Outcome F P (ok v) = P v

pub >>=-Outcome :
    {V U : Type 0} (F : Error → Type 0) (P : V → Type 0) (Q : U → Type 0) (r : Result V)
    (rest : V → Result U)
    → Outcome F P r
    → ((v : V) → P v → Outcome F Q (rest v))
    → Outcome F Q (r >>= rest)
>>=-Outcome F P Q (err e) rest h k = h
>>=-Outcome F P Q (ok v) rest h k = k v h

pub Outcome-imp :
    {V : Type 0} (F : Error → Type 0) (P Q : V → Type 0) (r : Result V)
    → ((v : V) → P v → Q v)
    → Outcome F P r
    → Outcome F Q r
Outcome-imp F P Q (err e) k h = h
Outcome-imp F P Q (ok v) k h = k v h

-- The value is the one that was returned.
pub Outcome-returned :
    {V : Type 0} (F : Error → Type 0) (r : Result V)
    → Outcome F (λ v. Unit {0}) r
    → Outcome F (λ v. r ≡ ok v) r
Outcome-returned F (err e) h = h
Outcome-returned F (ok v) h = refl

pub Outcome-both :
    {V : Type 0} (F : Error → Type 0) (P : V → Type 0) (r : Result V)
    → Outcome F P r
    → Outcome F (λ v. (r ≡ ok v) × P v) r
Outcome-both F P (err e) h = h
Outcome-both F P (ok v) h = (refl, h)

pub Outcome-ok :
    {V : Type 0} (F : Error → Type 0) (P : V → Type 0) (r : Result V) (v : V)
    → r ≡ ok v
    → P v
    → Outcome F P r
Outcome-ok F P r v e p = subst (Outcome F P) (sym e) p
