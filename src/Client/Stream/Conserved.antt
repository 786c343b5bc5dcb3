-- ===== src/Client/Stream/Conserved.antt =====
-- src/ntulearn_skill/client/contracts.py: the bytes that a stream has, before and after a read.
use ntulearn_skill.Prelude.{
  ltb, if◌then◌else◌, Bool-cases, length, append_nil, append_assoc, ℕ, zero, suc, ◌+◌, ◌≤◌, ◌≡◌,
  refl, sym, ap, ◌∙◌, ◌⊎◌, inl, inr, Bool, true, false, ◌&&◌, Option, none, some, List, [], ◌∷◌,
  ◌++◌, arith,
}
use ntulearn_skill.Client.Stream.{
  Event, Stream, close, Filled, fill, fill_from, Read, take, drop, is_nil, read_some,
}

-- Chunks only.
abbrev pub IsClean : List Event → Type 0
IsClean [] = Unit
IsClean (Event.chunk c ∷ events) = IsClean events
IsClean (_ ∷ events) = ⊥

abbrev pub contents : List Event → List ℕ
contents [] = []
contents (Event.chunk c ∷ events) = c ++ contents events
contents (_ ∷ events) = contents events

abbrev pub iterator_contents : Option (List Event) → List ℕ
iterator_contents none = []
iterator_contents (some events) = contents events

abbrev pub IsCleanIterator : Option (List Event) → Type 0
IsCleanIterator none = Unit
IsCleanIterator (some events) = IsClean events

-- The bytes that a stream still has.
abbrev pub rest_of : Stream → List ℕ
rest_of s = if s.closed then [] else s.buffer ++ iterator_contents s.iterator

-- How often the callback will have been called once the stream is closed.
abbrev pub calls_due : Stream → ℕ
calls_due s = if s.callback then s.calls + 1 else s.calls

abbrev pub IsWhole : Stream → Type 0
IsWhole s = IsCleanIterator s.iterator × ((s.closed && s.callback) ≡ false)

wanted : (b : Bool) (x y : Filled) → b ≡ true → elim b [ false ↦ x | true ↦ y ] ≡ y
wanted true x y e = refl
wanted false x y e = cc

unwanted : (b : Bool) (x y : Filled) → b ≡ false → elim b [ false ↦ x | true ↦ y ] ≡ x
unwanted true x y e = cc
unwanted false x y e = refl

fill-filled :
    (wants : List ℕ → Bool) (events : List Event) (buffer : List ℕ)
    → IsClean events
    → (iterator : Option (List Event)) × (after : List ℕ) × (fill wants events buffer
        ≡ Filled.filled iterator after)
      × (after ++ iterator_contents iterator ≡ buffer ++ contents events)
      × IsCleanIterator iterator
      × ((iterator ≡ none) ⊎ (wants after ≡ false))
unfolding fill
fill-filled wants [] buffer c = elim (Bool-cases (wants buffer)) [
  | inl e ↦ (none, buffer, rw e refl, refl, tt, inl refl)
  | inr e ↦ (some [], buffer, rw e refl, refl, tt, inr e)
]
fill-filled wants (Event.chunk b ∷ events) buffer c = elim (Bool-cases (wants buffer)) [
  | inl e ↦
      let (i, a, f, s, d, w) = fill-filled wants events (buffer ++ b) c in
      (i, a, wanted (wants buffer) _ _ e ∙ f, s ∙ append_assoc buffer b (contents events), d, w)
  | inr e ↦ (some (Event.chunk b ∷ events), buffer, unwanted (wants buffer) _ _ e, refl, c, inr e)
]
fill-filled wants (Event.not_bytes ∷ events) buffer c = elim c [ ]
fill-filled wants (Event.raises r ∷ events) buffer c = elim c [ ]

pub fill_from-filled :
    (wants : List ℕ → Bool) (iterator : Option (List Event)) (buffer : List ℕ)
    → IsCleanIterator iterator
    → (left : Option (List Event)) × (after : List ℕ) × (fill_from wants iterator buffer
        ≡ Filled.filled left after)
      × (after ++ iterator_contents left ≡ buffer ++ iterator_contents iterator)
      × IsCleanIterator left
      × ((left ≡ none) ⊎ (wants after ≡ false))
unfolding fill_from
fill_from-filled wants none buffer c = (none, buffer, refl, refl, tt, inl refl)
fill_from-filled wants (some events) buffer c = fill-filled wants events buffer c

take-drop : (n : ℕ) (xs : List ℕ) → take n xs ++ drop n xs ≡ xs
take-drop zero xs = refl
take-drop (suc n) [] = refl
take-drop (suc n) (x ∷ xs) = ap (λ l. x ∷ l) (take-drop n xs)

length-take : (n : ℕ) (xs : List ℕ) → length (take n xs) ≤ n
length-take zero xs = omega arith
length-take (suc n) [] = omega arith
length-take (suc n) (x ∷ xs) = omega (arith, length-take n xs)

-- Either `take` gives all that was asked for, or nothing is dropped.
take-full : (n : ℕ) (xs : List ℕ) → (length (take n xs) ≡ n) ⊎ (drop n xs ≡ [])
take-full zero xs = inl refl
take-full (suc n) [] = inr refl
take-full (suc n) (x ∷ xs) = elim (take-full n xs) [
  | inl e ↦ inl (omega (arith, e))
  | inr e ↦ inr e
]

take-long : (n : ℕ) (xs : List ℕ) → ltb (length xs) n ≡ false → length (take n xs) ≡ n
take-long zero xs e = refl
take-long (suc n) [] e = ground (arith)
take-long (suc n) (x ∷ xs) e = omega (arith, take-long n xs (ground (arith)))

is_nil-nil : (xs : List ℕ) → is_nil xs ≡ true → xs ≡ []
is_nil-nil [] e = refl
is_nil-nil (x ∷ xs) e = cc

-- What a `read` of so many bytes promises of the stream before and after.
abbrev pub ReadOf : ℕ → Stream → Read × Stream → Type 0
ReadOf n s (Read.fault e, t) = ⊥
ReadOf n s (Read.bad_size, t) = ⊥
ReadOf n s (Read.bytes xs, t) =
    (xs ++ rest_of t ≡ rest_of s)
    × (length xs ≤ n)
    × ((length xs ≡ n) ⊎ (rest_of t ≡ []))
    × (calls_due t ≡ calls_due s)
    × IsWhole t

-- The bytes taken, and what is left, make the buffer and the iterator.
take-rest :
    (n : ℕ) (s : Stream) (left : Option (List Event)) (after : List ℕ)
    → after ++ iterator_contents left ≡ s.buffer ++ iterator_contents s.iterator
    → take n after ++ (drop n after ++ iterator_contents left)
      ≡ s.buffer ++ iterator_contents s.iterator
take-rest n s left after e =
    sym (append_assoc (take n after) (drop n after) (iterator_contents left))
    ∙ ap (λ l. l ++ iterator_contents left) (take-drop n after)
    ∙ e

pub read_some-ReadOf :
    (n : ℕ) (s : Stream) (left : Option (List Event)) (after : List ℕ)
    → s.closed ≡ false
    → after ++ iterator_contents left ≡ s.buffer ++ iterator_contents s.iterator
    → IsCleanIterator left
    → (left ≡ none) ⊎ (ltb (length after) n ≡ false)
    → ReadOf n s (read_some n s (Filled.filled left after))
unfolding read_some close
read_some-ReadOf n s none after o e c w = elim (Bool-cases (is_nil (drop n after))) [
  | inl f ↦
      let d = is_nil-nil (drop n after) f in
      rw (f, o)
        (
          ap (λ l. take n after ++ l) (sym (append_nil (drop n after) ∙ d))
              ∙ take-rest n s none after e,
          length-take n after,
          inr refl,
          refl,
          (tt, refl),
        )
  | inr f ↦
      rw (f, o)
        (
          take-rest n s none after e,
          length-take n after,
          full (take-full n after) f,
          refl,
          (tt, refl),
        )
]
  where
    full :
        (length (take n after) ≡ n) ⊎ (drop n after ≡ [])
        → is_nil (drop n after) ≡ false
        → (length (take n after) ≡ n) ⊎ (drop n after ++ [] ≡ [])
    full (inl e) f = inl e
    full (inr e) f = inr (append_nil (drop n after) ∙ e)
read_some-ReadOf n s (some events) after o e c (inl w) = cc
read_some-ReadOf n s (some events) after o e c (inr w) = rw o (
  take-rest n s (some events) after e,
  length-take n after,
  inl (take-long n after w),
  refl,
  (c, refl),
)
