-- ===== src/Client/Stream/Drained.antt =====
-- src/ntulearn_skill/client/contracts.py: `read` and `__iter__` of `EphemeralByteStream`.
use ntulearn_skill.Prelude.{
  raise_if, other_error, ◌>>◌, ltb, if◌then◌else◌, Bool-cases, length, length-append, other_error,
  ok, raise_if, ◌>>◌, ℕ, zero, suc, ◌<◌, ◌≡◌, refl, sym, ap, ◌∙◌, inl, inr, Bool, true, false, ◌&&◌,
  none, some, List, [], ◌∷◌, ◌++◌, arith,
}
use ntulearn_skill.Client.Stream.{
  iter, prepend, Stream, close, Read, read_some, read_open, read, on_chunk, iterate,
}
use ntulearn_skill.Prelude.Json.{ℤ}
use mathlib.Core.Path.{subst}
use ntulearn_skill.Client.Stream.Conserved.{
  rest_of, calls_due, IsWhole, ReadOf, fill_from-filled, read_some-ReadOf,
}

-- From a stream, open or closed, whose iterator has only chunks left, and which has no callback left to
-- call where it is closed, `read` of a positive size returns bytes: they and what the stream still has
-- are what it had (nothing, where it is closed), so that none is lost or changed; they are at most as
-- many as were asked for, and fewer only when nothing is left. The callback of `close` is not forgotten
-- and not called twice, and the stream meets these conditions again.
pub read-ReadOf : (n : ℕ) (s : Stream) → IsWhole s → ReadOf (suc n) s (read (ℤ.pos (suc n)) s)
unfolding read read_open
read-ReadOf n s (c, k) = opened s.closed refl
  where
    opened :
        (b : Bool)
        → s.closed ≡ b
        → ReadOf (suc n) s (if b then (Read.bytes [], s) else read_open (ℤ.pos (suc n)) s)
    opened true e = rw e (refl, omega arith, inr refl, refl, (c, ground (arith)))
    opened false e =
        let (left, after, f, g, d, w) =
          fill_from-filled (λ b. ltb (length b) (suc n)) s.iterator s.buffer c in
        subst (λ l. ReadOf (suc n) s (read_some (suc n) s l)) (sym f)
          (read_some-ReadOf (suc n) s left after e g d w)

close-closed :
    (s : Stream)
    → (s.closed && s.callback) ≡ false
    → ((close s).closed ≡ true) × ((close s).calls ≡ calls_due s)
unfolding close
close-closed s k = elim (Bool-cases s.closed) [
  | inl e ↦ rw (e, close) (refl, ground (arith))
  | inr e ↦ rw (e, close) (refl, refl)
]

abbrev pub joined : List (List ℕ) → List ℕ
joined [] = []
joined (xs ∷ rest) = xs ++ joined rest

iterate-joined :
    (fuel : ℕ) (s : Stream)
    → IsWhole s
    → length (rest_of s) < fuel
    → (chunks : List (List ℕ)) × (t : Stream) × (iterate fuel s ≡ some (chunks, none, t))
      × (joined chunks ≡ rest_of s)
      × (t.closed ≡ true)
      × (t.calls ≡ calls_due s)
unfolding iterate on_chunk
iterate-joined zero s k n = let none_left : ⊥ = omega (arith, n) in elim none_left [ ]
iterate-joined (suc fuel) s k n =
    continued (read (ℤ.pos 65536) s) (read-ReadOf 65535 s k) (iterate-joined fuel)
  where
    continued :
        (r : Read × Stream)
        → ReadOf 65536 s r
        → ((u : Stream)
            → IsWhole u
            → length (rest_of u) < fuel
            → (chunks : List (List ℕ)) × (t : Stream) × (iterate fuel u ≡ some (chunks, none, t))
              × (joined chunks ≡ rest_of u)
              × (t.closed ≡ true)
              × (t.calls ≡ calls_due u))
        → (chunks : List (List ℕ)) × (t : Stream) × (on_chunk r (iterate fuel)
            ≡ some (chunks, none, t))
          × (joined chunks ≡ rest_of s)
          × (t.closed ≡ true)
          × (t.calls ≡ calls_due s)
    continued (Read.fault e, t) o rest = elim o [ ]
    continued (Read.bad_size, t) o rest = elim o [ ]
    continued (Read.bytes [], t) (j, l, inl f, d, (c, b)) rest =
        let nothing : ⊥ = omega (arith, f) in elim nothing [ ]
    continued (Read.bytes [], t) (j, l, inr f, d, (c, b)) rest =
        let (e, m) = close-closed t b in ([], close t, refl, sym f ∙ j, e, m ∙ d)
    continued (Read.bytes (x ∷ xs), t) (j, l, f, d, w) rest =
        let shorter : length (rest_of t) < fuel =
          omega (arith, n, ap length j, length-append (x ∷ xs) (rest_of t)) in
        let (chunks, u, e, q, c, m) = rest t w shorter in
        ((x ∷ xs) ∷ chunks, u, ap (prepend (x ∷ xs)) e, ap (λ l. (x ∷ xs) ++ l) q ∙ j, c, m ∙ d)

-- Iterated over to its end, with more fuel than it has bytes, an open stream that has only chunks to
-- come gives all its bytes in order and raises nothing; it is closed afterwards, and the callback was called exactly as
-- often as it was due.
pub iter-joined :
    (fuel : ℕ) (s : Stream)
    → IsWhole s
    → s.closed ≡ false
    → length (rest_of s) < fuel
    → (chunks : List (List ℕ)) × (t : Stream) × (iter fuel s ≡ ok (some (chunks, none, t)))
      × (joined chunks ≡ rest_of s)
      × (t.closed ≡ true)
      × (t.calls ≡ calls_due s)
unfolding iter
iter-joined fuel s k o n =
    let (chunks, t, e, q, c, m) = iterate-joined fuel s k n in
    (
      chunks,
      t,
      ap
            (λ b.
              raise_if b (other_error "resource stream is closed or already consumed")
              >> ok (iterate fuel s))
            o
          ∙ ap ok e,
      q,
      c,
      m,
    )
