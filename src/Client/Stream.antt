-- ===== src/Client/Stream.antt =====
-- src/ntulearn_skill/client/contracts.py: `EphemeralByteStream`. Bytes are numbers; the iterator that it
-- reads from is the list of what its calls do.
pub mod Conserved
pub mod Drained
mod Tests
use ntulearn_skill.Prelude.{
  ltb, leb, ◌==◌, if◌then◌else◌, is_none, is_some, opt_eq, Bool-cases, Option-cases, length, any,
  all, count_if, All, length-append, append_nil, append_assoc, any-append, All-imp, All-both,
  All-append, contains, codes, text_length, is_space, is_blank, one_of, Error, type_error,
  value_error, assertion_error, storage_error, local_job_error, local_job_contract_mismatch,
  other_error, Result, err, ok, raise_if, ◌>>=◌, ◌>>◌, >>=-returns, Result-cases, ℕ, zero, suc, ◌+◌,
  ◌-◌, ◌*◌, ◌/◌, ◌%◌, ◌≤◌, ◌<◌, String, ◌≡◌, refl, sym, ap, ◌∙◌, ◌≢◌, ◌↔◌, ◌⊎◌, inl, inr, Bool,
  true, false, ◌&&◌, ◌||◌, not, Option, none, some, List, [], ◌∷◌, ◌++◌, map, arith, ◌==ₛ◌, eq_iff,
}
use ntulearn_skill.Client.Errors.{
  SourceError, category_of, source_error_categories, safe_source_error_category, Raised, Answer,
  is_expired,
}
use ntulearn_skill.Prelude.Json.{ℤ}

-- One call of `next`.
pub data Event : Type 0 where
  chunk : List ℕ → Event
  not_bytes : Event
  raises : Raised → Event

-- `callback` says whether `_close` is still to be called, and `calls` how often it was.
pub record Stream : Type 0 where
  pub iterator : Option (List Event)
  pub buffer : List ℕ
  pub closed : Bool
  pub callback : Bool
  pub calls : ℕ

-- The constructor, for chunks that can be iterated over.
abbrev pub open_stream : List Event → Bool → Stream
open_stream chunks callback = record {
  iterator = some chunks;
  buffer = [];
  closed = false;
  callback = callback;
  calls = 0;
}

unfoldable pub close : Stream → Stream
close s = if s.closed then s else record s {
  closed = true;
  callback = false;
  calls = if s.callback then s.calls + 1 else s.calls;
}

-- How a loop over `_read_next` ends.
pub data Filled : Type 0 where
  filled : Option (List Event) → List ℕ → Filled
  faulted : SourceError → List Event → List ℕ → Filled

-- The two `except` clauses of `read`.
abbrev pub read_fault : Raised → SourceError
read_fault (Raised.from_source SourceError.protocol_error) = SourceError.protocol_error
read_fault _ = SourceError.source_unavailable

-- `while wants(buffer) and self._iterator is not None: self._read_next()`
unfoldable pub fill : (List ℕ → Bool) → List Event → List ℕ → Filled
fill wants [] buffer =
    if wants buffer then Filled.filled none buffer else Filled.filled (some []) buffer
fill wants (e ∷ events) buffer = elim (wants buffer) [
  | false ↦ Filled.filled (some (e ∷ events)) buffer
  | true ↦ elim e [
    | Event.chunk c ↦ fill wants events (buffer ++ c)
    | Event.not_bytes ↦ Filled.faulted SourceError.protocol_error events buffer
    | Event.raises r ↦ Filled.faulted (read_fault r) events buffer
  ]
]

abbrev pub fill_from : (List ℕ → Bool) → Option (List Event) → List ℕ → Filled
unfolding fill
fill_from wants none buffer = Filled.filled none buffer
fill_from wants (some events) buffer = fill wants events buffer

-- What `read` returns or raises.
pub data Read : Type 0 where
  bytes : List ℕ → Read
  fault : SourceError → Read
  bad_size : Read

abbrev pub take : ℕ → List ℕ → List ℕ
take zero xs = []
take (suc n) [] = []
take (suc n) (x ∷ xs) = x ∷ take n xs

abbrev pub drop : ℕ → List ℕ → List ℕ
drop zero xs = xs
drop (suc n) [] = []
drop (suc n) (x ∷ xs) = drop n xs

abbrev pub is_nil {ℓ} : {A : Type ℓ} → List A → Bool
is_nil [] = true
is_nil (_ ∷ _) = false

-- The rest of `read(-1)`, and of `read(size)`, after the loop.
unfoldable pub read_rest : Stream → Filled → Read × Stream
unfolding close
read_rest s (Filled.faulted e events buffer) =
    (Read.fault e, close (record s { iterator = some events; buffer = buffer }))
read_rest s (Filled.filled iterator buffer) =
    (Read.bytes buffer, close (record s { iterator = iterator; buffer = [] }))

unfoldable pub read_some : ℕ → Stream → Filled → Read × Stream
unfolding close
read_some size s (Filled.faulted e events buffer) =
    (Read.fault e, close (record s { iterator = some events; buffer = buffer }))
read_some size s (Filled.filled iterator buffer) =
    let after : Stream = record s { iterator = iterator; buffer = drop size buffer } in
    (
      Read.bytes (take size buffer),
      if is_none iterator && is_nil (drop size buffer) then close after else after,
    )

-- `read` of a stream that is open.
unfoldable pub read_open : ℤ → Stream → Read × Stream
unfolding fill_from read_rest read_some
read_open (ℤ.pos zero) s = (Read.bytes [], s)
read_open (ℤ.pos (suc n)) s =
    read_some (suc n) s (fill_from (λ b. ltb (length b) (suc n)) s.iterator s.buffer)
read_open (ℤ.negsuc zero) s = read_rest s (fill_from (λ b. true) s.iterator s.buffer)
read_open (ℤ.negsuc (suc n)) s = (Read.bad_size, s)

unfoldable pub read : ℤ → Stream → Read × Stream
unfolding read_open
read size s = if s.closed then (Read.bytes [], s) else read_open size s

abbrev pub prepend :
    List ℕ
    → Option (List (List ℕ) × Option SourceError × Stream)
    → Option (List (List ℕ) × Option SourceError × Stream)
prepend c none = none
prepend c (some (cs, e, s)) = some (c ∷ cs, e, s)

-- What a consumer of `__iter__` gets: the chunks, and the fault that ended them.
unfoldable pub on_chunk :
    Read × Stream
    → (Stream → Option (List (List ℕ) × Option SourceError × Stream))
    → Option (List (List ℕ) × Option SourceError × Stream)
unfolding close
on_chunk (Read.bytes [], s) rest = some ([], none, close s)
on_chunk (Read.bytes (x ∷ xs), s) rest = prepend (x ∷ xs) (rest s)
on_chunk (Read.fault e, s) rest = some ([], some e, close s)
on_chunk (Read.bad_size, s) rest = none

-- The loop of `__iter__`, consumed to its end, on fuel: one for each read.
unfoldable pub iterate : ℕ → Stream → Option (List (List ℕ) × Option SourceError × Stream)
unfolding read on_chunk
iterate zero s = none
iterate (suc fuel) s = on_chunk (read (ℤ.pos 65536) s) (iterate fuel)

-- `__iter__`: a stream that is closed is refused.
unfoldable pub iter : ℕ → Stream → Result (Option (List (List ℕ) × Option SourceError × Stream))
unfolding iterate
iter fuel s = do
  raise_if s.closed (other_error "resource stream is closed or already consumed")
  ok (iterate fuel s)
