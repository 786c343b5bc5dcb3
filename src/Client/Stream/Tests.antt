-- ===== src/Client/Stream/Tests.antt =====
-- A concrete stream, for the theorems on `EphemeralByteStream` (src/ntulearn_skill/client/contracts.py).
use ntulearn_skill.Prelude.{ok, ℕ, ◌≡◌, refl, true, none, some, List, [], ◌∷◌, arith}
use ntulearn_skill.Client.Errors.{SourceError}
use ntulearn_skill.Client.Stream.{
  iter, Event, Stream, open_stream, close, fill, fill_from, Read, read_rest, read_some, read_open,
  read,
}
use ntulearn_skill.Client.Stream.Conserved.{rest_of, calls_due, IsWhole, ReadOf}
use ntulearn_skill.Client.Stream.Drained.{iter-joined, read-ReadOf, joined, iter-joined}
use ntulearn_skill.Prelude.Json.{ℤ}

abbrev two_chunks : Stream
two_chunks = open_stream (Event.chunk (1 ∷ 2 ∷ []) ∷ Event.chunk (3 ∷ 4 ∷ 5 ∷ []) ∷ []) true

-- Three bytes span the chunks, and leave two in the buffer.
three_read :
    ((read (ℤ.pos 3) two_chunks).0 ≡ Read.bytes (1 ∷ 2 ∷ 3 ∷ []))
    × ((read (ℤ.pos 3) two_chunks).1.buffer ≡ 4 ∷ 5 ∷ [])
unfolding read read_open fill_from fill read_some close
three_read = (refl, refl)

-- A value that is no bytes ends the stream with a protocol error, and closes it.
fault_read :
    let (r, s) =
      read (ℤ.negsuc 0) (open_stream (Event.chunk (1 ∷ []) ∷ Event.not_bytes ∷ []) true) in
    (r ≡ Read.fault SourceError.protocol_error) × (s.closed ≡ true) × (s.calls ≡ 1)
unfolding read read_open fill_from fill read_rest close
fault_read = (refl, refl, refl)

two_chunks-IsWhole : IsWhole two_chunks
two_chunks-IsWhole = (tt, refl)

read-ReadOf_example : ReadOf 3 two_chunks (read (ℤ.pos 3) two_chunks)
read-ReadOf_example = read-ReadOf 2 two_chunks two_chunks-IsWhole

iter-joined_example :
    (chunks : List (List ℕ)) × (t : Stream) × (iter 6 two_chunks ≡ ok (some (chunks, none, t)))
    × (joined chunks ≡ rest_of two_chunks)
    × (t.closed ≡ true)
    × (t.calls ≡ calls_due two_chunks)
iter-joined_example = iter-joined 6 two_chunks two_chunks-IsWhole refl (omega arith)
