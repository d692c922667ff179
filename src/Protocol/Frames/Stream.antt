-- ===== src/Protocol/Frames/Stream.antt =====
-- The frames of a stream of bytes: `try_unpack_one` called while it returns one, as the receive
-- loop of adapter.py calls it.
use hermes_channel_octo.Prelude.{
  ℕ, zero, suc, ◌≤◌, ◌≡◌, refl, sym, ap, ◌∙◌, Option, none, some, List, [], ◌∷◌, ◌++◌, length,
  arith, ◌⊎◌, inl, inr,
}
use hermes_channel_octo.Protocol.Utf8.{Bytes}
use hermes_channel_octo.Protocol.Frames.{try_unpack_one}
use hermes_channel_octo.Protocol.Frames.Laws.{all_bytes, try_unpack_one-bytes}
use hermes_channel_octo.Protocol.Frames.Whole.{try_unpack_one-more, length-try_unpack_one}

abbrev pub before : Bytes → List Bytes × Bytes → List Bytes × Bytes
before frame (frames, rest) = (frame ∷ frames, rest)

-- `while buffer: frame, buffer = try_unpack_one(buffer); if frame is None: break`
unfoldable pub drain_from : ℕ → Bytes → List Bytes × Bytes
drain_from zero buf = ([], buf)
drain_from (suc fuel) buf =
    let (found, rest) = try_unpack_one buf in
    elim found [ none ↦ ([], rest) | some frame ↦ before frame (drain_from fuel rest) ]

-- Every frame takes a byte, so the length of the buffer is fuel enough.
unfoldable pub drain : Bytes → List Bytes × Bytes
unfolding drain_from
drain buf = drain_from (length buf) buf

Unpacked-cases :
    (buf : Bytes)
    → (try_unpack_one buf ≡ (none, buf))
      ⊎ ((frame : Bytes) × (rest : Bytes) × (try_unpack_one buf ≡ (some frame, rest)))
Unpacked-cases buf = go (try_unpack_one buf) refl
  where
    go :
        (u : Option Bytes × Bytes)
        → try_unpack_one buf ≡ u
        → (try_unpack_one buf ≡ (none, buf))
          ⊎ ((frame : Bytes) × (rest : Bytes) × (try_unpack_one buf ≡ (some frame, rest)))
    go (none, rest) e = inl (rw (← ap all_bytes e, try_unpack_one-bytes buf) at e)
    go (some frame, rest) e = inr (frame, rest, e)

drain_from-none :
    (f : ℕ) (buf : Bytes) → try_unpack_one buf ≡ (none, buf) → drain_from f buf ≡ ([], buf)
unfolding drain_from
drain_from-none zero buf e = refl
drain_from-none (suc f) buf e = rw (drain_from, e, e)

drain_from-some :
    (f : ℕ) (buf : Bytes) {frame rest : Bytes}
    → try_unpack_one buf ≡ (some frame, rest)
    → drain_from (suc f) buf ≡ before frame (drain_from f rest)
unfolding drain_from
drain_from-some f buf e = rw (drain_from, e, e)

unpack_empty : try_unpack_one [] ≡ (none, [])
unfolding try_unpack_one
unpack_empty = refl

-- More fuel than the bytes need changes nothing.
drain_from-fuel :
    (f g : ℕ) (buf : Bytes) → length buf ≤ f → length buf ≤ g → drain_from f buf ≡ drain_from g buf
drain_from-fuel zero g [] h k =
    drain_from-none zero [] unpack_empty ∙ sym (drain_from-none g [] unpack_empty)
drain_from-fuel zero g (b ∷ r) h k = absurd (omega arith)
drain_from-fuel (suc f) zero [] h k =
    drain_from-none (suc f) [] unpack_empty ∙ sym (drain_from-none zero [] unpack_empty)
drain_from-fuel (suc f) zero (b ∷ r) h k = absurd (omega arith)
drain_from-fuel (suc f) (suc g) buf h k = elim (Unpacked-cases buf) [
  | inl e ↦ drain_from-none (suc f) buf e ∙ sym (drain_from-none (suc g) buf e)
  | inr (frame, rest, e) ↦
      let lt = length-try_unpack_one buf e in
      rw (drain_from-some f buf e, drain_from-some g buf e)
        (ap (before frame) (drain_from-fuel f g rest (omega arith) (omega arith)))
]

drain-some :
    (buf : Bytes) {frame rest : Bytes}
    → try_unpack_one buf ≡ (some frame, rest)
    → drain buf ≡ before frame (drain rest)
unfolding drain
drain-some buf {frame} {rest} e =
    let lt = length-try_unpack_one buf e in
    drain_from-fuel (length buf) (suc (length buf)) buf (omega arith) (omega arith)
    ∙ drain_from-some (length buf) buf e
    ∙ ap (before frame)
        (drain_from-fuel (length buf) (length rest) rest (omega arith) (omega arith))

drain-none : (buf : Bytes) → try_unpack_one buf ≡ (none, buf) → drain buf ≡ ([], buf)
unfolding drain
drain-none buf e = drain_from-none (length buf) buf e

abbrev pub after : List Bytes → List Bytes × Bytes → List Bytes × Bytes
after done (frames, rest) = (done ++ frames, rest)

-- The frames so far, and then those of what was left over with the new bytes behind it.
abbrev pub resume : List Bytes × Bytes → Bytes → List Bytes × Bytes
resume (frames, rest) more = after frames (drain (rest ++ more))

resume-before :
    (frame : Bytes) (d : List Bytes × Bytes) (more : Bytes)
    → resume (before frame d) more ≡ before frame (resume d more)
resume-before frame (frames, rest) more = refl

drain_from-append :
    (f : ℕ) (buf more : Bytes)
    → length buf ≤ f
    → drain (buf ++ more) ≡ resume (drain_from f buf) more
drain_from-append zero [] more h = rw (drain_from-none zero [] unpack_empty)
drain_from-append zero (b ∷ r) more h = absurd (omega arith)
drain_from-append (suc f) buf more h = elim (Unpacked-cases buf) [
  | inl e ↦ rw (drain_from-none (suc f) buf e)
  | inr (frame, rest, e) ↦
      let lt = length-try_unpack_one buf e in
      rw (drain-some (buf ++ more) (try_unpack_one-more buf more e), drain_from-some f buf e)
        (ap (before frame) (drain_from-append f rest more (omega arith)))
]

-- The frames do not depend on how the bytes were cut into messages: draining the buffer, and then
-- the rest with the next bytes, gives the frames of all the bytes at once.
pub drain-append : (buf more : Bytes) → drain (buf ++ more) ≡ resume (drain buf) more
unfolding drain
drain-append buf more = drain_from-append (length buf) buf more (omega arith)
