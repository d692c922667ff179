-- ===== src/Protocol/Fields.antt =====
-- Reading back what the Encoder writes, one field at a time, whatever follows.
use native.Mathlib.Nat.{mod-eq_of_lt}
use hermes_channel_octo.Prelude.{
  ℕ, zero, suc, ◌+◌, ◌/◌, ◌%◌, ◌^◌, ◌<◌, ◌≡◌, refl, ap, some, [], ◌∷◌, ◌++◌, length, take-append,
  drop-append, append_assoc, arith,
}
use hermes_channel_octo.Prelude.Result.{ok}
use hermes_channel_octo.Prelude.Text.{Text}
use hermes_channel_octo.Protocol.Utf8.{Bytes, encode, decode, encode-nil, decode-encode}
use hermes_channel_octo.Protocol.Encoder.{pack16, pack32, pack64, write_string}
use hermes_channel_octo.Protocol.Decoder.{
  read_text, read_int16, read_int32, read_int64, read_string,
}
use hermes_channel_octo.Protocol.Packets.{digits_of, str_of, int_from, int_of}

-- The bytes of a text behind their number.
abbrev pub prefixed : Bytes → Bytes
prefixed bs = pack16 (length bs) ++ bs

pub read-pack16 : (v : ℕ) (r : Bytes) → read_int16 (pack16 v ++ r) ≡ ok (v, r)
unfolding read_int16 pack16
read-pack16 v r = ground arith

pub read-pack32 : (v : ℕ) (r : Bytes) → read_int32 (pack32 v ++ r) ≡ ok (v, r)
unfolding read_int32 pack32
read-pack32 v r = ground arith

pub read-pack64 : (v : ℕ) (r : Bytes) → read_int64 (pack64 v ++ r) ≡ ok (v, r)
unfolding read_int64 pack64
read-pack64 v r = ground arith

read_text-append :
    (s : Text) (bs r : Bytes) → encode s ≡ some bs → read_text (length bs) (bs ++ r) ≡ ok (s, r)
unfolding decode
read_text-append s [] r h =
    let e : some [] ≡ some s = decode-encode s [] h in let e' : [] ≡ s = cc in rw (← e')
read_text-append s (b ∷ bs) r h =
    rw (take-append (b ∷ bs) r, drop-append (b ∷ bs) r, decode-encode s (b ∷ bs) h) refl

-- The bytes of a text behind their number read back as that text, and nothing of what follows is
-- taken.
pub read_string-prefixed :
    (s : Text) (bs r : Bytes) → encode s ≡ some bs → read_string (prefixed bs ++ r) ≡ ok (s, r)
unfolding read_string
read_string-prefixed s bs r h =
    rw (append_assoc (pack16 (length bs)) bs r, read-pack16 (length bs) (bs ++ r))
      (read_text-append s bs r h)

-- A text whose encoding is shorter than 2^16 bytes is written as its bytes behind their number.
pub write_string-prefixed :
    (s : Text) (bs buf : Bytes)
    → encode s ≡ some bs
    → length bs < 2 ^ 16
    → write_string s buf ≡ ok (buf ++ prefixed bs)
unfolding write_string
write_string-prefixed [] bs buf h lt = rw (← encode-nil h)
write_string-prefixed (c ∷ s) bs buf h lt =
    rw (write_string, h, mod-eq_of_lt lt) (ap ok (append_assoc buf (pack16 (length bs)) bs))

int_from-digits : (f v : ℕ) (acc : Text) → v < f → int_from 0 (digits_of f v acc) ≡ int_from v acc
unfolding int_from digits_of
int_from-digits zero v acc h = absurd (omega arith)
int_from-digits (suc f) v acc h = ground (arith, int_from-digits f (v / 10) ((48 + v % 10) ∷ acc))

int_of-digits :
    (f v c : ℕ) (acc : Text)
    → int_of (digits_of f v (c ∷ acc)) ≡ int_from 0 (digits_of f v (c ∷ acc))
unfolding int_of digits_of
int_of-digits zero v c acc = refl
int_of-digits (suc f) v c acc = ground (arith, int_of-digits f (v / 10) (48 + v % 10) (c ∷ acc))

-- `int(str(v))` is v.
pub int_of-str_of : (v : ℕ) → int_of (str_of v) ≡ ok v
unfolding int_of int_from str_of
int_of-str_of v = ground (
  arith,
  int_of-digits v (v / 10) (48 + v % 10) [],
  int_from-digits v (v / 10) ((48 + v % 10) ∷ []),
)
