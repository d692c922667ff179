-- ===== src/Mention/Pieces.antt =====
-- A reply in pieces, and what is made of it on its way out.
use hermes_channel_octo.Prelude.{
  ℕ, ◌+◌, ◌-◌, ◌≤◌, ◌≡◌, refl, sym, ◌∙◌, true, Option, All, List, [], ◌∷◌, ◌++◌, length,
  length-append, append_assoc, drop, take-append, drop-append, arith, leb,
}
use hermes_channel_octo.Prelude.Text.{Text, lit}
use hermes_channel_octo.Mention.{MentionEntity, utf16_length, slice, envelope}
use hermes_channel_octo.Mention.Outbound.{
  StructuredMention, Converted, insert_mention, sort_mentions, mention_entity, convert_from,
  convert_structured_mentions, is_valid_uid,
}

-- Some text and the structured mention behind it.
pub record Piece : Type 0 where
  pub before : Text
  pub uid : Text
  pub name : Text

-- The reply as it was written, and as it is sent.
abbrev pub written : List Piece → Text → Text
written [] tail = tail
written (p ∷ ps) tail = p.before ++ (envelope p.uid p.name ++ written ps tail)

abbrev pub sent : List Piece → Text → Text
sent [] tail = tail
sent (p ∷ ps) tail = p.before ++ ((64 ∷ p.name) ++ sent ps tail)

abbrev pub mentions_at : ℕ → List Piece → List StructuredMention
mentions_at k [] = []
mentions_at k (p ∷ ps) =
    let at = k + length p.before in
    let size = 4 + length p.uid + length p.name in
    record { uid = p.uid; name = p.name; offset = at; length = size } ∷ mentions_at (at + size) ps

abbrev pub entities_at : ℕ → List Piece → List MentionEntity
entities_at u [] = []
entities_at u (p ∷ ps) =
    let at = u + utf16_length p.before in
    mention_entity p.uid at (64 ∷ p.name) ∷ entities_at (at + utf16_length (64 ∷ p.name)) ps

abbrev pub uids_of : List Piece → List Text
uids_of [] = []
uids_of (p ∷ ps) = p.uid ∷ uids_of ps

pub length-envelope : (uid name : Text) → length (envelope uid name) ≡ 4 + length uid + length name
length-envelope uid name = omega (
  arith,
  length-append (lit "@[" ++ uid ++ lit ":" ++ name) (lit "]"),
  length-append (lit "@[" ++ uid ++ lit ":") name,
  length-append (lit "@[" ++ uid) (lit ":"),
  length-append (lit "@[") uid,
)

-- The part of a text that stands between two others.
pub slice-part :
    (a b c text : Text) (start end : ℕ)
    → text ≡ a ++ (b ++ c)
    → start ≡ length a
    → end ≡ length a + length b
    → slice text start end ≡ b
slice-part a b c text start end e s t =
    let size : end - start ≡ length b = omega arith in
    rw (size, e, s, drop-append a (b ++ c), take-append b c) refl

pub drop-part :
    (a c text : Text) (start : ℕ) → text ≡ a ++ c → start ≡ length a → drop start text ≡ c
drop-part a c text start e s = rw (e, s) (drop-append a c)

pub regroup : (a b c d : Text) → a ++ (b ++ (c ++ d)) ≡ ((a ++ b) ++ c) ++ d
regroup a b c d = sym (append_assoc a b (c ++ d)) ∙ sym (append_assoc (a ++ b) c d)

insert-first :
    (k : ℕ) (m : StructuredMention) (ps : List Piece)
    → m.offset ≤ k
    → insert_mention m (mentions_at k ps) ≡ m ∷ mentions_at k ps
unfolding insert_mention
insert-first k m [] h = refl
insert-first k m (p ∷ ps) h =
    let first : leb m.offset (k + length p.before) ≡ true = ground arith in rw first refl

sort-mentions_at : (k : ℕ) (ps : List Piece) → sort_mentions (mentions_at k ps) ≡ mentions_at k ps
unfolding sort_mentions
sort-mentions_at k [] = refl
sort-mentions_at k (p ∷ ps) =
    let at = k + length p.before in
    let next = at + (4 + length p.uid + length p.name) in
    rw (sort-mentions_at next ps) (insert-first next _ ps (omega arith))

abbrev pub convert_all : ℕ → List Piece → Text → Converted
convert_all u ps tail = record {
  content = sent ps tail;
  entities = entities_at u ps;
  uids = uids_of ps;
}

-- The mention's person is among those that may be mentioned, if they are restricted.
abbrev pub Allowed : Option (List Text) → Piece → Type 0
Allowed valid p = is_valid_uid valid p.uid ≡ true

convert_from-pieces :
    (text done tail : Text) (k u : ℕ) (valid : Option (List Text)) (ps : List Piece)
    → All (Allowed valid) ps
    → text ≡ done ++ written ps tail
    → k ≡ length done
    → convert_from text valid k u (mentions_at k ps) ≡ convert_all u ps tail
unfolding convert_from
convert_from-pieces text done tail k u valid [] a e s = rw (drop-part done tail text k e s) refl
convert_from-pieces text done tail k u valid (p ∷ ps) (a, more) e s =
    let env = envelope p.uid p.name in
    let at = k + length p.before in
    let at' = at + (4 + length p.uid + length p.name) in
    let done' = (done ++ p.before) ++ env in
    let units = u + utf16_length p.before + utf16_length (64 ∷ p.name) in
    let whole : text ≡ done' ++ written ps tail = e ∙ regroup done p.before env (written ps tail) in
    let size : at' ≡ length done' = omega (
      arith,
      s,
      length-append (done ++ p.before) env,
      length-append done p.before,
      length-envelope p.uid p.name,
    ) in
    let next = convert_from-pieces text done' tail at' units valid ps more whole size in
    let between : slice text k at ≡ p.before =
      slice-part done p.before (env ++ written ps tail) text k at e s (omega (arith, s)) in
    rw (between, a, next, append_assoc p.before (64 ∷ p.name) (sent ps tail)) refl

-- Converting the whole reply.
pub convert-pieces :
    (valid : Option (List Text)) (ps : List Piece) (tail : Text)
    → All (Allowed valid) ps
    → convert_structured_mentions (written ps tail) (mentions_at 0 ps) valid ≡ convert_all 0 ps tail
unfolding convert_structured_mentions
convert-pieces valid ps tail a =
    rw (sort-mentions_at 0 ps)
      (convert_from-pieces (written ps tail) [] tail 0 0 valid ps a refl refl)
