-- ===== src/Mention/Outbound.antt =====
-- The structured mentions of a reply: `parse_structured_mentions` and
-- `convert_structured_mentions`. `is_word` is the character class \w of the regular expressions.
use hermes_channel_octo.Prelude.{
  ℕ, zero, suc, ◌+◌, Bool, true, false, not, ◌&&◌, ◌||◌, Option, none, some, List, [], ◌∷◌, ◌++◌,
  length, drop, leb, ◌==◌, if◌then◌else◌,
}
use hermes_channel_octo.Prelude.Text.{Text, lit, nonempty, starts_with, text_in}
use hermes_channel_octo.Mention.{MentionEntity, natural, utf16_length, slice}

pub record StructuredMention : Type 0 where
  pub uid : Text
  pub name : Text
  pub offset : ℕ
  pub length : ℕ

-- The longest start of a text in a class of characters, and the rest.
unfoldable pub span : (ℕ → Bool) → Text → Text × Text
span p [] = ([], [])
span p (c ∷ s) = let rest = span p s in if p c then (c ∷ rest.0, rest.1) else ([], c ∷ s)

abbrev pub is_name_part : ℕ → Bool
is_name_part c = not (c == 93) && not (c == 10)

module _ (is_word : ℕ → Bool) where
  abbrev pub is_uid_char : ℕ → Bool
  is_uid_char c = is_word c || c == 46 || c == 45

  -- The name and its bracket, behind the colon.
  abbrev pub match_name : Text → Text × Text → Option (Text × Text)
  match_name uid (name, rest) =
      if nonempty name && starts_with rest (lit "]") then some (uid, name) else none

  abbrev pub match_uid : Text × Text → Option (Text × Text)
  match_uid (uid, rest) =
      if nonempty uid && starts_with rest (lit ":")
      then match_name uid (span is_name_part (drop 1 rest))
      else none

  -- STRUCTURED_MENTION_PATTERN at the start of a text.
  unfoldable pub match_mention : Text → Option (Text × Text)
  unfolding span
  match_mention text =
      if starts_with text (lit "@[") then match_uid (span is_uid_char (drop 2 text)) else none

  abbrev pub mention_at : ℕ → Text × Text → StructuredMention
  mention_at pos (uid, name) = record {
    uid = uid;
    name = name;
    offset = pos;
    length = 4 + length uid + length name;
  }

  -- `finditer`: the search goes on behind a match, `skip` characters of which are still to come.
  unfoldable pub find_mentions : ℕ → ℕ → Text → List StructuredMention
  unfolding match_mention
  find_mentions pos skip [] = []
  find_mentions pos (suc skip) (c ∷ s) = find_mentions (pos + 1) skip s
  find_mentions pos zero (c ∷ s) = elim (match_mention (c ∷ s)) [
    | none ↦ find_mentions (pos + 1) 0 s
    | some found ↦
        mention_at pos found ∷ find_mentions (pos + 1) (3 + length found.0 + length found.1) s
  ]

  unfoldable pub parse_structured_mentions : Text → List StructuredMention
  unfolding find_mentions
  parse_structured_mentions text = find_mentions 0 0 text

unfoldable pub insert_mention : StructuredMention → List StructuredMention → List StructuredMention
insert_mention m [] = m ∷ []
insert_mention m (x ∷ xs) = if leb m.offset x.offset then m ∷ x ∷ xs else x ∷ insert_mention m xs

-- sorted(mentions, key=lambda m: m.offset)
unfoldable pub sort_mentions : List StructuredMention → List StructuredMention
unfolding insert_mention
sort_mentions [] = []
sort_mentions (m ∷ ms) = insert_mention m (sort_mentions ms)

abbrev pub is_valid_uid : Option (List Text) → Text → Bool
is_valid_uid none uid = true
is_valid_uid (some valid) uid = text_in uid valid

pub record Converted : Type 0 where
  pub content : Text
  pub entities : List MentionEntity
  pub uids : List Text

abbrev pub mention_entity : Text → ℕ → Text → MentionEntity
mention_entity uid offset shown = record {
  uid = uid;
  offset = natural offset;
  length = natural (utf16_length shown);
}

abbrev pub onto : Text → Bool → MentionEntity → Converted → Converted
onto text true e rest = record {
  content = text ++ rest.content;
  entities = e ∷ rest.entities;
  uids = e.uid ∷ rest.uids;
}
onto text false e rest = record rest { content = text ++ rest.content }

-- The loop over the sorted mentions, from a cursor in the text and a length of what is built.
unfoldable pub convert_from : Text → Option (List Text) → ℕ → ℕ → List StructuredMention → Converted
unfolding utf16_length
convert_from text valid cursor running [] = record {
  content = drop cursor text;
  entities = [];
  uids = [];
}
convert_from text valid cursor running (m ∷ ms) =
    let between = slice text cursor m.offset in
    let shown = 64 ∷ m.name in
    let at = running + utf16_length between in
    onto (between ++ shown) (is_valid_uid valid m.uid) (mention_entity m.uid at shown)
      (convert_from text valid (m.offset + m.length) (at + utf16_length shown) ms)

unfoldable pub convert_structured_mentions :
    Text → List StructuredMention → Option (List Text) → Converted
unfolding convert_from sort_mentions
convert_structured_mentions text mentions valid =
    convert_from text valid 0 0 (sort_mentions mentions)
