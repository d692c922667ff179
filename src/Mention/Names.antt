-- ===== src/Mention/Names.antt =====
-- Plain @name mentions, `convert_content_for_llm` as a whole, and `build_entities_from_fallback`.
-- `is_word` is the character class \w of the regular expressions.
use hermes_channel_octo.Prelude.{
  ℕ, zero, suc, ◌+◌, Bool, true, not, ◌&&◌, ◌||◌, Option, none, some, List, [], ◌∷◌, length, take,
  drop, get_elem?, map, leb, ◌==◌, if◌then◌else◌,
}
use hermes_channel_octo.Prelude.Text.{Text, lit, text_eq, nonempty, starts_with}
use hermes_channel_octo.Prelude.Dict
use hermes_channel_octo.Prelude.Dict.{Dict}
use hermes_channel_octo.Mention.{
  MentionEntity, utf16_length, neutralize_structured_mention_envelopes, envelope,
}
use hermes_channel_octo.Mention.Outbound.{span, mention_entity}
use hermes_channel_octo.Mention.Inbound.{
  MentionPayload, Replacement, render_from, overlaps, replacements_of, entity_ranges,
}

abbrev pub max_mentions_per_message : ℕ
max_mentions_per_message = 64

-- [a-zA-Z0-9]
abbrev pub is_ascii_alnum : ℕ → Bool
is_ascii_alnum c = (leb 97 c && leb c 122) || (leb 65 c && leb c 90) || (leb 48 c && leb c 57)

-- An @ and the name behind it, with the index of the @.
abbrev pub NameMatch : Type 0
NameMatch = ℕ × Text

abbrev pub by_length : Text → Text → Bool
by_length a b = leb (length b) (length a)

unfoldable pub insert_name : Text → List Text → List Text
insert_name n [] = n ∷ []
insert_name n (x ∷ xs) = if by_length n x then n ∷ x ∷ xs else x ∷ insert_name n xs

-- sorted(member_map.keys(), key=len, reverse=True), which keeps the order of equal ones.
unfoldable pub sort_names : Dict Text → List Text
unfolding insert_name
sort_names [] = []
sort_names ((name, _) ∷ d) = insert_name name (sort_names d)

abbrev pub truthy : Option Text → Option Text
truthy none = none
truthy (some s) = if nonempty s then some s else none

abbrev pub lower : ℕ → ℕ
lower c = if leb 65 c && leb c 90 then c + 32 else c

-- `name.lower() == "all" or name == "所有人"`
abbrev pub is_everyone : Text → Bool
is_everyone name = text_eq (map lower name) (lit "all") || text_eq name (lit "所有人")

abbrev pub uids_named : List MentionEntity → List Text
uids_named [] = []
uids_named (e ∷ es) = let rest = uids_named es in if nonempty e.uid then e.uid ∷ rest else rest

abbrev pub texts_only : List (Option Text) → List Text
texts_only [] = []
texts_only (none ∷ uids) = texts_only uids
texts_only (some uid ∷ uids) = uid ∷ texts_only uids

abbrev pub some_list {ℓ} : {A : Type ℓ} → Option (List A) → List A
some_list none = []
some_list (some xs) = xs

-- The ids of a payload, those of its entities first.
unfoldable pub extract_mention_uids : Option MentionPayload → List Text
extract_mention_uids none = []
extract_mention_uids (some m) =
    let named = uids_named (some_list m.entities) in
    if nonempty named then named else texts_only (some_list m.uids)

module _ (is_word : ℕ → Bool) where
  unfoldable pub is_name_char : ℕ → Bool
  is_name_char c =
      is_word c
      || (leb 0xC0 c && leb c 0x24F)
      || (leb 0x4E00 c && leb c 0x9FFF)
      || (leb 0x3040 c && leb c 0x30FF)
      || (leb 0xAC00 c && leb c 0xD7AF)
      || c == 46
      || c == 45

  -- `MENTION_PATTERN.finditer`. `free` tells that no letter or digit stands before the place.
  unfoldable pub find_names : Bool → ℕ → ℕ → Text → List NameMatch
  unfolding span is_name_char
  find_names free pos skip [] = []
  find_names free pos (suc skip) (c ∷ s) = find_names (not (is_ascii_alnum c)) (pos + 1) skip s
  find_names free pos zero (c ∷ s) =
      let name = (span is_name_char s).0 in
      let next = find_names (not (is_ascii_alnum c)) (pos + 1) 0 s in
      let found = find_names (not (is_ascii_alnum c)) (pos + 1) (length name) s in
      if free && c == 64 && nonempty name then (pos, name) ∷ found else next

  abbrev pub ends_name : Option ℕ → Bool
  ends_name none = true
  ends_name (some c) = not (is_name_char c)

  -- `_try_longest_member_match`: the name and the id.
  unfoldable pub longest_member : Text → ℕ → Dict Text → List Text → Option (Text × Text)
  unfolding is_name_char
  longest_member text at members [] = none
  longest_member text at members (candidate ∷ more) =
      let rest = longest_member text at members more in
      if starts_with (drop (at + 1) text) candidate
        && ends_name (get_elem? text (at + 1 + length candidate))
      then elim (truthy (Dict.get members candidate)) [
        | none ↦ rest
        | some uid ↦ some (candidate, uid)
      ]
      else rest

  -- The member that a plain mention names: the longest name first, and then the one matched.
  unfoldable pub member_named : Text → Dict Text → NameMatch → Option (Text × Text)
  unfolding longest_member sort_names
  member_named text members (at, name) =
      elim (longest_member text at members (sort_names members)) [
        | some found ↦ some found
        | none ↦ elim (truthy (Dict.get members name)) [ none ↦ none | some uid ↦ some (name, uid) ]
      ]

  abbrev pub replacing : ℕ → Option (Text × Text) → List Replacement → List Replacement
  replacing at none rest = rest
  replacing at (some (name, uid)) rest =
      record { start = at; end = at + 1 + length name; text = envelope uid name } ∷ rest

  unfoldable pub replace_members : Text → Dict Text → List NameMatch → List Replacement
  unfolding member_named
  replace_members text members [] = []
  replace_members text members ((at, name) ∷ ms) =
      replacing at (member_named text members (at, name)) (replace_members text members ms)

  abbrev pub named_by : Text → Option Text → Option (Text × Text)
  named_by name none = none
  named_by name (some uid) = if nonempty uid then some (name, uid) else none

  -- The ids in their order, one for each mention.
  unfoldable pub replace_paired : List (Option Text) → List NameMatch → List Replacement
  replace_paired uids [] = []
  replace_paired [] ((at, name) ∷ ms) = replace_paired [] ms
  replace_paired (uid ∷ uids) ((at, name) ∷ ms) =
      replacing at (named_by name uid) (replace_paired uids ms)

  -- The matches come in the order of their places, so the sort changes nothing.
  unfoldable pub fallback_content : Text → List (Option Text) → Dict Text → Text
  unfolding find_names replace_members replace_paired render_from
  fallback_content content uids members =
      let matches = take max_mentions_per_message (find_names true 0 0 content) in
      if nonempty members
      then render_from content 0 (replace_members content members matches)
      else if nonempty uids
      then render_from content 0 (replace_paired uids matches)
      else neutralize_structured_mention_envelopes content

  abbrev pub with_payload : Text → MentionPayload → Dict Text → Text
  with_payload content m members =
      let found = entity_ranges content (some_list m.entities) in
      if nonempty found && not (overlaps found)
      then render_from content 0 (replacements_of content found)
      else fallback_content content (some_list m.uids) members

  unfoldable pub convert_content_for_llm : Text → Option MentionPayload → Dict Text → Text
  unfolding entity_ranges overlaps replacements_of fallback_content
  convert_content_for_llm content none members = neutralize_structured_mention_envelopes content
  convert_content_for_llm content (some m) members = with_payload content m members

  abbrev pub entity_of : Text → ℕ → Option (Text × Text) → List MentionEntity → List MentionEntity
  entity_of content at none rest = rest
  entity_of content at (some (name, uid)) rest =
      mention_entity uid (utf16_length (take at content)) (64 ∷ name) ∷ rest

  unfoldable pub entities_from : Text → Dict Text → List NameMatch → List MentionEntity
  unfolding member_named
  entities_from content members [] = []
  entities_from content members ((at, name) ∷ ms) =
      let rest = entities_from content members ms in
      if is_everyone name
      then rest
      else entity_of content at (member_named content members (at, name)) rest

  -- The entities; the ids that come with them are theirs.
  unfoldable pub build_entities_from_fallback : Text → Dict Text → List MentionEntity
  unfolding find_names entities_from
  build_entities_from_fallback content members =
      entities_from content members (take max_mentions_per_message (find_names true 0 0 content))
