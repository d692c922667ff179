-- ===== src/Mention/Parsed.antt =====
-- The structured mentions of a reply in pieces, as they are parsed.
use hermes_channel_octo.Prelude.{
  ℕ, zero, suc, ◌+◌, ◌≡◌, refl, sym, ap, ◌∙◌, Bool, true, false, none, some, List, [], ◌∷◌, ◌++◌,
  length, append_assoc, append-nil, all, drop, All, arith,
}
use hermes_channel_octo.Prelude.Text.{Text, lit, nonempty, starts_with, contains}
use hermes_channel_octo.Mention.{envelope}
use hermes_channel_octo.Mention.Outbound.{
  span, is_name_part, is_uid_char, match_uid, match_mention, mention_at, find_mentions,
  parse_structured_mentions,
}
use hermes_channel_octo.Mention.Neutral.{IsNeutral}
use hermes_channel_octo.Mention.Pieces.{Piece, written, mentions_at, length-envelope}

span-append :
    (p : ℕ → Bool) (a b : Text) (c : ℕ)
    → all p a ≡ true
    → p c ≡ false
    → span p (a ++ c ∷ b) ≡ (a, c ∷ b)
unfolding span
span-append p [] b c h k = rw k refl
span-append p (x ∷ a) b c h k =
    let first : p x ≡ true = ground arith in rw (first, span-append p a b c (ground arith) k) refl

module _ (is_word : ℕ → Bool) (no_colon : is_word 58 ≡ false) where
  -- A piece whose id and name the pattern takes, and whose text begins no mention.
  pub record Matched (p : Piece) : Type 0 where
    pub plain : IsNeutral p.before
    pub has_uid : nonempty p.uid ≡ true
    pub uid_chars : all (is_uid_char is_word) p.uid ≡ true
    pub has_name : nonempty p.name ≡ true
    pub name_chars : all is_name_part p.name ≡ true

  match-envelope :
      (p : Piece) (rest : Text)
      → Matched p
      → match_mention is_word (envelope p.uid p.name ++ rest) ≡ some (p.uid, p.name)
  unfolding match_mention starts_with
  match-envelope p rest m =
      let bracket = 93 ∷ rest in
      let colon = 58 ∷ p.name ++ bracket in
      let apart : p.uid ++ 58 ∷ [] ++ p.name ++ 93 ∷ [] ++ rest ≡ p.uid ++ colon =
        append_assoc (p.uid ++ 58 ∷ [] ++ p.name) (93 ∷ []) rest
        ∙ append_assoc (p.uid ++ 58 ∷ []) p.name bracket
        ∙ append_assoc p.uid (58 ∷ []) (p.name ++ bracket) in
      let ends : is_uid_char is_word 58 ≡ false = ground arith in
      let uid = span-append (is_uid_char is_word) p.uid (p.name ++ bracket) 58 m.uid_chars ends in
      let name = span-append is_name_part p.name rest 93 m.name_chars refl in
      ap (λ t. match_uid is_word (span (is_uid_char is_word) t)) apart
      ∙ ap (λ x. match_uid is_word x) uid
      ∙ rw (m.has_uid, name, m.has_name) refl

  find-skip :
      (pos k : ℕ) (a s : Text)
      → k ≡ length a
      → find_mentions is_word pos k (a ++ s) ≡ find_mentions is_word (pos + length a) 0 s
  unfolding find_mentions
  find-skip pos zero [] s h = ap (λ n. find_mentions is_word n 0 s) (omega arith)
  find-skip pos zero (c ∷ a) s h = absurd (omega arith)
  find-skip pos (suc k) [] s h = absurd (omega arith)
  find-skip pos (suc k) (c ∷ a) s h =
      find-skip (pos + 1) k a s (omega arith) ∙ ap (λ n. find_mentions is_word n 0 s) (omega arith)

  -- No mention begins in a text that has none, also where it goes on with one.
  plain-start :
      (c : ℕ) (s t : Text)
      → IsNeutral (c ∷ s)
      → starts_with t (lit "[") ≡ false
      → starts_with (c ∷ s ++ t) (lit "@[") ≡ false
  unfolding starts_with contains
  plain-start c [] t h k = ground arith
  plain-start c (d ∷ s) t h k = ground arith

  find-plain :
      (pos : ℕ) (s t : Text)
      → IsNeutral s
      → starts_with t (lit "[") ≡ false
      → find_mentions is_word pos 0 (s ++ t) ≡ find_mentions is_word (pos + length s) 0 t
  unfolding find_mentions contains
  find-plain pos [] t h k = ap (λ n. find_mentions is_word n 0 t) (omega arith)
  find-plain pos (c ∷ s) t h k =
      let missed : match_mention is_word (c ∷ s ++ t) ≡ none =
        unfold match_mention in rw (plain-start c s t h k) refl in
      rw (find_mentions, missed)
        (find-plain (pos + 1) s t (ground arith) k
          ∙ ap (λ n. find_mentions is_word n 0 t) (omega arith))

  find-envelope :
      (at : ℕ) (p : Piece) (rest : Text)
      → Matched p
      → find_mentions is_word at 0 (envelope p.uid p.name ++ rest)
        ≡ mention_at is_word at (p.uid, p.name)
          ∷ find_mentions is_word (at + (4 + length p.uid + length p.name)) 0 rest
  unfolding find_mentions
  find-envelope at p rest m =
      let size = 3 + length p.uid + length p.name in
      let behind = drop 1 (envelope p.uid p.name) in
      let long : size ≡ length behind = omega (arith, length-envelope p.uid p.name) in
      rw (find_mentions, match-envelope p rest m)
        (ap (λ ms. mention_at is_word at (p.uid, p.name) ∷ ms)
          (find-skip (at + 1) size behind rest long
            ∙ ap (λ n. find_mentions is_word n 0 rest) (omega (arith, long))))

  find-pieces :
      (pos : ℕ) (ps : List Piece) (tail : Text)
      → All Matched ps
      → IsNeutral tail
      → find_mentions is_word pos 0 (written ps tail) ≡ mentions_at pos ps
  unfolding starts_with
  find-pieces pos [] tail h t =
      ap (λ x. find_mentions is_word pos 0 x) (sym (append-nil tail))
      ∙ find-plain pos tail [] t refl
      ∙ unfold find_mentions in refl
  find-pieces pos (p ∷ ps) tail (m, h) t =
      let rest = written ps tail in
      let env = envelope p.uid p.name in
      let at = pos + length p.before in
      let size = 4 + length p.uid + length p.name in
      find-plain pos p.before (env ++ rest) m.plain refl
      ∙ find-envelope at p rest m
      ∙ ap (λ ms. mention_at is_word at (p.uid, p.name) ∷ ms) (find-pieces (at + size) ps tail h t)

-- A reply is parsed into exactly the mentions it was written with: between pieces of text in which no
-- mention begins, each @[uid:name] whose id and name have only the characters that the pattern takes
-- is found, in order, with its offset and its length. A colon is no word character.
pub parse_structured_mentions-written :
    (is_word : ℕ → Bool)
    → (no_colon : is_word 58 ≡ false) → (ps : List Piece) (tail : Text)
    → All (Matched is_word no_colon) ps
    → IsNeutral tail
    → parse_structured_mentions is_word (written ps tail) ≡ mentions_at 0 ps
unfolding parse_structured_mentions
parse_structured_mentions-written is_word no_colon ps tail h t =
    find-pieces is_word no_colon 0 ps tail h t
