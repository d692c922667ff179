-- ===== src/Mention/Neutral.antt =====
-- Text without structured mentions.
use hermes_channel_octo.Prelude.{ℕ, ◌≡◌, refl, Bool, false, none, [], ◌∷◌, arith}
use hermes_channel_octo.Prelude.Text.{Text, lit, starts_with, contains}
use hermes_channel_octo.Prelude.Dict.{Dict}
use hermes_channel_octo.Mention.{neutralize_structured_mention_envelopes}
use hermes_channel_octo.Mention.Names.{convert_content_for_llm}

-- No envelope begins anywhere in the text.
abbrev pub IsNeutral : Text → Type 0
IsNeutral text = contains (lit "@[") text ≡ false

neutral-bracket :
    (s : Text)
    → starts_with (neutralize_structured_mention_envelopes s) (lit "[") ≡ starts_with s (lit "[")
unfolding neutralize_structured_mention_envelopes starts_with
neutral-bracket [] = refl
neutral-bracket (c ∷ s) = ground arith

neutralize-IsNeutral : (s : Text) → IsNeutral (neutralize_structured_mention_envelopes s)
unfolding neutralize_structured_mention_envelopes contains starts_with
neutralize-IsNeutral [] = refl
neutralize-IsNeutral (c ∷ s) = ground (arith, neutral-bracket s, neutralize-IsNeutral s)

-- Text that has no envelope is left as it is.
pub neutralize-same : (s : Text) → IsNeutral s → neutralize_structured_mention_envelopes s ≡ s
unfolding neutralize_structured_mention_envelopes contains starts_with
neutralize-same [] h = refl
neutralize-same (c ∷ s) h = let rest = neutralize-same s (ground arith) in ground (arith, rest)

-- The text of a message that comes without a payload shows no structured mention, whatever the user
-- wrote.
pub convert_content_for_llm-IsNeutral :
    (is_word : ℕ → Bool) (content : Text) (members : Dict Text)
    → IsNeutral (convert_content_for_llm is_word content none members)
unfolding convert_content_for_llm
convert_content_for_llm-IsNeutral is_word content members = neutralize-IsNeutral content
