-- ===== src/Mention.antt =====
-- src/hermes_octo_plugin/mention.py: mentions in the text of messages. An entity points into a text
-- by UTF-16 code units, as the clients count.
pub mod Outbound
pub mod Inbound
pub mod Names
pub mod Units
pub mod Neutral
pub mod Pointed
pub mod Boundaries
pub mod Pieces
pub mod Places
pub mod Parsed
pub mod Returned
use hermes_channel_octo.Prelude.{
  ℕ, ◌+◌, ◌-◌, Bool, ◌&&◌, List, [], ◌∷◌, ◌++◌, ltb, ◌==◌, take, drop, if◌then◌else◌,
}
use hermes_channel_octo.Prelude.Text.{Text, lit, starts_with}

-- An integer of the wire; a Boolean counts as none.
pub data WireInt : Type 0 where
  natural : ℕ → WireInt
  below_zero not_integer : WireInt

pub record MentionEntity : Type 0 where
  pub uid : Text
  pub offset : WireInt
  pub length : WireInt

abbrev pub units : ℕ → ℕ
units c = if ltb 0xFFFF c then 2 else 1

unfoldable pub utf16_length : Text → ℕ
utf16_length [] = 0
utf16_length (c ∷ s) = units c + utf16_length s

-- text[start:end]
abbrev pub slice : Text → ℕ → ℕ → Text
slice text start end = take (end - start) (drop start text)

-- `text.replace("@[", "＠[")`: an @ before a bracket becomes a full-width one.
unfoldable pub neutralize_structured_mention_envelopes : Text → Text
neutralize_structured_mention_envelopes [] = []
neutralize_structured_mention_envelopes (c ∷ s) =
    (if c == 64 && starts_with s (lit "[") then 0xFF20 else c)
    ∷ neutralize_structured_mention_envelopes s

-- @[uid:name]
abbrev pub envelope : Text → Text → Text
envelope uid name = lit "@[" ++ uid ++ lit ":" ++ name ++ lit "]"
