-- ===== src/Connection/Gate.antt =====
-- The detection of mentions and the gate behind it, in `_handle_recv` of adapter.py. What
-- `_handle_recv` refuses before or behind this gate is left out. `is_word` is the character class \w
-- of the regular expression.
use hermes_channel_octo.Prelude.{
  ℕ, ◌+◌, Bool, true, false, not, ◌&&◌, ◌||◌, Option, none, some, [], ◌∷◌, length, get_elem?, leb,
  if◌then◌else◌,
}
use hermes_channel_octo.Prelude.Text.{Text, nonempty, starts_with, text_in}
use hermes_channel_octo.Identity.Tokens.{strip}
use hermes_channel_octo.Mention.Inbound.{MentionPayload}
use hermes_channel_octo.Mention.Names.{extract_mention_uids, ends_name}

-- The flags of a mention that addresses many; none where the sender set none.
pub record Broadcast : Type 0 where
  pub all : Option Bool
  pub humans : Option Bool
  pub ais : Option Bool

-- What the gate looks at.
pub record Inbound : Type 0 where
  pub is_group : Bool
  pub mention : Option (MentionPayload × Broadcast)
  pub is_text : Bool
  pub content : Text
  pub sender_is_robot : Option Bool

pub record Policy : Type 0 where
  pub robot_id : Text
  pub bot_name : Text
  pub ignore_mention_all : Bool
  pub require_mention : Bool

pub data Verdict : Type 0 where
  passes to_history denied : Verdict

abbrev pub is_true : Option Bool → Bool
is_true (some true) = true
is_true (some false) = false
is_true none = false

abbrev pub is_unset : Option Bool → Bool
is_unset none = true
is_unset (some _) = false

-- A broadcast that addresses bots: in the split form by its flag, in the old form by `all` alone.
abbrev pub for_ais : Broadcast → Bool
for_ais b = is_true b.ais || (is_true b.all && is_unset b.humans && is_unset b.ais)

unfoldable pub mentioned_by_payload : Policy → Option (MentionPayload × Broadcast) → Bool
mentioned_by_payload p none = false
mentioned_by_payload p (some (m, b)) =
    text_in p.robot_id (extract_mention_uids (some m)) || (not p.ignore_mention_all && for_ais b)

module _ (is_word : ℕ → Bool) where
  -- \w, and the ranges of CJK, kana, hangul and accented letters.
  abbrev pub is_letter : ℕ → Bool
  is_letter c =
      is_word c
      || (leb 0x4E00 c && leb c 0x9FFF)
      || (leb 0x3040 c && leb c 0x30FF)
      || (leb 0xAC00 c && leb c 0xD7AF)
      || (leb 0xC0 c && leb c 0x24F)

  -- @ and the name somewhere in the text, with no letter in front and no part of a name behind.
  unfoldable pub names_bot : Bool → Text → Text → Bool
  names_bot free name [] = false
  names_bot free name (c ∷ s) =
      (free
        && starts_with (c ∷ s) (64 ∷ name)
        && ends_name is_word (get_elem? (c ∷ s) (1 + length name)))
      || names_bot (not (is_letter c)) name s

  unfoldable pub is_mentioned : Policy → Inbound → Bool
  unfolding mentioned_by_payload names_bot
  is_mentioned p i =
      i.is_group
      && (mentioned_by_payload p i.mention
          || (i.is_text
              && nonempty i.content
              && nonempty (strip p.bot_name)
              && names_bot true p.bot_name i.content))

  abbrev pub is_human : Option Bool → Bool
  is_human (some false) = true
  is_human (some true) = false
  is_human none = false

  -- The two gates, given whether the bot was mentioned.
  abbrev pub verdict : Bool → Bool → Bool → Option Bool → Verdict
  verdict is_group mentioned require_mention sender =
      if is_group && require_mention && not mentioned
      then to_history
      else if is_group && not require_mention && not mentioned
      then (if is_human sender then passes else denied)
      else passes

  unfoldable pub gate : Policy → Inbound → Verdict
  unfolding is_mentioned
  gate p i = verdict i.is_group (is_mentioned p i) p.require_mention i.sender_is_robot
