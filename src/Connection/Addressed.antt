-- ===== src/Connection/Addressed.antt =====
-- Which messages of a group pass the gate of mentions.
use hermes_channel_octo.Prelude.{
  ℕ, ◌≡◌, ◌⊎◌, Bool, true, false, not, Option, none, some, [], ◌∷◌, ◌++◌, get_elem?,
}
use hermes_channel_octo.Prelude.Text.{Text, nonempty, text_in}
use hermes_channel_octo.Identity.Tokens.{strip}
use hermes_channel_octo.Mention.Inbound.{MentionPayload}
use hermes_channel_octo.Mention.Names.{extract_mention_uids, ends_name}
use hermes_channel_octo.Connection.Gate.{Broadcast, Inbound, Policy, is_letter}

-- A broadcast that is meant for bots: one that says so, or one to all of the old form, which says
-- nothing about humans and bots.
abbrev pub IsForBots : Broadcast → Type 0
IsForBots b = (b.ais ≡ some true) ⊎ ((b.all ≡ some true) × (b.humans ≡ none) × (b.ais ≡ none))

-- The payload has the bot among its ids, or a broadcast for bots that is not ignored.
abbrev pub IsCalled : Policy → Option (MentionPayload × Broadcast) → Type 0
IsCalled p none = ⊥
IsCalled p (some (m, b)) =
    (text_in p.robot_id (extract_mention_uids (some m)) ≡ true)
    ⊎ ((p.ignore_mention_all ≡ false) × IsForBots b)

module _ (is_word : ℕ → Bool) where
  -- What may stand in front of a name: nothing, or a text whose last character is no letter. The
  -- flag is for nothing.
  abbrev pub is_free_behind : Bool → Text → Bool
  is_free_behind free [] = free
  is_free_behind free (c ∷ a) = is_free_behind (not (is_letter is_word c)) a

  -- The text has @ and the name with no letter in front and no part of a name behind.
  pub record Names (free : Bool) (name text : Text) : Type 0 where
    pub before : Text
    pub behind : Text
    pub splits : text ≡ before ++ ((64 ∷ name) ++ behind)
    pub begins : is_free_behind free before ≡ true
    pub ends : ends_name is_word (get_elem? behind 0) ≡ true

  -- The text names the bot, which has a name.
  pub record IsNamed (p : Policy) (i : Inbound) : Type 0 where
    pub is_text : i.is_text ≡ true
    pub content : nonempty i.content ≡ true
    pub has_name : nonempty (strip p.bot_name) ≡ true
    pub names : Names true p.bot_name i.content
