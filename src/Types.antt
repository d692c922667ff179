-- ===== src/Types.antt =====
-- src/hermes_octo_plugin/types.py: the channel types.
use hermes_channel_octo.Prelude.{ℕ, Bool, ◌==◌}

pub data ChannelType : Type 0 where
  dm group community_topic : ChannelType

abbrev pub channel_code : ChannelType → ℕ
channel_code dm = 1
channel_code group = 2
channel_code community_topic = 5

-- An integer of the wire is compared with the enum's values.
abbrev pub is_channel : ℕ → ChannelType → Bool
is_channel n t = n == channel_code t
