-- ===== src/Permission.antt =====
-- src/hermes_octo_plugin/permission.py: who may read which channel.
pub mod Laws
use hermes_channel_octo.Prelude.{
  ℕ, Bool, true, false, ◌||◌, ◌&&◌, Option, none, some, List, [], ◌∷◌, if◌then◌else◌,
}
use hermes_channel_octo.Prelude.Text.{
  Text, lit, text_eq, text_in, nonempty, starts_with, contains, before_first, strip_prefix,
}
use hermes_channel_octo.Types.{ChannelType, dm, group, community_topic, is_channel}

pub record GroupMember : Type 0 where
  pub uid : Text

pub data Reason : Type 0 where
  unknown_requester not_own_dm invalid_thread not_in_group not_in_thread_group lookup_failed :
      Reason
  unsupported : ℕ → Reason

pub data PermissionResult : Type 0 where
  allowed : PermissionResult
  denied : Reason → PermissionResult

abbrev pub thread_sep : Text
thread_sep = lit "____"

-- {m.uid for m in members if m.uid}
abbrev pub member_uids : List GroupMember → List Text
member_uids [] = []
member_uids (m ∷ ms) = if nonempty m.uid then m.uid ∷ member_uids ms else member_uids ms

-- The coroutine that the caller passes; none is an exception.
abbrev pub Fetcher : Type 0
Fetcher = Text → Option (List GroupMember)

abbrev pub judge : Text → Reason → Option (List GroupMember) → PermissionResult
judge requester reason none = denied lookup_failed
judge requester reason (some members) =
    if text_in requester (member_uids members) then allowed else denied reason

unfoldable pub check_group_membership : Fetcher → Text → Text → Reason → PermissionResult
check_group_membership fetch requester group_no reason = judge requester reason (fetch group_no)

-- `owner_uid and requester_uid == owner_uid`
abbrev pub is_owner : Option Text → Text → Bool
is_owner none requester = false
is_owner (some owner) requester = nonempty owner && text_eq requester owner

-- The checks behind the one for an unknown requester.
unfoldable pub check_requester : Fetcher → Option Text → Text → Text → ℕ → PermissionResult
unfolding check_group_membership
check_requester fetch owner requester channel_id channel_type =
    if is_channel channel_type dm
    then (if is_owner owner requester
        then allowed
        else if text_eq channel_id requester
        then allowed
        else denied not_own_dm)
    else if is_channel channel_type group
    then check_group_membership fetch requester channel_id not_in_group
    else if is_channel channel_type community_topic
    then (let group_no = before_first thread_sep channel_id in
        if nonempty group_no
        then check_group_membership fetch requester group_no not_in_thread_group
        else denied invalid_thread)
    else denied (unsupported channel_type)

unfoldable pub check_permission : Fetcher → Option Text → Option Text → Text → ℕ → PermissionResult
unfolding check_requester
check_permission fetch owner none channel_id channel_type = denied unknown_requester
check_permission fetch owner (some requester) channel_id channel_type =
    if nonempty requester
    then check_requester fetch owner requester channel_id channel_type
    else denied unknown_requester

-- A channel id behind an explicit group prefix.
abbrev pub group_or_thread : Text → Text × ChannelType
group_or_thread channel_id =
    (channel_id, if contains thread_sep channel_id then community_topic else group)

abbrev pub bare_target : List Text → Text → Text × ChannelType
bare_target known bare =
    if contains thread_sep bare
    then (bare, community_topic)
    else (bare, if text_in bare known then group else dm)

-- A missing set of known groups is the empty one.
unfoldable pub parse_target : List Text → Text → Text × ChannelType
parse_target known target =
    if starts_with target (lit "group:")
    then group_or_thread (strip_prefix (lit "group:") target)
    else if starts_with target (lit "channel:")
    then group_or_thread (strip_prefix (lit "channel:") target)
    else if starts_with target (lit "user:")
    then (strip_prefix (lit "user:") target, dm)
    else if starts_with target (lit "octo:")
    then bare_target known (strip_prefix (lit "octo:") target)
    else bare_target known target
