-- ===== src/Permission/Laws.antt =====
-- Which requests check_permission allows, and where parse_target sends a target.
use hermes_channel_octo.Prelude.{
  ℕ, ◌≡◌, ◌≢◌, ◌↔◌, ◌⊎◌, true, false, Option, none, some, inl, inr, Option-cases, List, [], ◌∷◌,
  arith,
}
use hermes_channel_octo.Prelude.Text.{
  Text, lit, text_eq_iff, text_in, starts_with, contains, before_first,
}
use hermes_channel_octo.Types.{dm}
use hermes_channel_octo.Permission.{
  GroupMember, Reason, allowed, not_in_group, not_in_thread_group, Fetcher, is_owner, thread_sep,
  member_uids, check_group_membership, check_permission, parse_target,
}

-- The members of a group, where they can be fetched, and one of them.
abbrev pub IsListed : Text → List GroupMember → Type 0
IsListed uid [] = ⊥
IsListed uid (m ∷ ms) = (m.uid ≡ uid) ⊎ IsListed uid ms

unfoldable pub IsMember : Fetcher → Text → Text → Type 0
IsMember fetch uid group_no = (ms : List GroupMember) × (fetch group_no ≡ some ms) × IsListed uid ms

-- The rules of the module, without its order of tests.
abbrev pub MayRead : Fetcher → Option Text → Text → Text → ℕ → Type 0
MayRead fetch owner uid channel_id channel_type =
    ((channel_type ≡ 1) × ((owner ≡ some uid) ⊎ (channel_id ≡ uid)))
    ⊎ ((channel_type ≡ 2) × IsMember fetch uid channel_id)
    ⊎ ((channel_type ≡ 5)
        × (before_first thread_sep channel_id ≢ [])
        × IsMember fetch uid (before_first thread_sep channel_id))

text_in-IsListed :
    (c : ℕ) (uid : Text) (ms : List GroupMember)
    → (text_in (c ∷ uid) (member_uids ms) ≡ true) ↔ IsListed (c ∷ uid) ms
unfolding text_in
text_in-IsListed c uid [] = (λ h. cc, λ h. absurd h)
text_in-IsListed c uid (m ∷ ms) =
    ground (arith, text_in-IsListed c uid ms, text_eq_iff (c ∷ uid) m.uid)

check_group_membership_iff :
    (fetch : Fetcher) (c : ℕ) (uid group_no : Text) (r : Reason)
    → (check_group_membership fetch (c ∷ uid) group_no r ≡ allowed)
      ↔ IsMember fetch (c ∷ uid) group_no
unfolding check_group_membership IsMember
check_group_membership_iff fetch c uid group_no r = elim (Option-cases (fetch group_no)) [
  | inl e ↦ (λ h. absurd (ground arith), λ m. absurd (ground arith))
  | inr (ms, e) ↦ (
    λ h. (ms, e, (text_in-IsListed c uid ms).0 (ground arith)),
    λ m. rw e (ground (arith, text_in-IsListed c uid ms, text_in-IsListed c uid m.0)),
  )
]

is_owner_iff :
    (owner : Option Text) (c : ℕ) (uid : Text)
    → (is_owner owner (c ∷ uid) ≡ true) ↔ (owner ≡ some (c ∷ uid))
is_owner_iff none c uid = (λ h. absurd (cc), λ h. absurd (cc))
is_owner_iff (some owner) c uid = ground (arith, text_eq_iff (c ∷ uid) owner)

-- A request of a known person passes exactly when the rules of the module allow it: a private
-- channel for the owner or for itself, a group for its members, and a thread for the members of
-- its parent group.
pub check_permission_iff :
    (fetch : Fetcher) (owner : Option Text) (c : ℕ) (uid channel_id : Text) (channel_type : ℕ)
    → (check_permission fetch owner (some (c ∷ uid)) channel_id channel_type ≡ allowed)
      ↔ MayRead fetch owner (c ∷ uid) channel_id channel_type
unfolding check_permission
check_permission_iff fetch owner c uid channel_id channel_type = ground (
  arith,
  check_group_membership_iff fetch c uid channel_id not_in_group,
  check_group_membership_iff fetch c uid (before_first thread_sep channel_id) not_in_thread_group,
  is_owner_iff owner c uid,
  text_eq_iff channel_id (c ∷ uid),
)

-- Where every lookup of members fails, nobody may read anything but a private channel.
pub check_permission-fail :
    (fetch : Fetcher) (owner : Option Text) (uid : Option Text) (channel_id : Text)
    (channel_type : ℕ)
    → ((g : Text) → fetch g ≡ none)
    → channel_type ≢ 1
    → check_permission fetch owner uid channel_id channel_type ≢ allowed
unfolding check_permission
check_permission-fail fetch owner none channel_id channel_type h ne e = cc
check_permission-fail fetch owner (some uid) channel_id channel_type h ne e =
    ground (arith, h channel_id, h (before_first thread_sep channel_id))

-- A target is sent to a private channel only if it says `user:`, or if its id is neither a
-- thread's nor a known group's.
pub parse_target-dm :
    (known : List Text) (target id : Text)
    → parse_target known target ≡ (id, dm)
    → (starts_with target (lit "user:") ≡ true)
      ⊎ ((contains thread_sep id ≡ false) × (text_in id known ≡ false))
unfolding parse_target
parse_target-dm known target id h = ground arith
