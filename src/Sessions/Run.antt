-- ===== src/Sessions/Run.antt =====
-- The registry under any sequence of calls: each call is one step under the lock.
pub mod Claiming
pub mod Invariant
pub mod Limits
use hermes_channel_octo.Prelude.{
  ℕ, zero, suc, ◌+◌, ◌-◌, ◌≤◌, ◌<◌, ◌≡◌, refl, inl, inr, Bool, true, false, not, ◌&&◌, Option, none,
  some, List, [], ◌∷◌, ◌++◌, length, length-append, arith, ltb, leb, if◌then◌else◌, Bool-cases,
  Option-cases,
}
use hermes_channel_octo.Prelude.Result.{Result, ok, err}
use hermes_channel_octo.Prelude.Text.{Text, text_eq, text_eq_refl}
use hermes_channel_octo.Prelude.Dict
use hermes_channel_octo.Prelude.Dict.{Dict, put, get-pop, length-pop, length-put}
use hermes_channel_octo.Prelude.Dict.Unique.{
  IsUnique, pop-IsUnique, put-IsUnique, concat-IsUnique, length-pop_present,
}
use hermes_channel_octo.Types.{ChannelType}
use hermes_channel_octo.Sessions.Data.{
  CardSession, Entry, Claimant, event, edit, missing, Binding, is_pending, entry_from_record,
  bounded_message_id,
}
use hermes_channel_octo.Sessions.Registry.{
  Registry, RegistryError, Env, Exec, persist, prune_locked, entry_locked, make_room, is_active,
  fresh_entry, register_pruned, register, peek, discard, returning, refreshed, refresh_entry,
  refresh_reasoning, clear, restore_from, restore, new_registry, set_persistence,
  attach_persistence,
}
use hermes_channel_octo.Sessions.Claims.{
  or_roll_back, claim_entry, claim, claim_edit_entry, claim_edit, on_entry, edit_matches,
  next_seq_entry, next_card_seq, holds, settle, release, complete,
}
use hermes_channel_octo.Sessions.Valid.{
  IsValid, prune-IsValid, persist-IsValid, pop-IsValid, put-IsValid, modify-IsValid,
  entry_locked-cases, make_room-MadeRoom,
}

pub data Op : Type 0 where
  register_op refresh_op : CardSession → Op
  peek_op discard_op next_card_seq_op : Text → Op
  claim_op complete_op : Text → ℕ → Op
  claim_edit_op : Text → Text → Text → ChannelType → Text → Op
  release_op : Text → Claimant → Op
  clear_op restore_op : Op
  set_persistence_op : Option (List Binding) → Op
  attach_persistence_op : List Binding → Op

-- The registry that a call leaves, whether it returns or raises.
unfoldable pub run : Env → Op → Registry → Registry
run env (register_op s) r = (register env s r).1
run env (refresh_op s) r = (refresh_reasoning env s r).1
run env (peek_op id) r = (peek env id r).1
run env (discard_op id) r = (discard env id r).1
run env (next_card_seq_op id) r = (next_card_seq env id r).1
run env (claim_op id n) r = (claim env id n r).1
run env (complete_op id n) r = (complete env id n r).1
run env (claim_edit_op id key channel type uid) r = (claim_edit env id key channel type uid r).1
run env (release_op id c) r = (release env id c r).1
run env clear_op r = (clear env r).1
run env restore_op r = restore env r
run env (set_persistence_op p) r = set_persistence p r
run env (attach_persistence_op bs) r = attach_persistence env bs r

unfoldable pub run_all : List (Env × Op) → Registry → Registry
run_all [] r = r
run_all ((env, op) ∷ rest) r = run_all rest (run env op r)
