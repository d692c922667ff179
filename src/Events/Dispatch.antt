-- ===== src/Events/Dispatch.antt =====
-- `handle_card_action` of card_events.py: the claim of a card, the checks, the dispatch and its
-- bounded retries. The status updates of the card on the screen do not touch the registry and are
-- left out. While the dispatch is awaited other tasks call the registry: `meanwhile` is what they do.
use hermes_channel_octo.Prelude.{
  ℕ, Bool, true, false, not, ◌&&◌, Option, none, some, List, [], ◌∷◌, leb, if◌then◌else◌,
}
use hermes_channel_octo.Prelude.Result.{Result, ok, err}
use hermes_channel_octo.Prelude.Text.{nonempty}
use hermes_channel_octo.Sessions.Data.{CardSession, CardClaim, claimed, ClarifySession, event}
use hermes_channel_octo.Sessions.Registry.{Registry, RegistryError, Env}
use hermes_channel_octo.Sessions.Claims.{claim, release, complete}
use hermes_channel_octo.Sessions.Run.{Op, run_all}
use hermes_channel_octo.Events.Poller.{
  Status, completed, awaiting_text, expired, failed, dead_letter, invalid, ignored,
}
use hermes_channel_octo.Events.Actions.{CardAction, action_matches_session}
use hermes_channel_octo.Clarify.{Reply, flag, named, is_text, selected_choices}

-- How the awaited dispatch ends.
pub data Reaction : Type 0 where
  was_cancelled was_raised : Reaction
  replied : Reply → Reaction

pub data HandlerError : Type 0 where
  registry_error : RegistryError → HandlerError
  cancelled dispatch_raised : HandlerError

-- What one call of the handler meets.
pub record Attempt : Type 0 where
  pub claiming : Env
  pub meanwhile : List (Env × Op)
  pub settling : Env
  pub reaction : Reaction

abbrev pub Handled : Type 0
Handled = Result HandlerError Status × Registry

-- The end of a branch: a release or a completion, which may raise, and then the answer.
abbrev pub ending :
    Result HandlerError Status → Result RegistryError (Unit {0}) × Registry → Handled
ending answer (ok _, r) = (answer, r)
ending answer (err raised, r) = (err (registry_error raised), r)

-- `isinstance(accepted, str)` and the names of a flag.
abbrev pub reply_status : Reply → Status
reply_status (flag true) = completed
reply_status (flag false) = ignored
reply_status (named status) = status

abbrev pub is_terminal : Status → Bool
is_terminal completed = true
is_terminal awaiting_text = true
is_terminal expired = true
is_terminal failed = true
is_terminal _ = false

-- The confirmation of a card with several choices, without a selection.
abbrev pub is_empty_confirm : Option ClarifySession → CardAction → Bool
is_empty_confirm none a = false
is_empty_confirm (some c) a =
    c.multi_select
    && is_text a.action_id c.confirm_action_id
    && not (nonempty (selected_choices c a))

abbrev pub released : Env → CardAction → Result HandlerError Status → Registry → Handled
released env a answer r = ending answer (release env a.message_id (event a.event_id) r)

abbrev pub consumed : Env → CardAction → Status → Registry → Handled
consumed env a answer r = ending (ok answer) (complete env a.message_id a.event_id r)

-- What follows the dispatch. `attempts` is the count that the claim returned.
unfoldable pub after_dispatch : Env → CardAction → ℕ → Reaction → Registry → Handled
after_dispatch env a attempts was_cancelled r = released env a (err cancelled) r
after_dispatch env a attempts was_raised r =
    if leb r.max_dispatch_attempts attempts
    then consumed env a dead_letter r
    else released env a (err dispatch_raised) r
after_dispatch env a attempts (replied reply) r =
    if is_terminal (reply_status reply)
    then consumed env a (reply_status reply) r
    else released env a (ok ignored) r

-- A claimed card. none is a UnicodeError.
abbrev pub handle_claimed :
    Attempt → CardAction → Option Bool → CardSession → ℕ → Registry → Handled
handle_claimed t a none s attempts r = released t.settling a (ok ignored) r
handle_claimed t a (some false) s attempts r = released t.settling a (ok ignored) r
handle_claimed t a (some true) s attempts r =
    if is_empty_confirm s.clarify a
    then released t.settling a (ok invalid) r
    else after_dispatch t.settling a attempts t.reaction (run_all t.meanwhile r)

abbrev pub duplicate_status : Option Bool → Status
duplicate_status (some true) = Status.duplicate
duplicate_status (some false) = ignored
duplicate_status none = ignored

abbrev pub after_claim : Attempt → CardAction → Result RegistryError CardClaim × Registry → Handled
after_claim t a (err raised, r) = (err (registry_error raised), r)
after_claim t a (ok CardClaim.missing, r) = (ok Status.missing, r)
after_claim t a (ok (CardClaim.duplicate s), r) =
    (ok (duplicate_status (action_matches_session a s)), r)
after_claim t a (ok (claimed s n), r) = handle_claimed t a (action_matches_session a s) s n r

unfoldable pub handle_card_action : Attempt → CardAction → Registry → Handled
unfolding after_dispatch
handle_card_action t a r = after_claim t a (claim t.claiming a.message_id a.event_id r)

-- The same event again and again, as the poller does while the handler raises: the answers, in
-- their order.
unfoldable pub handle_each :
    List Attempt → CardAction → Registry → List (Result HandlerError Status) × Registry
unfolding handle_card_action
handle_each [] a r = ([], r)
handle_each (t ∷ ts) a r =
    let (answer, r1) = handle_card_action t a r in
    let (answers, r2) = handle_each ts a r1 in (answer ∷ answers, r2)
