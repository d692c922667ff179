-- ===== src/Identity/Routes.antt =====
-- `bind` and the lookups of `IdentityRouteRegistry`. A call under the lock is one step. A chat type
-- is one of two by its type here. A missing session key is the empty one, which the source treats
-- alike. The key of a target, a pair in the source, is the id behind a sign for the type.
use hermes_channel_octo.Prelude.{
  ℕ, zero, suc, Bool, true, false, not, ◌&&◌, ◌||◌, Option, none, some, List, [], ◌∷◌, length, all,
  any, leb, ◌==◌, if◌then◌else◌,
}
use hermes_channel_octo.Prelude.Result.{Result, ok, err}
use hermes_channel_octo.Prelude.Text.{Text, text_eq, text_in, nonempty}
use hermes_channel_octo.Prelude.Dict
use hermes_channel_octo.Prelude.Dict.{Dict, put}
use hermes_channel_octo.Types.{dm, group, community_topic, is_channel}

abbrev pub max_persisted_routes : ℕ
max_persisted_routes = 4096

pub data ChatType : Type 0 where
  dm_chat group_chat : ChatType

abbrev pub chat_code : ChatType → ℕ
chat_code dm_chat = 0
chat_code group_chat = 1

abbrev pub target_key : ChatType → Text → Text
target_key chat_type chat_id = chat_code chat_type ∷ chat_id

pub data BindResult : Type 0 where
  bound capacity idempotent conflict : BindResult

pub data BindError : Type 0 where
  invalid_robot_id invalid_chat_id invalid_channel_type invalid_wire_chat_id : BindError

pub record Holder : Type 0 where
  pub chat_type : ChatType
  pub robot_id : Text

pub record Routes : Type 0 where
  pub session_routes : Dict Text
  pub target_routes : Dict Text
  pub session_conflicts : List Text
  pub target_conflicts : List Text
  pub chat_index : Dict (List Holder)
  pub target_sessions : Dict (List Text)
  pub target_channel_types : Dict ℕ
  pub target_wire_ids : Dict Text
  pub dirty : Bool

abbrev pub new_routes : Routes
new_routes = record {
  session_routes = [];
  target_routes = [];
  session_conflicts = [];
  target_conflicts = [];
  chat_index = [];
  target_sessions = [];
  target_channel_types = [];
  target_wire_ids = [];
  dirty = false;
}

pub record BindCall : Type 0 where
  pub robot_id : Text
  pub session_key : Text
  pub chat_type : ChatType
  pub chat_id : Text
  pub channel_type : ℕ
  pub wire_chat_id : Option Text
  pub wire_chat_id_known : Bool

-- [A-Za-z0-9_@:-], and a dot for a robot id.
abbrev pub is_wire_char : ℕ → Bool
is_wire_char c =
    (leb 65 c && leb c 90)
    || (leb 97 c && leb c 122)
    || (leb 48 c && leb c 57)
    || c == 95
    || c == 64
    || c == 58
    || c == 45

abbrev pub valid_wire_id : Text → Bool
valid_wire_id s = nonempty s && leb (length s) 128 && all is_wire_char s

abbrev pub valid_robot_id : Text → Bool
valid_robot_id s = nonempty s && leb (length s) 128 && all (λ c. is_wire_char c || c == 46) s

abbrev pub valid_channel_type : ℕ → Bool
valid_channel_type n = is_channel n dm || is_channel n group || is_channel n community_topic

abbrev pub or_empty {ℓ} : {A : Type ℓ} → Option (List A) → List A
or_empty none = []
or_empty (some xs) = xs

abbrev pub add_text : Text → List Text → List Text
add_text s ts = if text_in s ts then ts else s ∷ ts

abbrev pub add_all : List Text → List Text → List Text
add_all [] ts = ts
add_all (s ∷ ss) ts = add_text s (add_all ss ts)

abbrev pub has_holder : Holder → List Holder → Bool
has_holder h hs =
    any (λ x. chat_code x.chat_type == chat_code h.chat_type && text_eq x.robot_id h.robot_id) hs

abbrev pub add_holder : Holder → List Holder → List Holder
add_holder h hs = if has_holder h hs then hs else h ∷ hs

abbrev pub is_some {ℓ} : {A : Type ℓ} → Option A → Bool
is_some none = false
is_some (some _) = true

-- `existing is not None and existing != other`
abbrev pub is_other : Option Text → Text → Bool
is_other none other = false
is_other (some existing) other = not (text_eq existing other)

abbrev pub wire_differs : Option Text → Option Text → Bool
wire_differs existing none = false
wire_differs existing (some wire) = is_other existing wire

-- The target and every session that was bound with it become conflicts.
unfoldable pub conflict_target : Text → Routes → Routes
conflict_target target r = record r {
  target_conflicts = add_text target r.target_conflicts;
  session_conflicts = add_all (or_empty (Dict.get r.target_sessions target)) r.session_conflicts;
  dirty = true;
}

unfoldable pub conflict_session : Text → Routes → Routes
conflict_session session r = record r {
  session_conflicts = add_text session r.session_conflicts;
  dirty = true;
}

-- What a binding writes about the wire.
unfoldable pub set_wire : Text → ℕ → Option Text → Routes → Routes
set_wire target channel_type none r = record r {
  target_channel_types = put r.target_channel_types target channel_type;
}
set_wire target channel_type (some wire) r = record r {
  target_channel_types = put r.target_channel_types target channel_type;
  target_wire_ids = put r.target_wire_ids target wire;
}

abbrev pub without : Text → List Text → List Text
without s [] = []
without s (t ∷ ts) = let rest = without s ts in if text_eq t s then rest else t ∷ rest

abbrev pub discard_session : Text → Dict (List Text) → Dict (List Text)
discard_session victim [] = []
discard_session victim ((k, sessions) ∷ d) = (k, without victim sessions) ∷ discard_session victim d

unfoldable pub evict_oldest_session : Routes → Routes
evict_oldest_session r = elim r.session_routes [
  | [] ↦ r
  | (victim, _) ∷ _ ↦ record r {
    session_routes = Dict.pop r.session_routes victim;
    target_sessions = discard_session victim r.target_sessions;
  }
]

-- Each round takes a session out, so their number is fuel enough.
unfoldable pub evict_sessions : ℕ → Routes → Routes
evict_sessions zero r = r
evict_sessions (suc fuel) r =
    let more = evict_sessions fuel (evict_oldest_session r) in
    if leb max_persisted_routes (length r.session_routes) then more else r

-- The claim of a target that nobody has.
unfoldable pub claim_target : Text → BindCall → Option Text → Routes → Routes
claim_target target c (some owner) r = r
claim_target target c none r =
    let holders = or_empty (Dict.get r.chat_index c.chat_id) in
    let holder : Holder = record { chat_type = c.chat_type; robot_id = c.robot_id } in
    record r {
      target_routes = put r.target_routes target c.robot_id;
      chat_index = put r.chat_index c.chat_id (add_holder holder holders);
    }

unfoldable pub claim_session : Text → BindCall → Routes → Routes
unfolding evict_sessions
claim_session target c r =
    if nonempty c.session_key
    then (let r' = evict_sessions (length r.session_routes) r in
        record r' {
          session_routes = put r'.session_routes c.session_key c.robot_id;
          target_sessions =
              put r'.target_sessions target
                (add_text c.session_key (or_empty (Dict.get r'.target_sessions target)));
        })
    else r

abbrev pub set_dirty : Routes → Routes
set_dirty r = record r { dirty = true }

-- `bind` once it is known who has the session, the target and its wire id.
unfoldable pub bind_known :
    Text
    → BindCall
    → Option Text
    → Option Text
    → Option Text
    → Option Text
    → Routes
    → BindResult × Routes
bind_known target c wire session_owner target_owner existing_wire r =
    let fillable = is_some wire && not (is_some existing_wire) in
    if is_other session_owner c.robot_id
    then (
      conflict,
      (if is_other target_owner c.robot_id
          then conflict_target target (conflict_session c.session_key r)
          else conflict_session c.session_key r),
    )
    else if is_other target_owner c.robot_id
    then (conflict, conflict_target target r)
    else if is_some target_owner && wire_differs existing_wire wire
    then (conflict, conflict_target target r)
    else if is_some target_owner && (not (nonempty c.session_key) || is_some session_owner)
    then (if fillable
        then (bound, set_dirty (set_wire target c.channel_type wire r))
        else (idempotent, r))
    else if not (is_some target_owner) && leb max_persisted_routes (length r.target_routes)
    then (capacity, r)
    else (
      bound,
      set_dirty (
          claim_session target c
            (set_wire target c.channel_type wire (claim_target target c target_owner r))),
    )

abbrev pub session_owner_of : Text → Routes → Option Text
session_owner_of session r = if nonempty session then Dict.get r.session_routes session else none

unfoldable pub bind_locked : BindCall → Option Text → Routes → BindResult × Routes
bind_locked c wire r =
    let target = target_key c.chat_type c.chat_id in
    if nonempty c.session_key && text_in c.session_key r.session_conflicts
    then (conflict, r)
    else if text_in target r.target_conflicts
    then (conflict, r)
    else bind_known target c wire (session_owner_of c.session_key r)
        (Dict.get r.target_routes target) (Dict.get r.target_wire_ids target) r

-- `(chat_id if wire_chat_id is None else wire_chat_id) if wire_chat_id_known else None`
abbrev pub wire_target : BindCall → Option Text
wire_target c =
    if c.wire_chat_id_known
    then (elim c.wire_chat_id [ none ↦ some c.chat_id | some w ↦ some w ])
    else none

abbrev pub wire_is_valid : Option Text → Bool
wire_is_valid none = true
wire_is_valid (some wire) = valid_wire_id wire

abbrev pub returned : BindResult × Routes → Result BindError BindResult × Routes
returned (result, r) = (ok result, r)

unfoldable pub bind : BindCall → Routes → Result BindError BindResult × Routes
bind c r =
    if not (valid_robot_id c.robot_id)
    then (err invalid_robot_id, r)
    else if not (nonempty c.chat_id)
    then (err invalid_chat_id, r)
    else if not (valid_channel_type c.channel_type)
    then (err invalid_channel_type, r)
    else if not (wire_is_valid (wire_target c))
    then (err invalid_wire_chat_id, r)
    else returned (bind_locked c (wire_target c) r)

unfoldable pub robot_id_for_session : Text → Routes → Option Text
robot_id_for_session session r =
    if not (nonempty session)
    then none
    else if text_in session r.session_conflicts
    then none
    else Dict.get r.session_routes session

unfoldable pub robot_id_for_target : ChatType → Text → Routes → Option Text
robot_id_for_target chat_type chat_id r =
    let key = target_key chat_type chat_id in
    if text_in key r.target_conflicts then none else Dict.get r.target_routes key

unfoldable pub bind_all : List BindCall → Routes → Routes
bind_all [] r = r
bind_all (c ∷ cs) r = bind_all cs (bind c r).1
