-- ===== src/Identity/Owners.antt =====
-- The owners of targets in `IdentityRouteRegistry`, and their conflicts, over calls of `bind`.
use hermes_channel_octo.Prelude.{
  ℕ, zero, suc, ◌≡◌, ◌≢◌, refl, ◌⊎◌, inl, inr, true, false, not, ◌&&◌, ◌||◌, Option, none, some,
  List, [], ◌∷◌, length, leb, arith, Bool-cases,
}
use hermes_channel_octo.Prelude.Result.{ok}
use hermes_channel_octo.Prelude.Text.{Text, text_eq, text_eq_iff, text_eq_refl, text_in, nonempty}
use hermes_channel_octo.Prelude.Dict
use hermes_channel_octo.Prelude.Dict.{Dict, put, get-put, length-put}
use hermes_channel_octo.Identity.Routes.{
  Routes, BindCall, BindResult, conflict, ChatType, target_key, is_other, is_some, wire_differs,
  wire_target, wire_is_valid, valid_robot_id, valid_channel_type, conflict_target, conflict_session,
  set_wire, set_dirty, evict_oldest_session, evict_sessions, claim_target, claim_session,
  bind_known, bind_locked, session_owner_of, returned, bind, bind_all, robot_id_for_target,
  max_persisted_routes,
}

-- Every target keeps its owner, and every conflict stays one.
pub record Extends (r r' : Routes) : Type 0 where
  pub owners :
      (k a : Text) → Dict.get r.target_routes k ≡ some a → Dict.get r'.target_routes k ≡ some a
  pub refused :
      (k : Text) → text_in k r.target_conflicts ≡ true → text_in k r'.target_conflicts ≡ true

Extends-refl : (r : Routes) → Extends r r
Extends-refl r = record { owners = λ k a h. h; refused = λ k h. h }

Extends-trans : {a b c : Routes} → Extends a b → Extends b c → Extends a c
Extends-trans ab bc = record {
  owners = λ k o h. bc.owners k o (ab.owners k o h);
  refused = λ k h. bc.refused k (ab.refused k h);
}

Extends-same :
    (r r' : Routes)
    → r.target_routes ≡ r'.target_routes
    → r.target_conflicts ≡ r'.target_conflicts
    → Extends r r'
Extends-same r r' e f = record { owners = λ k a h. rw (← e) h; refused = λ k h. rw (← f) h }

conflict_target-Extends : (target : Text) (r : Routes) → Extends r (conflict_target target r)
unfolding conflict_target text_in
conflict_target-Extends target r = record { owners = λ k a h. h; refused = λ k h. ground arith }

conflict_session-Extends : (session : Text) (r : Routes) → Extends r (conflict_session session r)
unfolding conflict_session
conflict_session-Extends session r = Extends-same r (conflict_session session r) refl refl

set_wire-Extends :
    (target : Text) (n : ℕ) (wire : Option Text) (r : Routes) → Extends r (set_wire target n wire r)
unfolding set_wire
set_wire-Extends target n none r = Extends-same r (set_wire target n none r) refl refl
set_wire-Extends target n (some w) r = Extends-same r (set_wire target n (some w) r) refl refl

evict_oldest_session-same :
    (r : Routes)
    → (r.target_routes ≡ (evict_oldest_session r).target_routes)
      × (r.target_conflicts ≡ (evict_oldest_session r).target_conflicts)
unfolding evict_oldest_session
evict_oldest_session-same r = ground arith

evict_sessions-Extends : (fuel : ℕ) (r : Routes) → Extends r (evict_sessions fuel r)
unfolding evict_sessions
evict_sessions-Extends zero r = Extends-refl r
evict_sessions-Extends (suc fuel) r =
    let one = evict_oldest_session-same r in
    let more =
      Extends-trans (Extends-same r (evict_oldest_session r) one.0 one.1)
        (evict_sessions-Extends fuel (evict_oldest_session r)) in
    elim (Bool-cases (leb max_persisted_routes (length r.session_routes))) [
      | inl t ↦ rw t more
      | inr t ↦ rw t (Extends-refl r)
    ]

claim_target-Extends :
    (target : Text) (c : BindCall) (owner : Option Text) (r : Routes)
    → Dict.get r.target_routes target ≡ owner
    → Extends r (claim_target target c owner r)
unfolding claim_target
claim_target-Extends target c (some o) r h = Extends-refl r
claim_target-Extends target c none r h = record {
  owners = λ k a e. elim (Bool-cases (text_eq target k)) [
    | inl t ↦
        let same = (text_eq_iff target k).0 t in
        absurd (let got : Dict.get r.target_routes k ≡ none = rw (← same) h in ground arith)
    | inr t ↦ rw (get-put r.target_routes target k c.robot_id, t) e
  ];
  refused = λ k e. e;
}

claim_session-Extends :
    (target : Text) (c : BindCall) (r : Routes) → Extends r (claim_session target c r)
unfolding claim_session
claim_session-Extends target c r = elim (Bool-cases (nonempty c.session_key)) [
  | inl t ↦ rw t (
      Extends-trans (evict_sessions-Extends (length r.session_routes) r)
        (Extends-same _ _ refl refl))
  | inr t ↦ rw t (Extends-refl r)
]

dirty-Extends : {r r' : Routes} → Extends r r' → Extends r (set_dirty r')
dirty-Extends h = record { owners = h.owners; refused = h.refused }

bind_known-Extends :
    (target : Text) (c : BindCall) (wire session_owner target_owner existing_wire : Option Text)
    (r : Routes)
    → Dict.get r.target_routes target ≡ target_owner
    → Extends r (bind_known target c wire session_owner target_owner existing_wire r).1
unfolding bind_known
bind_known-Extends target c wire session_owner target_owner existing_wire r h =
    let by_session = conflict_session-Extends c.session_key r in
    let by_target = conflict_target-Extends target r in
    let both =
      Extends-trans by_session
        (conflict_target-Extends target (conflict_session c.session_key r)) in
    let claimed = claim_target-Extends target c target_owner r h in
    let wired = Extends-trans claimed (set_wire-Extends target c.channel_type wire _) in
    let filled = dirty-Extends (set_wire-Extends target c.channel_type wire r) in
    let bound_now = dirty-Extends (Extends-trans wired (claim_session-Extends target c _)) in
    let fillable = is_some wire && not (is_some existing_wire) in
    elim (Bool-cases (is_other session_owner c.robot_id)) [
      | inl t1 ↦ elim (Bool-cases (is_other target_owner c.robot_id)) [
        | inl t2 ↦ rw (t1, t2) both
        | inr t2 ↦ rw (t1, t2) by_session
      ]
      | inr t1 ↦ elim (Bool-cases (is_other target_owner c.robot_id)) [
        | inl t2 ↦ rw (t1, t2) by_target
        | inr t2 ↦ elim (Bool-cases (is_some target_owner && wire_differs existing_wire wire)) [
          | inl t3 ↦ rw (t1, t2, t3) by_target
          | inr t3 ↦
              elim (Bool-cases
                (is_some target_owner && (not (nonempty c.session_key) || is_some session_owner))) [
                  | inl t4 ↦ elim (Bool-cases fillable) [
                    | inl t5 ↦ rw (t1, t2, t3, t4, t5) filled
                    | inr t5 ↦ rw (t1, t2, t3, t4, t5) (Extends-refl r)
                  ]
                  | inr t4 ↦
                      elim (Bool-cases (
                        not (is_some target_owner)
                        && leb max_persisted_routes (length r.target_routes))) [
                          | inl t5 ↦ rw (t1, t2, t3, t4, t5) (Extends-refl r)
                          | inr t5 ↦ rw (t1, t2, t3, t4, t5) bound_now
                        ]
                ]
        ]
      ]
    ]

-- The last test of `bind`, on what the registry knows of the keys.
abbrev pub known : BindCall → Routes → BindResult × Routes
known c r =
    bind_known (target_key c.chat_type c.chat_id) c (wire_target c)
      (session_owner_of c.session_key r)
      (Dict.get r.target_routes (target_key c.chat_type c.chat_id))
      (Dict.get r.target_wire_ids (target_key c.chat_type c.chat_id)) r

pub bind_cases : (c : BindCall) (r : Routes) → ((bind c r).1 ≡ r) ⊎ ((bind c r).1 ≡ (known c r).1)
unfolding bind bind_locked
bind_cases c r = ground arith

-- A call of `bind` takes no target from its owner, and clears no conflict.
bind-Extends : (c : BindCall) (r : Routes) → Extends r (bind c r).1
bind-Extends c r = elim (bind_cases c r) [
  | inl e ↦ rw e (Extends-refl r)
  | inr e ↦ rw e (bind_known-Extends _ c (wire_target c) _ _ _ r refl)
]

bind_all-Extends : (cs : List BindCall) (r : Routes) → Extends r (bind_all cs r)
unfolding bind_all
bind_all-Extends [] r = Extends-refl r
bind_all-Extends (c ∷ cs) r = Extends-trans (bind-Extends c r) (bind_all-Extends cs (bind c r).1)

-- Whatever calls of `bind` follow, a target that one bot serves is served by that bot or by none.
pub owner_is_stable :
    (cs : List BindCall) (r : Routes) (chat_type : ChatType) (chat_id a : Text)
    → robot_id_for_target chat_type chat_id r ≡ some a
    → (robot_id_for_target chat_type chat_id (bind_all cs r) ≡ some a)
      ⊎ (robot_id_for_target chat_type chat_id (bind_all cs r) ≡ none)
unfolding robot_id_for_target
owner_is_stable cs r chat_type chat_id a h =
    let later = bind_all-Extends cs r in
    ground (arith, later.owners (target_key chat_type chat_id) a)

-- A call that would pass every check of its arguments.
abbrev pub IsWellFormed : BindCall → Type 0
IsWellFormed c =
    (valid_robot_id c.robot_id ≡ true)
    × (nonempty c.chat_id ≡ true)
    × (valid_channel_type c.channel_type ≡ true)
    × (wire_is_valid (wire_target c) ≡ true)

bind-known :
    (c : BindCall) (r : Routes)
    → IsWellFormed c
    → text_in c.session_key r.session_conflicts ≡ false
    → text_in (target_key c.chat_type c.chat_id) r.target_conflicts ≡ false
    → bind c r ≡ returned (known c r)
unfolding bind bind_locked
bind-known c r (w1, w2, w3, w4) s t = rw (w1, w2, w3, w4, s, t) (ground arith)

conflict_target-refused :
    (target : Text) (r : Routes) → text_in target (conflict_target target r).target_conflicts ≡ true
unfolding conflict_target text_in
conflict_target-refused target r = ground (arith, text_eq_refl target)

bind_known_other :
    (target : Text) (c : BindCall) (wire session_owner target_owner existing_wire : Option Text)
    (r : Routes)
    → is_other target_owner c.robot_id ≡ true
    → ((bind_known target c wire session_owner target_owner existing_wire r).0 ≡ conflict)
      × (text_in target
            (bind_known target c wire session_owner target_owner existing_wire r).1.target_conflicts
          ≡ true)
unfolding bind_known
bind_known_other target c wire session_owner target_owner existing_wire r h =
    elim (Bool-cases (is_other session_owner c.robot_id)) [
      | inl t ↦ rw (t, h) (refl, conflict_target-refused target (conflict_session c.session_key r))
      | inr t ↦ rw (t, h) (refl, conflict_target-refused target r)
    ]

served :
    (r : Routes) (chat_type : ChatType) (chat_id a : Text)
    → robot_id_for_target chat_type chat_id r ≡ some a
    → (text_in (target_key chat_type chat_id) r.target_conflicts ≡ false)
      × (Dict.get r.target_routes (target_key chat_type chat_id) ≡ some a)
unfolding robot_id_for_target
served r chat_type chat_id a h = ground arith

refused_for_good :
    (cs : List BindCall) (r : Routes) (chat_type : ChatType) (chat_id : Text)
    → text_in (target_key chat_type chat_id) r.target_conflicts ≡ true
    → robot_id_for_target chat_type chat_id (bind_all cs r) ≡ none
unfolding robot_id_for_target
refused_for_good cs r chat_type chat_id h =
    rw ((bind_all-Extends cs r).refused (target_key chat_type chat_id) h)

-- A well-formed call by which a second bot claims a target that another serves, with a session in
-- no conflict, is refused, and from then on nobody serves the target, whatever calls of `bind`
-- follow.
pub contested_is_refused :
    (c : BindCall) (cs : List BindCall) (r : Routes) (a : Text)
    → IsWellFormed c
    → text_in c.session_key r.session_conflicts ≡ false
    → robot_id_for_target c.chat_type c.chat_id r ≡ some a
    → a ≢ c.robot_id
    → ((bind c r).0 ≡ ok conflict)
      × (robot_id_for_target c.chat_type c.chat_id (bind_all cs (bind c r).1) ≡ none)
contested_is_refused c cs r a w s h ne =
    let (free, owned) = served r c.chat_type c.chat_id a h in
    let other : is_other (Dict.get r.target_routes (target_key c.chat_type c.chat_id)) c.robot_id
        ≡ true =
      rw owned (ground (arith, text_eq_iff a c.robot_id, ne)) in
    let (out, refused) =
      bind_known_other (target_key c.chat_type c.chat_id) c (wire_target c)
        (session_owner_of c.session_key r)
        (Dict.get r.target_routes (target_key c.chat_type c.chat_id))
        (Dict.get r.target_wire_ids (target_key c.chat_type c.chat_id)) r other in
    rw (bind-known c r w s free)
      (rw out refl, refused_for_good cs (known c r).1 c.chat_type c.chat_id refused)
