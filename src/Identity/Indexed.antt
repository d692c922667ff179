-- ===== src/Identity/Indexed.antt =====
-- The index of `IdentityRouteRegistry` by chat ids, set against its routes.
use hermes_channel_octo.Prelude.{
  ℕ, zero, suc, ◌≡◌, refl, true, not, ◌&&◌, ◌||◌, ◌⊎◌, inl, inr, Option, none, some, List, [], ◌∷◌,
  length, leb, arith, Bool-cases,
}
use hermes_channel_octo.Prelude.Text.{Text, text_eq, text_eq_iff, text_eq_refl, nonempty}
use hermes_channel_octo.Prelude.Dict
use hermes_channel_octo.Prelude.Dict.{put, get-put}
use hermes_channel_octo.Identity.Routes.{
  Routes, chat_code, target_key, Holder, BindCall, new_routes, or_empty, has_holder, add_holder,
  max_persisted_routes, is_other, is_some, wire_differs, conflict_target, conflict_session,
  set_wire, set_dirty, evict_oldest_session, evict_sessions, claim_target, claim_session,
  bind_known, wire_target, bind, bind_all, robot_id_for_target,
}
use hermes_channel_octo.Identity.Owners.{bind_cases}
use hermes_channel_octo.Identity.Lookup.{TargetLookup, lookup_in, lookup_chat_id}

-- Every holder in the index has the target.
record IsIndexed (r : Routes) : Type 0 where
  indexed :
      (id : Text) (h : Holder)
      → has_holder h (or_empty (Dict.get r.chat_index id)) ≡ true
      → Dict.get r.target_routes (target_key h.chat_type id) ≡ some h.robot_id

IsIndexed-same :
    (r r' : Routes)
    → r.target_routes ≡ r'.target_routes
    → r.chat_index ≡ r'.chat_index
    → IsIndexed r
    → IsIndexed r'
IsIndexed-same r r' e f i = record { indexed = λ id h k. rw (← e) (i.indexed id h (rw (← f) at k)) }

has-add_holder :
    (h x : Holder) (hs : List Holder)
    → has_holder h (add_holder x hs) ≡ true
    → ((chat_code x.chat_type ≡ chat_code h.chat_type) × (x.robot_id ≡ h.robot_id))
      ⊎ (has_holder h hs ≡ true)
has-add_holder h x hs k = ground (arith, text_eq_iff x.robot_id h.robot_id)

put_here :
    (r : Routes) (target key a : Text)
    → target ≡ key
    → Dict.get (put r.target_routes target a) key ≡ some a
put_here r target key a e =
    let t : text_eq target key ≡ true = (text_eq_iff target key).1 e in
    rw (get-put r.target_routes target key a, t)

put_elsewhere :
    (r : Routes) (target key a b : Text)
    → Dict.get r.target_routes target ≡ none
    → Dict.get r.target_routes key ≡ some b
    → Dict.get (put r.target_routes target a) key ≡ some b
put_elsewhere r target key a b e f = elim (Bool-cases (text_eq target key)) [
  | inl t ↦
      let same = (text_eq_iff target key).0 t in
      absurd (let none_here : Dict.get r.target_routes key ≡ none = rw (← same) e in ground arith)
  | inr t ↦ rw (get-put r.target_routes target key a, t) f
]

claim_target-IsIndexed :
    (c : BindCall) (owner : Option Text) (r : Routes)
    → Dict.get r.target_routes (target_key c.chat_type c.chat_id) ≡ owner
    → IsIndexed r
    → IsIndexed (claim_target (target_key c.chat_type c.chat_id) c owner r)
unfolding claim_target
claim_target-IsIndexed c (some o) r e i = i
claim_target-IsIndexed c none r e i =
    let target = target_key c.chat_type c.chat_id in
    let holders = or_empty (Dict.get r.chat_index c.chat_id) in
    let holder : Holder = record { chat_type = c.chat_type; robot_id = c.robot_id } in
    record {
      indexed = λ id h k. elim (Bool-cases (text_eq c.chat_id id)) [
        | inl t ↦
            let same = (text_eq_iff c.chat_id id).0 t in
            elim (has-add_holder h holder holders (rw (get-put, t) at k)) [
              | inl (code, robot) ↦
                  let keys : target ≡ target_key h.chat_type id = cc in
                  rw (put_here r target (target_key h.chat_type id) c.robot_id keys, robot)
              | inr old ↦
                  put_elsewhere r target (target_key h.chat_type id) c.robot_id h.robot_id e
                    (i.indexed id h (rw same at old))
            ]
        | inr t ↦
            put_elsewhere r target (target_key h.chat_type id) c.robot_id h.robot_id e
              (i.indexed id h (rw (get-put, t) at k))
      ];
    }

evict_oldest_session-index :
    (r : Routes)
    → (r.target_routes ≡ (evict_oldest_session r).target_routes)
      × (r.chat_index ≡ (evict_oldest_session r).chat_index)
unfolding evict_oldest_session
evict_oldest_session-index r = ground arith

evict_oldest_session-IsIndexed : (r : Routes) → IsIndexed r → IsIndexed (evict_oldest_session r)
evict_oldest_session-IsIndexed r i =
    let (routes, index) = evict_oldest_session-index r in
    IsIndexed-same r (evict_oldest_session r) routes index i

evict_sessions-IsIndexed : (fuel : ℕ) (r : Routes) → IsIndexed r → IsIndexed (evict_sessions fuel r)
unfolding evict_sessions
evict_sessions-IsIndexed zero r i = i
evict_sessions-IsIndexed (suc fuel) r i =
    let more =
      evict_sessions-IsIndexed fuel (evict_oldest_session r) (evict_oldest_session-IsIndexed r i) in
    elim (Bool-cases (leb max_persisted_routes (length r.session_routes))) [
      | inl t ↦ rw t more
      | inr t ↦ rw t i
    ]

claim_session-IsIndexed :
    (target : Text) (c : BindCall) (r : Routes) → IsIndexed r → IsIndexed (claim_session target c r)
unfolding claim_session
claim_session-IsIndexed target c r i = elim (Bool-cases (nonempty c.session_key)) [
  | inl t ↦
      rw t (IsIndexed-same _ _ refl refl (evict_sessions-IsIndexed (length r.session_routes) r i))
  | inr t ↦ rw t i
]

set_wire-IsIndexed :
    (target : Text) (n : ℕ) (wire : Option Text) (r : Routes)
    → IsIndexed r
    → IsIndexed (set_wire target n wire r)
unfolding set_wire
set_wire-IsIndexed target n none r i = IsIndexed-same r _ refl refl i
set_wire-IsIndexed target n (some w) r i = IsIndexed-same r _ refl refl i

conflict-IsIndexed :
    (target session : Text) (r : Routes)
    → IsIndexed r
    → IsIndexed (conflict_target target r)
      × IsIndexed (conflict_session session r)
      × IsIndexed (conflict_target target (conflict_session session r))
unfolding conflict_target conflict_session
conflict-IsIndexed target session r i =
    (IsIndexed-same r _ refl refl i, IsIndexed-same r _ refl refl i, IsIndexed-same r _ refl refl i)

bind_known-IsIndexed :
    (c : BindCall) (wire session_owner target_owner existing_wire : Option Text) (r : Routes)
    → Dict.get r.target_routes (target_key c.chat_type c.chat_id) ≡ target_owner
    → IsIndexed r
    → IsIndexed
        (bind_known
          (target_key c.chat_type c.chat_id)
          c
          wire
          session_owner
          target_owner
          existing_wire
          r).1
unfolding bind_known
bind_known-IsIndexed c wire session_owner target_owner existing_wire r h i =
    let target = target_key c.chat_type c.chat_id in
    let (by_target, by_session, twice) = conflict-IsIndexed target c.session_key r i in
    let filled =
      IsIndexed-same _ (set_dirty (set_wire target c.channel_type wire r)) refl refl
        (set_wire-IsIndexed target c.channel_type wire r i) in
    let claimed = claim_target-IsIndexed c target_owner r h i in
    let bound_now =
      IsIndexed-same _
        (set_dirty (
          claim_session target c
            (set_wire target c.channel_type wire (claim_target target c target_owner r))))
        refl refl
        (claim_session-IsIndexed target c _
          (set_wire-IsIndexed target c.channel_type wire _ claimed)) in
    elim (Bool-cases (is_other session_owner c.robot_id)) [
      | inl t1 ↦ elim (Bool-cases (is_other target_owner c.robot_id)) [
        | inl t2 ↦ rw (t1, t2) twice
        | inr t2 ↦ rw (t1, t2) by_session
      ]
      | inr t1 ↦ elim (Bool-cases (is_other target_owner c.robot_id)) [
        | inl t2 ↦ rw (t1, t2) by_target
        | inr t2 ↦ elim (Bool-cases (is_some target_owner && wire_differs existing_wire wire)) [
          | inl t3 ↦ rw (t1, t2, t3) by_target
          | inr t3 ↦
              elim (Bool-cases
                (is_some target_owner && (not (nonempty c.session_key) || is_some session_owner))) [
                  | inl t4 ↦ elim (Bool-cases (is_some wire && not (is_some existing_wire))) [
                    | inl t5 ↦ rw (t1, t2, t3, t4, t5) filled
                    | inr t5 ↦ rw (t1, t2, t3, t4, t5) i
                  ]
                  | inr t4 ↦
                      elim (Bool-cases (
                        not (is_some target_owner)
                        && leb max_persisted_routes (length r.target_routes))) [
                          | inl t5 ↦ rw (t1, t2, t3, t4, t5) i
                          | inr t5 ↦ rw (t1, t2, t3, t4, t5) bound_now
                        ]
                ]
        ]
      ]
    ]

bind-IsIndexed : (c : BindCall) (r : Routes) → IsIndexed r → IsIndexed (bind c r).1
bind-IsIndexed c r i = elim (bind_cases c r) [
  | inl e ↦ rw e i
  | inr e ↦ rw e (bind_known-IsIndexed c (wire_target c) _ _ _ r refl i)
]

bind_all-IsIndexed : (cs : List BindCall) (r : Routes) → IsIndexed r → IsIndexed (bind_all cs r)
unfolding bind_all
bind_all-IsIndexed [] r i = i
bind_all-IsIndexed (c ∷ cs) r i = bind_all-IsIndexed cs (bind c r).1 (bind-IsIndexed c r i)

new_routes-IsIndexed : IsIndexed new_routes
unfolding Dict.get
new_routes-IsIndexed = record { indexed = λ id h k. absurd (cc) }

lookup_in-owner :
    (hs : List Holder) (id : Text) (r : Routes) (l : TargetLookup)
    → ((h : Holder)
        → has_holder h hs ≡ true
        → Dict.get r.target_routes (target_key h.chat_type id) ≡ some h.robot_id)
    → lookup_in hs id r ≡ some l
    → robot_id_for_target l.chat_type id r ≡ some l.robot_id
unfolding robot_id_for_target
lookup_in-owner [] id r l i e = absurd (cc)
lookup_in-owner (h ∷ k ∷ hs) id r l i e = absurd (cc)
lookup_in-owner (h ∷ []) id r l i e =
    let self : has_holder h (h ∷ []) ≡ true = ground (arith, text_eq_refl h.robot_id) in
    let owned = i h self in ground arith

-- Whatever calls of `bind` the routes have seen since they were empty, a chat that is found by its
-- id alone is answered with the bot that serves the target of that id and of the type in the
-- answer.
pub lookup_chat_id-owner :
    (cs : List BindCall) (id : Text) (l : TargetLookup)
    → lookup_chat_id id (bind_all cs new_routes) ≡ some l
    → robot_id_for_target l.chat_type id (bind_all cs new_routes) ≡ some l.robot_id
unfolding lookup_chat_id
lookup_chat_id-owner cs id l e =
    let r = bind_all cs new_routes in
    let i = bind_all-IsIndexed cs new_routes new_routes-IsIndexed in
    lookup_in-owner (or_empty (Dict.get r.chat_index id)) id r l (i.indexed id) e
