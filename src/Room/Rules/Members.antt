-- ===== src/Room/Rules/Members.antt =====
-- What an authorized membership event tells of the room: `authorizeMembershipEvent`.
use matrix_flare.Prelude.{
  String, some, ok_inj, sym, ◌∙◌, ◌≡◌, ◌⊎◌, ◌↔◌, inl, inr, arith, eq_iff, str_eq, Bool-cases, ok,
  >>=-eq-ok,
}
use matrix_flare.Json.{get, normalize_string}
use matrix_flare.Room.State.{EventTables, StateMap, get_membership, get_join_rule, get_create_event}
use matrix_flare.Room.Power.{get_user_power_level, get_current_power_levels_content}
use matrix_flare.Room.Membership.{
  Candidate, MembershipFacts, decide_membership, gather_facts, authorize_membership_event, allowed,
}
use matrix_flare.Room.Rules.Decisions.{
  MayJoin, MayInvite, MayKnock, MayBan, MayLeave, MayUnban, MayKick, present-ne-ban,
  decide_join_iff, decide_invite_iff, decide_knock_iff, decide_ban_iff, decide_leave_sound,
  decide_leave_complete,
}

-- The rules of the room in one description: which membership may be set when.
abbrev pub Permits : String → MembershipFacts → Type 0
Permits membership f =
    ((membership ≡ "join") × MayJoin f)
    ⊎ ((membership ≡ "invite") × MayInvite f)
    ⊎ ((membership ≡ "knock") × MayKnock f)
    ⊎ ((membership ≡ "ban") × MayBan f)
    ⊎ ((membership ≡ "leave") × (MayLeave f ⊎ MayUnban f ⊎ MayKick f))

Permits-sound : (m : String) (f : MembershipFacts) → decide_membership m f ≡ allowed → Permits m f
unfolding decide_membership
Permits-sound m f h = elim (Bool-cases (str_eq m "join")) [
  | inl e ↦ inl ((eq_iff m _).0 e, (decide_join_iff f).0 (rw e at h))
  | inr a ↦ elim (Bool-cases (str_eq m "invite")) [
    | inl e ↦ inr (inl ((eq_iff m _).0 e, (decide_invite_iff f).0 (rw (a, e) at h)))
    | inr b ↦ elim (Bool-cases (str_eq m "knock")) [
      | inl e ↦ inr (inr (inl ((eq_iff m _).0 e, (decide_knock_iff f).0 (rw (a, b, e) at h))))
      | inr c ↦ elim (Bool-cases (str_eq m "ban")) [
        | inl e ↦
            inr (inr (inr (inl ((eq_iff m _).0 e, (decide_ban_iff f).0 (rw (a, b, c, e) at h)))))
        | inr d ↦ elim (Bool-cases (str_eq m "leave")) [
          | inl e ↦
              inr
                (inr (inr (inr ((eq_iff m _).0 e, decide_leave_sound f (rw (a, b, c, d, e) at h)))))
          | inr e ↦ ground arith
        ]
      ]
    ]
  ]
]

Permits-complete :
    (m : String) (f : MembershipFacts) → Permits m f → decide_membership m f ≡ allowed
unfolding decide_membership
Permits-complete m f (inl (e, p)) = rw e ((decide_join_iff f).1 p)
Permits-complete m f (inr (inl (e, p))) = rw e ((decide_invite_iff f).1 p)
Permits-complete m f (inr (inr (inl (e, p)))) = rw e ((decide_knock_iff f).1 p)
Permits-complete m f (inr (inr (inr (inl (e, p))))) = rw e ((decide_ban_iff f).1 p)
Permits-complete m f (inr (inr (inr (inr (e, p))))) = rw e (decide_leave_complete f p)

-- A change of a banned user's membership, by the facts.
banned_decided :
    (m : String) (f : MembershipFacts)
    → f.target_membership ≡ some "ban"
    → Permits m f
    → ((m ≡ "ban") × MayBan f) ⊎ ((m ≡ "leave") × MayUnban f)
banned_decided m f banned (inl (e, p)) = absurd (p.1 banned)
banned_decided m f banned (inr (inl (e, p))) = absurd (p.2 banned)
banned_decided m f banned (inr (inr (inl (e, p)))) = absurd (p.1 banned)
banned_decided m f banned (inr (inr (inr (inl (e, p))))) = inl (e, p)
banned_decided m f banned (inr (inr (inr (inr (e, inl p))))) = absurd (present-ne-ban _ p.1 banned)
banned_decided m f banned (inr (inr (inr (inr (e, inr (inl p)))))) = inr (e, p)
banned_decided m f banned (inr (inr (inr (inr (e, inr (inr p)))))) =
    absurd (present-ne-ban _ (inl p.3) banned)

gathered_target :
    (t : EventTables) (version : String) (m : StateMap) (c : Candidate) (target : String)
    (f : MembershipFacts)
    → gather_facts t version m c target ≡ ok f
    → get_membership t m target ≡ ok f.target_membership
unfolding gather_facts
gathered_target t version m c target f h =
    let (_, _, h1) = >>=-eq-ok (get_membership t m c.sender) _ h in
    let (membership, found, h2) = >>=-eq-ok (get_membership t m target) _ h1 in
    let (_, _, h3) = >>=-eq-ok (get_join_rule t m) _ h2 in
    let (_, _, h4) = >>=-eq-ok (get_user_power_level t version m c.sender) _ h3 in
    let (_, _, h5) = >>=-eq-ok (get_user_power_level t version m target) _ h4 in
    let (_, _, h6) = >>=-eq-ok (get_current_power_levels_content t m) _ h5 in
    let (_, _, h7) = >>=-eq-ok (get_create_event t m) _ h6 in cc

module _ (t : EventTables) (version : String) (m : StateMap) (c : Candidate) (target : String) where
  -- The facts of the room permit the membership that the event sets.
  abbrev pub IsPermitted : Type 0
  IsPermitted =
      (membership : String) × (f : MembershipFacts) × (normalize_string (get "membership" c.content)
        ≡ ok membership)
      × (gather_facts t version m c target ≡ ok f)
      × Permits membership f

  -- A membership event is authorized if and only if its membership is a text, the facts of the room
  -- can be read, and they permit that membership.
  pub authorize_membership_event_iff :
      (authorize_membership_event t version m c target ≡ allowed) ↔ IsPermitted
  unfolding authorize_membership_event
  authorize_membership_event_iff = (sound, complete)
    where
      sound : authorize_membership_event t version m c target ≡ allowed → IsPermitted
      sound h =
          let (membership, text, rest) =
            >>=-eq-ok (normalize_string (get "membership" c.content)) _ h in
          let (f, facts, decided) = >>=-eq-ok (gather_facts t version m c target) _ rest in
          (membership, f, text, facts, Permits-sound membership f decided)

      complete : IsPermitted → authorize_membership_event t version m c target ≡ allowed
      complete (membership, f, text, facts, permits) =
          rw (text, facts) (Permits-complete membership f permits)

  -- The membership of a user whom the room reads as banned is changed by an authorized membership event
  -- only by a ban, set anew by a joined user, or by another user's unban over the unban route, which
  -- sets `leave`; either takes the ban level and a level above the target's.
  pub banned_stays :
      get_membership t m target ≡ ok (some "ban")
      → authorize_membership_event t version m c target ≡ allowed
      → (membership : String) × (f : MembershipFacts) × (normalize_string
            (get "membership" c.content)
          ≡ ok membership)
        × (gather_facts t version m c target ≡ ok f)
        × (((membership ≡ "ban") × MayBan f) ⊎ ((membership ≡ "leave") × MayUnban f))
  banned_stays banned h =
      let (membership, f, text, facts, permits) = authorize_membership_event_iff.0 h in
      let known : f.target_membership ≡ some "ban" =
        ok_inj (sym (gathered_target t version m c target f facts) ∙ banned) in
      (membership, f, text, facts, banned_decided membership f known permits)
