-- ===== src/Room/Rules/Decisions.antt =====
-- The branches of `authorizeMembershipEvent` against a description of who may do what.
use matrix_flare.Prelude.{
  not-eq, String, Bool, true, false, ◌||◌, Option, none, some, [], ◌∷◌, Bool-cases, inl, inr, ◌≡◌,
  refl, ◌≢◌, ◌⊎◌, ◌↔◌, arith, eq_iff, str_eq,
}
use matrix_flare.Prelude.Int.{ℤ, ◌≤ℤ◌, ◌<ℤ◌}
use matrix_flare.Room.Power.{Level, finite, infinite, level_lt, level_le}
use matrix_flare.Room.Membership.{
  MembershipFacts, decide_join, decide_invite, decide_knock, decide_ban, decide_leave, unban_route,
  allowed, is_at, is_one_of, is_outranked,
}

-- The order of power levels, with the infinite level of a version 12 creator on top.
abbrev pub ◌≼◌ : Level → Level → Type 0
◌≼◌ (finite a) (finite b) = a ≤ℤ b
◌≼◌ a infinite = Unit
◌≼◌ infinite (finite b) = ⊥

abbrev pub Outranks : Level → Level → Type 0
Outranks (finite a) (finite b) = b <ℤ a
Outranks a infinite = ⊥
Outranks infinite (finite b) = Unit

pub level_lt_iff : (a b : Level) → (level_lt a b ≡ false) ↔ ◌≼◌ b a
level_lt_iff (finite a) (finite b) = ground arith
level_lt_iff (finite a) infinite = (λ h. cc, λ h. elim h [ ])
level_lt_iff infinite (finite b) = (λ h. tt, λ h. refl)
level_lt_iff infinite infinite = (λ h. tt, λ h. refl)

pub level_le_iff : (a b : Level) → (level_le a b ≡ false) ↔ Outranks a b
level_le_iff (finite a) (finite b) = ground arith
level_le_iff (finite a) infinite = (λ h. cc, λ h. elim h [ ])
level_le_iff infinite (finite b) = (λ h. tt, λ h. refl)
level_le_iff infinite infinite = (λ h. cc, λ h. elim h [ ])

or-false_iff : (a b : Bool) → ((a || b) ≡ false) ↔ ((a ≡ false) × (b ≡ false))
or-false_iff a b = ground arith

pub is_at_iff : (o : Option String) (s : String) → (is_at o s ≡ true) ↔ (o ≡ some s)
is_at_iff none s = (λ h. cc, λ h. cc)
is_at_iff (some t) s = ground (arith, eq_iff t s)

-- A level that passes both tests of a ban, an unban or a kick.
abbrev pub Commands : MembershipFacts → ℤ → Type 0
Commands f level = ◌≼◌ (finite level) f.sender_power × Outranks f.sender_power f.target_power

pub is_outranked_iff :
    (f : MembershipFacts) (level : ℤ) → (is_outranked f level ≡ false) ↔ Commands f level
is_outranked_iff f level =
    let (split, join) =
      or-false_iff (level_lt f.sender_power (finite level))
        (level_le f.sender_power f.target_power) in
    let (reach, reach') = level_lt_iff f.sender_power (finite level) in
    let (above, above') = level_le_iff f.sender_power f.target_power in
    (λ h. (reach (split h).0, above (split h).1), λ c. join (reach' c.0, above' c.1))

abbrev pub MayJoin : MembershipFacts → Type 0
MayJoin f =
    (f.sender ≡ f.target)
    × (f.target_membership ≢ some "ban")
    × ((f.target_membership ≡ some "join")
        ⊎ ((f.create_sender ≡ some f.sender) × (f.target_membership ≡ none))
        ⊎ (f.target_membership ≡ some "invite")
        ⊎ (f.target_membership ≡ some "knock")
        ⊎ (f.join_rule ≡ "public"))

pub decide_join_iff : (f : MembershipFacts) → (decide_join f ≡ allowed) ↔ MayJoin f
unfolding decide_join
decide_join_iff f = ground (
  arith,
  eq_iff f.sender f.target,
  is_at_iff f.target_membership "ban",
  is_at_iff f.target_membership "join",
  is_at_iff f.create_sender f.sender,
  is_at_iff f.target_membership "invite",
  is_at_iff f.target_membership "knock",
  eq_iff f.join_rule "public",
)

abbrev pub MayInvite : MembershipFacts → Type 0
MayInvite f =
    (f.sender_membership ≡ some "join")
    × ◌≼◌ (finite f.invite_level) f.sender_power
    × (f.target_membership ≢ some "ban")
    × (f.target_membership ≢ some "join")

pub decide_invite_iff : (f : MembershipFacts) → (decide_invite f ≡ allowed) ↔ MayInvite f
unfolding decide_invite
decide_invite_iff f =
    let (reach, reach') = level_lt_iff f.sender_power (finite f.invite_level) in
    let level : Bool = level_lt f.sender_power (finite f.invite_level) in
    ground (
      arith,
      is_at_iff f.sender_membership "join",
      is_at_iff f.target_membership "ban",
      is_at_iff f.target_membership "join",
      reach,
      reach',
    )

-- Whether a membership is one of an active member.
abbrev pub IsActive : Option String → Type 0
IsActive o = (o ≡ some "join") ⊎ (o ≡ some "invite") ⊎ (o ≡ some "knock")

IsActive-iff :
    (o : Option String) → (is_one_of o ("join" ∷ "invite" ∷ "knock" ∷ []) ≡ true) ↔ IsActive o
IsActive-iff none = ground arith
IsActive-iff (some t) = ground (arith, eq_iff "join" t, eq_iff "invite" t, eq_iff "knock" t)

present_iff :
    (o : Option String)
    → (is_one_of o ("join" ∷ "invite" ∷ "knock" ∷ "leave" ∷ []) ≡ true)
      ↔ (IsActive o ⊎ (o ≡ some "leave"))
present_iff none = ground arith
present_iff (some t) =
    ground (arith, eq_iff "join" t, eq_iff "invite" t, eq_iff "knock" t, eq_iff "leave" t)

abbrev pub MayKnock : MembershipFacts → Type 0
MayKnock f =
    (f.sender ≡ f.target)
    × (f.target_membership ≢ some "ban")
    × (¬ IsActive f.target_membership)
    × (f.join_rule ≡ "knock")

pub decide_knock_iff : (f : MembershipFacts) → (decide_knock f ≡ allowed) ↔ MayKnock f
unfolding decide_knock
decide_knock_iff f =
    let (active, active') = IsActive-iff f.target_membership in
    let banned = is_at_iff f.target_membership "ban" in
    let self = eq_iff f.sender f.target in
    let rule = eq_iff f.join_rule "knock" in
    (
      λ h. (ground arith, ground arith, λ a. ground (arith, active' a), ground arith),
      λ m. elim (Bool-cases (is_one_of f.target_membership ("join" ∷ "invite" ∷ "knock" ∷ []))) [
        | inl e ↦ absurd (m.2 (active e))
        | inr e ↦ ground arith
      ],
    )

abbrev pub MayBan : MembershipFacts → Type 0
MayBan f = (f.sender_membership ≡ some "join") × Commands f f.ban_level

pub decide_ban_iff : (f : MembershipFacts) → (decide_ban f ≡ allowed) ↔ MayBan f
unfolding decide_ban
decide_ban_iff f =
    let (joined, joined') = is_at_iff f.sender_membership "join" in
    let (sound, complete) = is_outranked_iff f f.ban_level in
    (
      λ h. (joined (ground arith), sound (ground arith)),
      λ m. rw (joined' m.0) (rw (complete m.1) refl),
    )

-- Who may set a membership to `leave`: the member, an unbanner or a kicker.
abbrev pub MayLeave : MembershipFacts → Type 0
MayLeave f =
    (f.sender ≡ f.target) × (IsActive f.target_membership ⊎ (f.target_membership ≡ some "leave"))

abbrev pub MayUnban : MembershipFacts → Type 0
MayUnban f =
    (f.sender ≢ f.target)
    × (f.route_template ≡ some unban_route)
    × (f.target_membership ≡ some "ban")
    × Commands f f.ban_level

abbrev pub MayKick : MembershipFacts → Type 0
MayKick f =
    (f.sender ≢ f.target)
    × (f.route_template ≢ some unban_route)
    × (f.sender_membership ≡ some "join")
    × IsActive f.target_membership
    × Commands f f.kick_level

unbanned : (o : Option String) → IsActive o ⊎ (o ≡ some "leave") → is_at o "ban" ≡ false
unbanned o (inl (inl e)) = rw e
unbanned o (inl (inr (inl e))) = rw e
unbanned o (inl (inr (inr e))) = rw e
unbanned o (inr e) = rw e

not_at : (o : Option String) (s : String) → (o ≢ some s) → is_at o s ≡ false
not_at o s h = ground (arith, is_at_iff o s)

-- A user with an active membership, or one who left, is not banned.
pub present-ne-ban : (o : Option String) → IsActive o ⊎ (o ≡ some "leave") → o ≢ some "ban"
present-ne-ban o here banned =
    let e : is_at (some "ban") "ban" ≡ false = rw banned at (unbanned o here) in cc

module _ (f : MembershipFacts) where
  pub decide_leave_sound : decide_leave f ≡ allowed → MayLeave f ⊎ MayUnban f ⊎ MayKick f
  unfolding decide_leave
  decide_leave_sound h =
      let (self, self') = eq_iff f.sender f.target in
      let (route, route') = is_at_iff f.route_template unban_route in
      let present = (present_iff f.target_membership).0 in
      let active = (IsActive-iff f.target_membership).0 in
      elim (Bool-cases (str_eq f.sender f.target)) [
        | inl own ↦ inl (self own, present (ground arith))
        | inr other ↦ elim (Bool-cases (is_at f.route_template unban_route)) [
          | inl unban ↦ inr (
              inl (
                ground arith,
                route unban,
                (is_at_iff f.target_membership "ban").0 (ground arith),
                (is_outranked_iff f f.ban_level).0 (ground arith),
              ))
          | inr kick ↦ inr (
              inr (
                ground arith,
                ground arith,
                (is_at_iff f.sender_membership "join").0 (ground arith),
                active (ground arith),
                (is_outranked_iff f f.kick_level).0 (ground arith),
              ))
        ]
      ]

  pub decide_leave_complete : MayLeave f ⊎ MayUnban f ⊎ MayKick f → decide_leave f ≡ allowed
  unfolding decide_leave
  decide_leave_complete (inl (own, here)) =
      rw ((eq_iff f.sender f.target).1 own)
        (rw (unbanned _ here) (rw ((present_iff f.target_membership).1 here) refl))
  decide_leave_complete (inr (inl (other, route, banned, level))) = rw (not-eq _ _ other) (
      rw ((is_at_iff _ _).1 route)
        (rw ((is_at_iff _ _).1 banned) (rw ((is_outranked_iff f f.ban_level).1 level) refl)))
  decide_leave_complete (inr (inr (other, route, joined, here, level))) = rw (not-eq _ _ other) (
      rw (not_at _ _ route) (
        rw (unbanned _ (inl here)) (
          rw ((is_at_iff f.sender_membership _).1 joined) (
            rw ((IsActive-iff f.target_membership).1 here)
              (rw ((is_outranked_iff f f.kick_level).1 level) refl)))))
