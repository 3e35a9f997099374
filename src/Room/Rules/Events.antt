-- ===== src/Room/Rules/Events.antt =====
-- What event authorization guarantees: `authorizeCandidateEvent`, and the standing of the creators
-- of a version 12 room.
use matrix_flare.Prelude.{
  not-eq, String, Bool, true, ◌&&◌, not, Option, some, ◌≡◌, ◌≢◌, ◌⊎◌, inl, inr, arith, eq_iff,
  str_eq, Bool-cases, ok, >>=-eq-ok, includes, is_some, or_else, ap, ◌∙◌,
}
use matrix_flare.Json.{Fields, get, as_string, normalize_string}
use matrix_flare.Room.State.{
  EventTables, StateMap, get_create_event, get_membership, get_join_rule, load_room_event_by_id,
}
use matrix_flare.Room.Power.{
  Level, finite, infinite, room_creators, get_user_power_level, get_current_power_levels_content,
  required_event_level,
}
use matrix_flare.Room.Membership.{
  Candidate, MembershipFacts, gather_facts, authorize_membership_event, allowed, is_at,
}
use matrix_flare.Room.Authorize.{authorize_candidate_event, authorize_redaction, check_event_level}
use matrix_flare.Room.Rules.Decisions.{◌≼◌, level_lt_iff, is_at_iff, Outranks}
use matrix_flare.Room.Rules.Members.{Permits, authorize_membership_event_iff}

module _ (t : EventTables) (m : StateMap) where
  -- A creator of a version 12 room has the infinite level.
  creator_level :
      (create : Option Fields) (user : String)
      → get_create_event t m ≡ ok create
      → includes (room_creators "12" create) user ≡ true
      → get_user_power_level t "12" m user ≡ ok infinite
  unfolding get_user_power_level
  creator_level create user e h = rw (e, get_user_power_level, h)

  -- The target's level among the gathered facts.
  gather_facts-target :
      (version : String) (c : Candidate) (target : String) (f : MembershipFacts)
      → gather_facts t version m c target ≡ ok f
      → (get_user_power_level t version m target ≡ ok f.target_power)
        × (f.sender ≡ c.sender)
        × (f.target ≡ target)
  unfolding gather_facts
  gather_facts-target version c target f h =
      let (_, _, h1) = >>=-eq-ok (get_membership t m c.sender) _ h in
      let (_, _, h2) = >>=-eq-ok (get_membership t m target) _ h1 in
      let (_, _, h3) = >>=-eq-ok (get_join_rule t m) _ h2 in
      let (_, _, h4) = >>=-eq-ok (get_user_power_level t version m c.sender) _ h3 in
      let (level, found, h5) = >>=-eq-ok (get_user_power_level t version m target) _ h4 in
      let (_, _, h6) = >>=-eq-ok (get_current_power_levels_content t m) _ h5 in
      let (_, _, h7) = >>=-eq-ok (get_create_event t m) _ h6 in (cc, cc, cc)

module _ (t : EventTables) (version : String) (m : StateMap) (c : Candidate) where
  passes :
      check_event_level t version m c ≡ allowed
      → (level : Level) × (levels : Fields) × (get_user_power_level t version m c.sender ≡ ok level)
        × (get_current_power_levels_content t m ≡ ok levels)
        × ◌≼◌
            (finite (required_event_level version levels c.event_type (is_some c.state_key)))
            level
  unfolding check_event_level
  passes h =
      let (level, found, h1) = >>=-eq-ok (get_user_power_level t version m c.sender) _ h in
      let (levels, read, h2) = >>=-eq-ok (get_current_power_levels_content t m) _ h1 in
      let needed = required_event_level version levels c.event_type (is_some c.state_key) in
      (level, levels, found, read, (level_lt_iff level (finite needed)).0 (ground arith))

  -- The redaction of an event of the sender's own, outside version 11.
  abbrev pub RedactsOwn : Type 0
  RedactsOwn =
      (version ≢ "11")
      × (target : Fields) × (load_room_event_by_id t (or_else c.redacts "") ≡ ok target)
      × (as_string (get "sender" target) ≡ some c.sender)

  -- The sender's level reaches what the levels in force ask for the event.
  abbrev pub ReachesLevel : Type 0
  ReachesLevel =
      (level : Level) × (levels : Fields) × (get_user_power_level t version m c.sender ≡ ok level)
      × (get_current_power_levels_content t m ≡ ok levels)
      × ◌≼◌ (finite (required_event_level version levels c.event_type (is_some c.state_key))) level

  redaction_sound : authorize_redaction t version m c ≡ allowed → RedactsOwn ⊎ ReachesLevel
  unfolding authorize_redaction
  redaction_sound h =
      let (target, loaded, rest) = >>=-eq-ok (load_room_event_by_id t (or_else c.redacts "")) _ h in
      let own : Bool =
        not (str_eq version "11") && is_at (as_string (get "sender" target)) c.sender in
      elim (Bool-cases own) [
        | inl e ↦ inl (
          ground (arith, eq_iff version "11"),
          target,
          loaded,
          (is_at_iff (as_string (get "sender" target)) c.sender).0 (ground arith),
        )
        | inr e ↦ inr (passes (rw e at rest))
      ]

  -- An event that is authorized, and is neither a create nor a membership event, was sent by a
  -- joined user whose level reaches what the event needs; outside version 11 the level is not asked
  -- of a redaction of the sender's own event.
  pub authorize_candidate_event_sound :
      c.event_type ≢ "m.room.create"
      → c.event_type ≢ "m.room.member"
      → authorize_candidate_event t version m c ≡ allowed
      → (get_membership t m c.sender ≡ ok (some "join"))
        × (((c.event_type ≡ "m.room.redaction") × RedactsOwn) ⊎ ReachesLevel)
  unfolding authorize_candidate_event
  authorize_candidate_event_sound no_create no_member h =
      let create = not-eq _ _ no_create in
      let member = not-eq _ _ no_member in
      let (membership, read, rest) = >>=-eq-ok (get_membership t m c.sender) _ (rw create at h) in
      let joined = (is_at_iff membership "join").0 (ground arith) in
      (
        read ∙ ap ok joined,
        elim (Bool-cases (str_eq c.event_type "m.room.redaction")) [
          | inl e ↦ elim (redaction_sound (ground arith)) [
            | inl own ↦ inl ((eq_iff _ _).0 e, own)
            | inr level ↦ inr level
          ]
          | inr e ↦ inr (passes (ground arith))
        ],
      )

no_outrank : (a b : Level) → b ≡ infinite → ¬ Outranks a b
no_outrank (finite a) b e h = let o : Outranks (finite a) infinite = rw e at h in o
no_outrank infinite b e h = let o : Outranks infinite infinite = rw e at h in o

-- Over a target of infinite power, a permitted ban or leave is the target's own leave.
Permits-infinite :
    (m : String) (f : MembershipFacts)
    → f.target_power ≡ infinite
    → f.sender ≢ f.target
    → Permits m f
    → ¬ ((m ≡ "ban") ⊎ (m ≡ "leave"))
Permits-infinite m f top other (inl (e, p)) kind = other p.0
Permits-infinite m f top other (inr (inl (e, p))) kind =
    ground (arith, eq_iff "invite" "ban", eq_iff "invite" "leave")
Permits-infinite m f top other (inr (inr (inl (e, p)))) kind = other p.0
Permits-infinite m f top other (inr (inr (inr (inl (e, p))))) kind =
    no_outrank f.sender_power f.target_power top p.1.1
Permits-infinite m f top other (inr (inr (inr (inr (e, inl p))))) kind = other p.0
Permits-infinite m f top other (inr (inr (inr (inr (e, inr (inl p)))))) kind =
    no_outrank f.sender_power f.target_power top p.3.1
Permits-infinite m f top other (inr (inr (inr (inr (e, inr (inr p)))))) kind =
    no_outrank f.sender_power f.target_power top p.4.1

-- The membership rules let nobody, not even another creator, ban, unban or kick a creator of a version
-- 12 room: `authorizeMembershipEvent` allows no such event.
pub creator_cannot_be_removed :
    (t : EventTables) (m : StateMap) (c : Candidate) (target : String) (create : Option Fields)
    (membership : String)
    → get_create_event t m ≡ ok create
    → includes (room_creators "12" create) target ≡ true
    → c.sender ≢ target
    → normalize_string (get "membership" c.content) ≡ ok membership
    → (membership ≡ "ban") ⊎ (membership ≡ "leave")
    → authorize_membership_event t "12" m c target ≢ allowed
creator_cannot_be_removed t m c target create membership e h other text kind done =
    let (found, f, text', facts, permits) =
      (authorize_membership_event_iff t "12" m c target).0 done in
    let (level, sender, named) = gather_facts-target t m "12" c target f facts in
    let top = creator_level t m create target e h in
    let same : found ≡ membership = cc in
    let infinite_target : f.target_power ≡ infinite = cc in
    Permits-infinite found f infinite_target (λ p. other (cc)) permits (rw same kind)
