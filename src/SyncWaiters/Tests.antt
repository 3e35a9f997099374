-- ===== src/SyncWaiters/Tests.antt =====
-- Ada syncs twice in one session, Bob once; then something happens to Ada.
use matrix_flare.Prelude.{
  ℕ, String, true, none, some, [], ◌∷◌, ◌≡◌, refl, str_eq, if◌then◌else◌, trim, Result, ok,
}
use matrix_flare.Prelude.Int.{pos}
use matrix_flare.Prelude.Members.{Member, head, tail}
use matrix_flare.Json.{str, int, normalize_text, normalize_string, normalize_integer}
use matrix_flare.SyncWaiters.Hub.{
  Waiter, superseded, timeout, wake, Hub, ensure_sync_waiter_hub, remove_waiter, set_waiter,
  get_session_key, remove_session, is_settled, resolve, existing_waiter, register_waiter,
  register_sync_waiter, wake_one, wake_each, wake_sync_waiters,
}
use matrix_flare.SyncWaiters.Promises.{
  Reaches, start, registers, resolves, wake_sync_waiters-settles, one_waiter_per_session, IsOnce,
  reached-IsOnce,
}

-- The two sessions and the keys of their syncs.
abbrev owner : String → String
owner session = if str_eq session "@bob:h|s2" then "@bob:h" else "@ada:h"

abbrev session_of : String → String
session_of key = if str_eq key "k2" then "@bob:h|s2" else "@ada:h|s1"

abbrev waiter : ℕ → String → String → String → Waiter
waiter n user key session = record { number = n; user = user; key = key; session_key = session }

abbrev first : Waiter
first = waiter 0 "@ada:h" "k1" "@ada:h|s1"

abbrev bobs : Waiter
bobs = waiter 1 "@bob:h" "k2" "@bob:h|s2"

abbrev second : Waiter
second = waiter 2 "@ada:h" "k3" "@ada:h|s1"

abbrev asks : String → String → String → Hub → Result (Waiter × Hub)
asks user session key hub =
    register_sync_waiter (some (str user)) (some (str session)) (some (str key))
      (some (int (pos 30000))) hub

abbrev hub_of : Hub → Result (Waiter × Hub) → Hub
hub_of hub (ok (w, hub')) = hub'
hub_of hub _ = hub

abbrev none_yet : Hub
none_yet = ensure_sync_waiter_hub none

abbrev one_waits : Hub
one_waits = hub_of none_yet (asks "@ada:h" "s1" "k1" none_yet)

abbrev two_wait : Hub
two_wait = hub_of one_waits (asks "@bob:h" "s2" "k2" one_waits)

abbrev ada_again : Hub
ada_again = hub_of two_wait (asks "@ada:h" "s1" "k3" two_wait)

abbrev bob_out : Hub
bob_out = resolve bobs timeout ada_again

sync_waiters_code : Unit {0}
unfolding trim normalize_text normalize_string normalize_integer ensure_sync_waiter_hub
    remove_waiter set_waiter get_session_key remove_session is_settled resolve existing_waiter
    register_waiter register_sync_waiter wake_one wake_each wake_sync_waiters
sync_waiters_code = tt

registers_first : asks "@ada:h" "s1" "k1" none_yet ≡ ok (first, one_waits)
unfolding sync_waiters_code
registers_first = refl

registers_bob : asks "@bob:h" "s2" "k2" one_waits ≡ ok (bobs, two_wait)
unfolding sync_waiters_code
registers_bob = refl

registers_second : asks "@ada:h" "s1" "k3" two_wait ≡ ok (second, ada_again)
unfolding sync_waiters_code
registers_second = refl

woken :
    (wake_sync_waiters "@ada:h" 5 bob_out).1.settled
    ≡ (2, wake 5) ∷ (1, timeout) ∷ (0, superseded) ∷ []
unfolding sync_waiters_code
woken = refl

Reaches-ada : Reaches owner session_of (second ∷ bobs ∷ first ∷ []) ada_again
Reaches-ada =
    registers _ _ _ _ second
      (registers _ _ _ _ bobs (registers _ _ _ _ first start registers_first refl refl)
        registers_bob refl refl)
      registers_second refl refl

Reaches-out : Reaches owner session_of (second ∷ bobs ∷ first ∷ []) bob_out
Reaches-out = resolves bobs timeout Reaches-ada (tail (head refl))

wake_sync_waiters-settles_example :
    is_settled 2 (wake_sync_waiters "@ada:h" 5 bob_out).1.settled ≡ true
wake_sync_waiters-settles_example =
    wake_sync_waiters-settles owner session_of (second ∷ bobs ∷ first ∷ []) bob_out "@ada:h" 5
      second Reaches-out (head refl) refl

second_waits : Member second ada_again.waiters_by_user
unfolding sync_waiters_code
second_waits = tail (head refl)

one_waiter_per_session_example : second ≡ second
one_waiter_per_session_example =
    one_waiter_per_session owner session_of (second ∷ bobs ∷ first ∷ []) ada_again second second
      Reaches-ada second_waits second_waits refl

reached-IsOnce_example : IsOnce bob_out.settled
reached-IsOnce_example =
    reached-IsOnce owner session_of (second ∷ bobs ∷ first ∷ []) bob_out Reaches-out
