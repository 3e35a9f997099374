-- ===== src/Room/Power.antt =====
-- Durable-objects.mjs: the power levels in force, the creators of a room, the level of a user and
-- the level that an event needs.
use matrix_flare.Prelude.{
  String, Bool, true, false, ◌&&◌, not, Option, none, some, List, [], ◌∷◌, str_eq, if◌then◌else◌,
  Result, ok, ◌>>=◌, includes, is_empty, or_else,
}
use matrix_flare.Prelude.Int.{ℤ, pos, ltb_ℤ, leb_ℤ}
use matrix_flare.Json.{
  Json, int, str, obj, Items, nil, cons, Fields, end, field, get, as_string, as_int, as_object,
  as_array,
}
use matrix_flare.Room.State.{
  EventTables, StateMap, get_typed_state_event, typed_state_content, get_create_event,
  content_field,
}

-- A power level: an integer, or `Number.POSITIVE_INFINITY`.
pub data Level : Type 0 where
  finite : ℤ → Level
  infinite : Level

-- `left < right` and `left <= right` on levels
abbrev pub level_lt : Level → Level → Bool
level_lt (finite a) (finite b) = ltb_ℤ a b
level_lt (finite a) infinite = true
level_lt infinite b = false

abbrev pub level_le : Level → Level → Bool
level_le (finite a) (finite b) = leb_ℤ a b
level_le a infinite = true
level_le infinite (finite b) = false

-- The user of an event's `sender`, if it is a text that is not empty.
abbrev pub nonempty : Option String → Option String
nonempty none = none
nonempty (some s) = if is_empty s then none else some s

-- `users[id] = 100`: an own key is written in place, a new one at the end.
unfoldable pub set_field : String → Json → Fields → Fields
set_field k v end = field k v end
set_field k v (field j w fs) =
    let rest = set_field k v fs in if str_eq j k then field j v fs else field j w rest

-- The loop over `additional_creators` of the default levels.
unfoldable pub add_creator_levels : Items → Fields → Fields
add_creator_levels nil users = users
add_creator_levels (cons (str s) xs) users =
    add_creator_levels xs (if is_empty s then users else set_field s (int (pos 100)) users)
add_creator_levels (cons _ xs) users = add_creator_levels xs users

-- The levels of a room that has no power levels event.
unfoldable pub default_power_levels : Option Fields → Fields
default_power_levels create =
    let sender : Option String = elim create [
      | none ↦ none
      | some e ↦ nonempty (as_string (get "sender" e))
    ] in
    let base : Fields = elim sender [ none ↦ end | some s ↦ field s (int (pos 100)) end ] in
    let more : Option Items = elim create [
      | none ↦ none
      | some e ↦ as_array (content_field e "additional_creators")
    ] in
    let users : Fields = elim more [ none ↦ base | some xs ↦ add_creator_levels xs base ] in
    field "users_default" (int (pos 0)) (
      field "events_default" (int (pos 0)) (
        field "state_default" (int (pos 50)) (
          field "ban" (int (pos 50)) (
            field "kick" (int (pos 50)) (
              field "redact" (int (pos 50)) (
                field "invite" (int (pos 0))
                  (field "users" (obj users) (field "events" (obj end) end))))))))

-- `getCurrentPowerLevelsContent`
unfoldable pub get_current_power_levels_content : EventTables → StateMap → Result Fields
get_current_power_levels_content t m = do
  entry ← get_typed_state_event m "m.room.power_levels" ""
  elim entry [
    | none ↦ get_create_event t m >>= λ create. ok (default_power_levels create)
    | some e ↦ typed_state_content t (some e) >>= λ event.
        ok (elim event [ none ↦ end | some f ↦ or_else (as_object (get "content" f)) end ])
  ]

-- The texts of `additional_creators` that are not empty. (The program keeps a set of them; only
-- membership in it is asked.)
unfoldable pub creator_names : Items → List String
creator_names nil = []
creator_names (cons (str s) xs) =
    let rest = creator_names xs in if is_empty s then rest else s ∷ rest
creator_names (cons _ xs) = creator_names xs

-- `getRoomCreators`, of the create event
unfoldable pub room_creators : String → Option Fields → List String
room_creators version none = []
room_creators version (some create) =
    let more : List String =
      if str_eq version "12"
      then elim (as_array (content_field create "additional_creators")) [
        | none ↦ []
        | some xs ↦ creator_names xs
      ]
      else [] in
    elim (nonempty (as_string (get "sender" create))) [ none ↦ more | some s ↦ s ∷ more ]

-- An integer field, or the default.
abbrev pub int_or : String → Fields → ℤ → ℤ
int_or name fields default = or_else (as_int (get name fields)) default

-- An integer under an object field.
abbrev pub nested_int : String → String → Fields → Option ℤ
nested_int name key fields = elim (as_object (get name fields)) [
  | none ↦ none
  | some inner ↦ as_int (get key inner)
]

-- The level that the power levels event, or its defaults, give a user.
unfoldable pub level_in : Fields → String → ℤ
level_in levels user = elim (nested_int "users" user levels) [
  | some n ↦ n
  | none ↦ int_or "users_default" levels (pos 0)
]

-- `getUserPowerLevel`, of the creators and the levels in force
unfoldable pub user_level : String → List String → Fields → String → Level
user_level version creators levels user =
    if str_eq version "12" && includes creators user
    then infinite
    else finite (level_in levels user)

unfoldable pub get_user_power_level : EventTables → String → StateMap → String → Result Level
get_user_power_level t version m user = do
  create ← get_create_event t m
  if str_eq version "12" && includes (room_creators version create) user
      then ok infinite
      else (get_current_power_levels_content t m >>= λ levels.
          ok (user_level version (room_creators version create) levels user))

-- `getRequiredEventPowerLevel`, of the levels in force: the type of the event, and whether it has
-- a state key
unfoldable pub required_event_level : String → Fields → String → Bool → ℤ
required_event_level version levels event_type is_state =
    if str_eq event_type "m.room.redaction" && not (str_eq version "11")
    then int_or "redact" levels (pos 50)
    else elim (nested_int "events" event_type levels) [
      | some n ↦ n
      | none ↦
          if is_state
          then int_or "state_default" levels (pos 50)
          else int_or "events_default" levels (pos 0)
    ]

-- `getRequiredNotificationPowerLevel`, of the levels in force
unfoldable pub required_notification_level : Fields → String → ℤ
required_notification_level levels key = or_else (nested_int "notifications" key levels) (pos 50)

-- `hasSenderNotificationPermission`
unfoldable pub has_sender_notification_permission :
    EventTables → String → StateMap → String → String → Result Bool
has_sender_notification_permission t version m sender key =
    if is_empty sender
    then ok false
    else (get_user_power_level t version m sender >>= λ level.
        get_current_power_levels_content t m >>= λ levels.
        ok (level_le (finite (required_notification_level levels key)) level))
