-- ===== src/PushRules/Rules.antt =====
-- Client-domain.mjs: the kinds of push rules, a rule as a client sees it, and a row of the table
-- `user_push_rules`.
use matrix_flare.Prelude.{String, Bool, true, false, Option, List, [], ◌∷◌}
use matrix_flare.Prelude.Int.{ℤ}
use matrix_flare.Json.{Items}

pub data Kind : Type 0 where
  override underride sender room content : Kind

abbrev pub push_rule_kinds : List Kind
push_rule_kinds = override ∷ underride ∷ sender ∷ room ∷ content ∷ []

abbrev pub same_kind : Kind → Kind → Bool
same_kind override override = true
same_kind underride underride = true
same_kind sender sender = true
same_kind room room = true
same_kind content content = true
same_kind _ _ = false

abbrev pub kind_name : Kind → String
kind_name override = "override"
kind_name underride = "underride"
kind_name sender = "sender"
kind_name room = "room"
kind_name content = "content"

-- A rule of the view. `conditions` and `pattern` are left out of some rules.
pub record Rule : Type 0 where
  pub rule_id : String
  pub is_default : Bool
  pub enabled : Bool
  pub conditions : Option Items
  pub actions : Items
  pub pattern : Option String

-- The column `record_json`, without the kind, which repeats the column `kind`.
pub record RowRecord : Type 0 where
  pub pattern : Option String
  pub default_rule : Bool

-- A row. The writers check the kind, so that it is one of the five.
pub record Row : Type 0 where
  pub scope : String
  pub kind : Kind
  pub rule_id : String
  pub enabled : Bool
  pub priority_class : String
  pub priority_index : ℤ
  pub updated_at : String
  pub actions : Items
  pub conditions : Items
  pub details : RowRecord
