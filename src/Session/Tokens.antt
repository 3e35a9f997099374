-- ===== src/Session/Tokens.antt =====
-- User-identity.mjs: opaque access and refresh tokens. Signing, hashing and the base64url code are
-- node's: they are fields of a record, with the behaviour that the program relies on.
use Prim.Native.String.{◌++◌ as append}
use Prim.Native.Char.{code}
use matrix_flare.Prelude.{
  ℕ, String, Bool, true, false, ◌&&◌, not, Option, none, some, List, [], ◌∷◌, str_eq, if◌then◌else◌,
  ◌==◌, is_empty, Result, ok, throws, ◌>>=◌, range_error,
}
use matrix_flare.Json.{normalize_text}

-- What the token functions take from `node:crypto` and `Buffer`, and the printing of a number.
pub record Crypto : Type 0 where
  pub sign : String → String → String  -- the HMAC of a text under a key, in base64url
  pub hash : String → String  -- the SHA-256 of a text, in base64url
  pub encode : String → String  -- the base64url code of a text
  pub decode : String → String  -- its inverse, which skips what is no base64url
  pub show : ℕ → String  -- a number in decimal digits

-- A parsed ring of session root keys.
pub record KeyRing : Type 0 where
  pub active_version : String
  pub keys : List (String × String)

unfoldable pub find_secret : String → List (String × String) → Option String
find_secret version [] = none
find_secret version ((v, secret) ∷ more) =
    let rest = find_secret version more in if str_eq v version then some secret else rest

-- `${a}.${b}`
abbrev pub with_dot : String → String → String
with_dot a b = append a (append "." b)

-- `text.split('.')`
abbrev pub push_char : Bool → String → List String → List String
push_char true c [] = c ∷ []
push_char true c (p ∷ ps) = append c p ∷ ps
push_char false c ps = "" ∷ ps

unfoldable pub split_dot : String → List String
split_dot String.[] = "" ∷ []
split_dot (String.◌∷◌ c s) = push_char (not (code c == b'.')) (String.◌∷◌ c String.[]) (split_dot s)

-- `/^@[^:]+:.+$/`: an at sign, a part that is not empty and holds no colon, a colon, and a rest
-- that is not empty. (A rest that holds a line end is matched here and not there.)
unfoldable pub after_colon : String → Option String
after_colon String.[] = none
after_colon (String.◌∷◌ c s) = let rest = after_colon s in if code c == b':' then some s else rest

unfoldable pub is_user_id : String → Bool
is_user_id String.[] = false
is_user_id (String.◌∷◌ at String.[]) = false
is_user_id (String.◌∷◌ at (String.◌∷◌ c s)) =
    code at == b'@'
    && not (code c == b':')
    && (elim (after_colon s) [ none ↦ false | some rest ↦ not (is_empty rest) ])

module _ (x : Crypto) where
  -- The text that is signed, and the token: `issueOpaqueUserToken`.
  abbrev signing_input : String → String → String → String → ℕ → String
  signing_input prefix user version session revision =
      with_dot prefix
        (with_dot (x.encode user) (with_dot version (with_dot session (x.show revision))))

  abbrev token_text : String → String → String → ℕ → String → String
  token_text prefix user version revision signature =
      with_dot prefix
        (with_dot (x.encode user) (with_dot version (with_dot (x.show revision) signature)))

  unfoldable pub issue_opaque_user_token :
      String → String → KeyRing → String → ℕ → Option String → Result String
  issue_opaque_user_token prefix user ring session revision version? = do
    named ← normalize_text user
    session_id ← normalize_text session
    version ← elim version? [ none ↦ ok ring.active_version | some v ↦ normalize_text v ]
    elim (find_secret version ring.keys) [
      | none ↦ throws range_error
      | some secret ↦ ok (
          token_text prefix named version revision
            (x.sign secret (signing_input prefix named version session_id revision)))
    ]

  -- `parseOpaqueUserToken`, its user: three parts or five, behind the prefix.
  abbrev hint_of : String → List String → Result String
  hint_of prefix (p ∷ user ∷ _ ∷ []) =
      if str_eq p prefix && is_user_id (x.decode user)
      then ok (x.decode user)
      else throws range_error
  hint_of prefix (p ∷ user ∷ _ ∷ _ ∷ _ ∷ []) =
      if str_eq p prefix && is_user_id (x.decode user)
      then ok (x.decode user)
      else throws range_error
  hint_of prefix _ = throws range_error

  unfoldable pub get_user_id_hint : String → String → Result String
  get_user_id_hint prefix token = do text ← normalize_text token; hint_of prefix (split_dot text)
