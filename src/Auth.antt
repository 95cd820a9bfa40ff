-- ===== src/Auth.antt =====
-- bridge/src/bridge/auth.py and the credentials of bridge/src/bridge/keychain.py: bearer tokens, the
-- cached map of their digests, and scopes. The Keychain is what `list_credentials` returns, which
-- depends on the time; SHA-256 is a parameter. Times are milliseconds; the monotonic clock and the
-- clock of the day are one.
pub mod Staleness
use open_claw_bridge.Prelude.{
  ℕ, zero, suc, ◌+◌, ◌-◌, ◌*◌, ◌/◌, ◌%◌, ◌^◌, ◌≤◌, ◌<◌, min, max, String, text_length, utf8_length,
  ◌≡◌, refl, sym, ap, ◌∙◌, ◌≢◌, ◌↔◌, ◌⊎◌, inl, inr, Bool, true, false, not, ◌&&◌, ◌||◌, Option,
  none, some, List, [], ◌∷◌, ◌++◌, map, append-nil, append_assoc, arith, str_eq, eq_iff, eq_refl,
  ltb, leb, ◌==◌, if◌then◌else◌, Bool-cases, Option-cases, concat, concat_one, concat_nil,
  take_text, is_empty, or_else, text_mem, is_space, is_blank, length, length-append, get_or,
  is_some, filter, find, any, All, reverse, Forward,
}
use open_claw_bridge.Errors.{Result, ok, err, error, unauthorized, forbidden_scope}

abbrev pub refresh_ttl : ℕ
refresh_ttl = 60000

pub record Credential : Type 0 where
  pub actor : String
  pub token : String
  pub scopes : List String
  pub previous_token : Option String
  pub previous_expires_at : Option ℕ

-- `previous_is_active`, with the token that it guards.
abbrev pub active_previous : ℕ → Credential → Option String
active_previous now c = elim c.previous_token [
  | none ↦ none
  | some t ↦ elim c.previous_expires_at [
    | none ↦ none
    | some at ↦ if ltb now at then some t else none
  ]
]

-- `TokenRecord`, and `AuthContext`, which has the same fields.
pub record TokenRecord : Type 0 where
  pub actor : String
  pub scopes : List String

pub record TokenStore : Type 0 where
  pub records : List (String × TokenRecord)
  pub loaded_at : Option ℕ

-- `cred.actor.startswith("provider.")`
abbrev pub is_provider : Credential → Bool
is_provider c = str_eq (take_text 9 c.actor) "provider."

abbrev pub record_of : Credential → TokenRecord
record_of c = record { actor = c.actor; scopes = c.scopes }

-- `dict.get`; what was indexed last stands first.
abbrev pub get : String → List (String × TokenRecord) → Option TokenRecord
get d [] = none
get d ((k, r) ∷ rs) = if str_eq k d then some r else get d rs

module _ (sha256 : String → String) where
  -- `_index`
  abbrev pub index :
      List (String × TokenRecord) → String → TokenRecord → List (String × TokenRecord)
  index records token r = (sha256 token, r) ∷ records

  -- The body of the loop in `refresh`.
  unfoldable pub index_credential :
      ℕ → Credential → List (String × TokenRecord) → List (String × TokenRecord)
  index_credential now c records =
      if is_provider c
      then records
      else (let current = index records c.token (record_of c) in
          elim (active_previous now c) [ none ↦ current | some t ↦ index current t (record_of c) ])

  unfoldable pub index_all :
      ℕ → List Credential → List (String × TokenRecord) → List (String × TokenRecord)
  unfolding index_credential
  index_all now [] records = records
  index_all now (c ∷ cs) records = index_all now cs (index_credential now c records)

  -- `refresh`
  unfoldable pub refresh : ℕ → List Credential → TokenStore
  unfolding index_all
  refresh now creds = record { records = index_all now creds []; loaded_at = some now }

  abbrev pub is_stale : ℕ → TokenStore → Bool
  is_stale now s = elim s.loaded_at [ none ↦ true | some t ↦ ltb refresh_ttl (now - t) ]

  -- `lookup`: the record, and the store after it.
  unfoldable pub lookup :
      ℕ → List Credential → String → TokenStore → Option TokenRecord × TokenStore
  unfolding refresh
  lookup now creds token s =
      let s' = if is_stale now s then refresh now creds else s in
      (get (sha256 token) s'.records, s')

  -- `require_auth`, on the bearer token that the header holds, none if it holds no such scheme.
  unfoldable pub require_auth :
      ℕ → List Credential → Option String → TokenStore → Result TokenRecord × TokenStore
  unfolding lookup
  require_auth now creds none s =
      (err (error unauthorized "Missing or malformed Authorization header." []), s)
  require_auth now creds (some token) s =
      if is_empty token
      then (err (error unauthorized "Empty bearer token." []), s)
      else (let (found, s') = lookup now creds token s in
          elim found [
            | none ↦ (err (error unauthorized "Unknown token." []), s')
            | some r ↦ (ok r, s')
          ])

  -- `require_scope`
  unfoldable pub require_scope :
      String → ℕ → List Credential → Option String → TokenStore → Result TokenRecord × TokenStore
  unfolding require_auth
  require_scope scope now creds header s =
      let (r, s') = require_auth now creds header s in
      elim r [
        | err e ↦ (err e, s')
        | ok auth ↦ if text_mem scope auth.scopes then (ok auth, s') else (
          err (error forbidden_scope (concat ("Token lacks required scope: " ∷ scope ∷ [])) []),
          s',
        )
      ]
