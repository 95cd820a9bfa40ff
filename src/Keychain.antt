-- ===== src/Keychain.antt =====
-- bridge/src/bridge/keychain.py: credentials in the Keychain, one item to an actor, and the manifest that
-- lists the actors. The keyring is not under the repository: it is a map from accounts to passwords. A
-- password is what its JSON text holds. `sorted` on the names of a set is a parameter.
pub mod Writes
pub mod Manifest
pub mod Lookup
use open_claw_bridge.Prelude.{
  ℕ, String, Bool, not, ◌&&◌, Option, none, some, List, [], ◌∷◌, ◌++◌, str_eq, if◌then◌else◌,
  text_mem, is_some, filter,
}
use open_claw_bridge.Auth.{Credential}

-- The JSON object of a credential.
pub record Body : Type 0 where
  pub token : String
  pub scopes : List String
  pub previous_token : Option String
  pub previous_expires_at : Option ℕ

-- A credential's object, a list of names, or a text that is neither.
pub data Password : Type 0 where
  object : Body → Password
  names : List String → Password
  garbage : Password

abbrev pub Backend : Type 0
Backend = String → Option Password

abbrev pub manifest_account : String
manifest_account = "_actors_"

abbrev pub put : String → Option Password → Backend → Backend
put a v b x = if str_eq a x then v else b x

-- `_serialise`: the grace pair is written if both halves are there.
unfoldable pub serialise : Credential → Password
serialise c =
    let both = is_some c.previous_token && is_some c.previous_expires_at in
    object (record {
      token = c.token;
      scopes = c.scopes;
      previous_token = if both then c.previous_token else none;
      previous_expires_at = if both then c.previous_expires_at else none;
    })

-- `_deserialise`
unfoldable pub deserialise : String → Password → Option Credential
deserialise actor (names l) = none
deserialise actor garbage = none
deserialise actor (object b) = some (record {
  actor = actor;
  token = b.token;
  scopes = b.scopes;
  previous_token = b.previous_token;
  previous_expires_at = b.previous_expires_at;
})

abbrev pub names_of : Option Password → List String
names_of (some (names l)) = l
names_of _ = []

-- `_read_manifest`
abbrev pub read_manifest : Backend → List String
read_manifest b = names_of (b manifest_account)

-- `get_credential`
unfoldable pub get_credential : String → Backend → Option Credential
unfolding deserialise
get_credential actor b =
    if str_eq actor manifest_account
    then none
    else elim (b actor) [ none ↦ none | some p ↦ deserialise actor p ]

-- The loop of `list_credentials`.
unfoldable pub collect : List String → Backend → List Credential
unfolding get_credential
collect [] b = []
collect (a ∷ actors) b =
    let rest = collect actors b in elim (get_credential a b) [ none ↦ rest | some c ↦ c ∷ rest ]

-- `set(...)`; its order does not matter, since it is sorted.
unfoldable pub distinct : List String → List String
distinct [] = []
distinct (a ∷ actors) = let rest = distinct actors in if text_mem a rest then rest else a ∷ rest

module _ (sorted : List String → List String) where
  -- `_write_manifest`
  abbrev pub write_manifest : List String → Backend → Backend
  write_manifest actors = put manifest_account (some (names (sorted (distinct actors))))

  -- `set_credential`; `none` is the `ValueError`.
  unfoldable pub set_credential : Credential → Backend → Option Backend
  unfolding serialise
  set_credential c b =
      let b' = put c.actor (some (serialise c)) b in
      let actors = read_manifest b' in
      if str_eq c.actor manifest_account
      then none
      else if text_mem c.actor actors
      then some b'
      else some (write_manifest (actors ++ c.actor ∷ []) b')

  -- `delete_credential`; `none` is the `ValueError`. `fails` says that `delete_password` raises
  -- `PasswordDeleteError`, which is suppressed: it does so for an item that is not there, and for one that
  -- it cannot delete, which then stays.
  unfoldable pub delete_credential : (fails : Bool) → String → Backend → Option Backend
  delete_credential fails actor b =
      let b' = if fails then b else put actor none b in
      if str_eq actor manifest_account
      then none
      else some (write_manifest (filter (λ a. not (str_eq a actor)) (read_manifest b')) b')

  -- `list_actors`
  abbrev pub list_actors : Backend → List String
  list_actors b = sorted (read_manifest b)

  -- `list_credentials`
  unfoldable pub list_credentials : Backend → List Credential
  unfolding collect
  list_credentials b = collect (list_actors b) b
