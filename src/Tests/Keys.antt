-- ===== src/Tests/Keys.antt =====
-- The Keychain, on concrete credentials. A sorted list stands for itself.
use open_claw_bridge.Prelude.{
  String, ◌≡◌, refl, ◌⊎◌, true, false, ◌&&◌, none, some, List, [], ◌∷◌, arith, str_eq, eq_iff,
  text_mem, any,
}
use open_claw_bridge.Auth.{Credential}
use open_claw_bridge.Keychain.{Backend, get_credential, list_credentials}
use open_claw_bridge.Keychain.Writes.{Write, setting, deleting, after_write}
use open_claw_bridge.Keychain.Manifest.{IsListed, lost_by, after_writes, after_writes-IsListed}
use open_claw_bridge.Keychain.Lookup.{kept, get-set}

abbrev as_is : List String → List String
as_is l = l

abbrev members : (x : String) (l : List String) → text_mem x (as_is l) ≡ text_mem x l
members x l = refl

abbrev empty : Backend
empty a = none

-- A credential with half of a grace pair.
abbrev credential : Credential
credential = record {
  actor = "brain.agent";
  token = "t1";
  scopes = "llm:call" ∷ [];
  previous_token = some "t0";
  previous_expires_at = none;
}

abbrev writes : List Write
writes =
    setting credential
    ∷ deleting false "relay.main"
    ∷ setting (record credential { actor = "_actors_" })
    ∷ []

abbrev other : String
other = "relay.main"

abbrev agent : String
agent = "brain.agent"

after_writes-IsListed_example :
    IsListed (lost_by writes (λ a. false)) (after_writes as_is members writes empty)
after_writes-IsListed_example =
    after_writes-IsListed as_is members writes (λ a. false) empty
      (record { item = λ a ne there. ground (arith, there) })

get-set_example :
    (get_credential agent (after_write as_is members (setting credential) empty)
      ≡ some (kept credential))
    × ((agent ≡ other)
        ⊎ (get_credential other (after_write as_is members (setting credential) empty)
            ≡ get_credential other empty))
    × (any
          (λ d. str_eq d.actor agent && str_eq d.token "t1")
          (list_credentials as_is (after_write as_is members (setting credential) empty))
        ≡ true)
get-set_example =
    get-set as_is members credential empty other (ground (arith, eq_iff "brain.agent" "_actors_"))
