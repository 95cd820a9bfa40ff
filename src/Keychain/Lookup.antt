-- ===== src/Keychain/Lookup.antt =====
-- What is read after a write: one credential, or the list of all.
use open_claw_bridge.Prelude.{
  String, ◌≡◌, refl, ◌∙◌, ◌≢◌, ◌⊎◌, inl, inr, true, false, ◌&&◌, none, some, List, [], ◌∷◌, arith,
  str_eq, eq_iff, eq_refl, if◌then◌else◌, Bool-cases, text_mem, is_some, any,
}
use open_claw_bridge.Auth.{Credential}
use open_claw_bridge.Keychain.{
  Backend, manifest_account, serialise, deserialise, read_manifest, get_credential, collect,
  list_actors, list_credentials,
}
use open_claw_bridge.Keychain.Writes.{
  str_no, setting, deleting, set-item, set-manifest, delete-item, delete-manifest, after_write,
}

-- What `_serialise` and `_deserialise` make of a credential: half of a grace pair is dropped.
abbrev pub kept : Credential → Credential
kept c =
    let both = is_some c.previous_token && is_some c.previous_expires_at in
    record c {
      previous_token = if both then c.previous_token else none;
      previous_expires_at = if both then c.previous_expires_at else none;
    }

module _ (sorted : List String → List String)
    (members : (x : String) (l : List String) → text_mem x (sorted l) ≡ text_mem x l) where
  collected :
      (a : String) (actors : List String) (b : Backend) (c : Credential)
      → text_mem a actors ≡ true
      → get_credential a b ≡ some c
      → any (λ d. str_eq d.actor c.actor && str_eq d.token c.token) (collect actors b) ≡ true
  unfolding collect
  collected a [] b c m e = ground arith
  collected a (x ∷ actors) b c m e = elim (Bool-cases (str_eq x a)) [
    | inl here ↦ ground (arith, here, eq_iff x a, e, eq_refl c.actor, eq_refl c.token)
    | inr other ↦
        let rest = collected a actors b c (ground (arith, other, m)) e in ground (arith, rest)
  ]

  get-set_own :
      (c : Credential) (b : Backend)
      → c.actor ≢ manifest_account
      → get_credential c.actor (after_write sorted members (setting c) b) ≡ some (kept c)
  unfolding get_credential serialise deserialise
  get-set_own c b ne =
      ground (arith, str_no c.actor ne, set-item sorted members c b c.actor ne ne, eq_refl c.actor)

  get-set_other :
      (c : Credential) (b : Backend) (a : String)
      → c.actor ≢ manifest_account
      → (c.actor ≡ a)
        ⊎ (get_credential a (after_write sorted members (setting c) b) ≡ get_credential a b)
  unfolding get_credential
  get-set_other c b a ne = elim (Bool-cases (str_eq a manifest_account)) [
    | inl m ↦ inr (ground (arith, m))
    | inr item ↦
        let ne' : a ≢ manifest_account = ground (arith, item, eq_iff a manifest_account) in
        elim (Bool-cases (str_eq c.actor a)) [
          | inl same ↦ inl (ground (arith, same, eq_iff c.actor a))
          | inr other ↦ inr (ground (arith, item, other, set-item sorted members c b a ne ne'))
        ]
  ]

  -- `get_credential` after `set_credential` returns what was set, but half of a grace pair, and the other
  -- credentials stay. The list of all credentials then holds it.
  pub get-set :
      (c : Credential) (b : Backend) (a : String)
      → c.actor ≢ manifest_account
      → (get_credential c.actor (after_write sorted members (setting c) b) ≡ some (kept c))
        × ((c.actor ≡ a)
            ⊎ (get_credential a (after_write sorted members (setting c) b) ≡ get_credential a b))
        × (any
              (λ d. str_eq d.actor c.actor && str_eq d.token c.token)
              (list_credentials sorted (after_write sorted members (setting c) b))
            ≡ true)
  unfolding list_credentials
  get-set c b a ne =
      let own = get-set_own c b ne in
      let manifest = read_manifest (after_write sorted members (setting c) b) in
      let listed : text_mem c.actor (sorted manifest) ≡ true =
        members c.actor manifest
        ∙ ground (arith, set-manifest sorted members c b c.actor ne, eq_refl c.actor) in
      (
        own,
        get-set_other c b a ne,
        collected c.actor (sorted manifest) (after_write sorted members (setting c) b) (kept c)
            listed own,
      )

  get-delete :
      (a : String) (b : Backend)
      → a ≢ manifest_account
      → get_credential a (after_write sorted members (deleting false a) b) ≡ none
  unfolding get_credential
  get-delete a b ne = ground (arith, delete-item sorted members false a b a ne ne, eq_refl a)

  get-delete_other :
      (a : String) (b : Backend) (x : String)
      → a ≢ manifest_account
      → (a ≡ x)
        ⊎ (get_credential x (after_write sorted members (deleting false a) b) ≡ get_credential x b)
  unfolding get_credential
  get-delete_other a b x ne = elim (Bool-cases (str_eq x manifest_account)) [
    | inl m ↦ inr (ground (arith, m))
    | inr item ↦
        let ne' : x ≢ manifest_account = ground (arith, item, eq_iff x manifest_account) in
        elim (Bool-cases (str_eq a x)) [
          | inl same ↦ inl (ground (arith, same, eq_iff a x))
          | inr other ↦
              inr (ground (arith, item, other, delete-item sorted members false a b x ne ne'))
        ]
  ]

  collected_none :
      (a : String) (actors : List String) (b : Backend)
      → get_credential a b ≡ none
      → any (λ d. str_eq d.actor a) (collect actors b) ≡ false
  unfolding collect get_credential deserialise
  collected_none a [] b e = refl
  collected_none a (x ∷ actors) b e = ground (arith, e, collected_none a actors b e, eq_iff x a)

  -- After a `delete_credential` that the Keychain does not refuse the actor has no credential: neither by name nor in the list of all, and it
  -- is not in the manifest. The other credentials stay.
  pub list-delete :
      (a : String) (b : Backend) (x : String)
      → a ≢ manifest_account
      → (get_credential a (after_write sorted members (deleting false a) b) ≡ none)
        × (any
              (λ d. str_eq d.actor a)
              (list_credentials sorted (after_write sorted members (deleting false a) b))
            ≡ false)
        × (text_mem a (list_actors sorted (after_write sorted members (deleting false a) b))
            ≡ false)
        × ((a ≡ x)
            ⊎ (get_credential x (after_write sorted members (deleting false a) b)
                ≡ get_credential x b))
  unfolding list_credentials
  list-delete a b x ne =
      let gone = get-delete a b ne in
      let manifest = read_manifest (after_write sorted members (deleting false a) b) in
      (
        gone,
        collected_none a (sorted manifest) (after_write sorted members (deleting false a) b) gone,
        members a manifest
            ∙ ground (arith, delete-manifest sorted members false a b a ne, eq_refl a),
        get-delete_other a b x ne,
      )
