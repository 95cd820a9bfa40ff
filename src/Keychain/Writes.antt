-- ===== src/Keychain/Writes.antt =====
-- What a write of bridge/src/bridge/keychain.py leaves of each item and of the manifest.
use open_claw_bridge.Prelude.{
  String, ◌≡◌, refl, ◌∙◌, ◌≢◌, inl, inr, Bool, false, not, ◌&&◌, ◌||◌, none, some, List, [], ◌∷◌,
  ◌++◌, arith, str_eq, eq_iff, eq_refl, if◌then◌else◌, Bool-cases, text_mem, get_or, filter,
}
use open_claw_bridge.Auth.{Credential}
use open_claw_bridge.Keychain.{
  distinct, Backend, manifest_account, serialise, read_manifest, set_credential, delete_credential,
}

mem-append :
    (x y : String) (l : List String) → text_mem x (l ++ y ∷ []) ≡ (text_mem x l || str_eq y x)
mem-append x y [] = ground arith
mem-append x y (a ∷ l) = ground (arith, mem-append x y l)

mem-filter :
    (x y : String) (l : List String)
    → text_mem x (filter (λ a. not (str_eq a y)) l) ≡ (text_mem x l && not (str_eq x y))
mem-filter x y [] = ground arith
mem-filter x y (a ∷ l) = ground (arith, mem-filter x y l, eq_iff a y, eq_iff a x, eq_iff x y)

mem-distinct : (x : String) (l : List String) → text_mem x (distinct l) ≡ text_mem x l
unfolding distinct
mem-distinct x [] = refl
mem-distinct x (a ∷ l) = ground (arith, mem-distinct x l, mem-distinct a l, eq_iff a x)

pub str_no : (a : String) → a ≢ manifest_account → str_eq a manifest_account ≡ false
str_no a ne = ground (arith, eq_iff a manifest_account)

pub data Write : Type 0 where
  setting : Credential → Write
  deleting : (fails : Bool) → String → Write

module _ (sorted : List String → List String)
    (members : (x : String) (l : List String) → text_mem x (sorted l) ≡ text_mem x l) where
  -- The Keychain after a write, which stays as it is if the name is refused.
  unfoldable pub after_write : Write → Backend → Backend
  unfolding set_credential delete_credential
  after_write (setting c) b = get_or (set_credential sorted c b) b
  after_write (deleting fails a) b = get_or (delete_credential sorted fails a b) b

  pub set-item :
      (c : Credential) (b : Backend) (x : String)
      → c.actor ≢ manifest_account
      → x ≢ manifest_account
      → after_write (setting c) b x ≡ (if str_eq c.actor x then some (serialise c) else b x)
  unfolding after_write
  set-item c b x ne ne' =
      ground (arith, eq_iff c.actor manifest_account, eq_iff manifest_account x, eq_iff c.actor x)

  pub set-manifest :
      (c : Credential) (b : Backend) (x : String)
      → c.actor ≢ manifest_account
      → text_mem x (read_manifest (after_write (setting c) b))
        ≡ (text_mem x (read_manifest b) || str_eq c.actor x)
  unfolding after_write
  set-manifest c b x ne =
      let here = str_no c.actor ne in
      elim (Bool-cases (text_mem c.actor (read_manifest b))) [
        | inl old ↦ rw (here, old) (ground (arith, here, old, eq_iff c.actor x))
        | inr new ↦
            rw (here, new)
              (members x (distinct (read_manifest b ++ c.actor ∷ []))
                ∙ mem-distinct x (read_manifest b ++ c.actor ∷ [])
                ∙ mem-append x c.actor (read_manifest b))
      ]

  pub delete-item :
      (fails : Bool) (a : String) (b : Backend) (x : String)
      → a ≢ manifest_account
      → x ≢ manifest_account
      → after_write (deleting fails a) b x ≡ (if str_eq a x && not fails then none else b x)
  unfolding after_write
  delete-item fails a b x ne ne' =
      ground (arith, eq_iff a manifest_account, eq_iff manifest_account x, eq_iff a x)

  pub delete-manifest :
      (fails : Bool) (a : String) (b : Backend) (x : String)
      → a ≢ manifest_account
      → text_mem x (read_manifest (after_write (deleting fails a) b))
        ≡ (text_mem x (read_manifest b) && not (str_eq x a))
  unfolding after_write
  delete-manifest fails a b x ne =
      let here = str_no a ne in
      rw (here) (
        ground (
          arith,
          eq_refl manifest_account,
          members x (distinct (filter (λ y. not (str_eq y a)) (read_manifest b))),
          mem-distinct x (filter (λ y. not (str_eq y a)) (read_manifest b)),
          mem-filter x a (read_manifest b),
        ))

  pub refused-set :
      (c : Credential) (b : Backend) → c.actor ≡ manifest_account → after_write (setting c) b ≡ b
  unfolding after_write
  refused-set c b e = ground (arith, eq_iff c.actor manifest_account)

  pub refused-delete :
      (fails : Bool) (a : String) (b : Backend)
      → a ≡ manifest_account
      → after_write (deleting fails a) b ≡ b
  unfolding after_write
  refused-delete fails a b e = ground (arith, eq_iff a manifest_account)
