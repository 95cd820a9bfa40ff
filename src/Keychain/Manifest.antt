-- ===== src/Keychain/Manifest.antt =====
-- The manifest keeps up with the items.
use open_claw_bridge.Prelude.{
  String, ◌≡◌, ◌≢◌, inl, inr, Bool, true, false, ◌||◌, List, [], ◌∷◌, arith, str_eq, eq_iff,
  if◌then◌else◌, Bool-cases, text_mem, is_some,
}
use open_claw_bridge.Auth.{Credential}
use open_claw_bridge.Keychain.{Backend, manifest_account, read_manifest}
use open_claw_bridge.Keychain.Writes.{
  Write, setting, deleting, set-item, set-manifest, delete-item, delete-manifest, refused-set,
  refused-delete, after_write,
}

-- Every item but the manifest itself is listed, or one of those that `lost` names.
pub record IsListed (lost : String → Bool) (b : Backend) : Type 0 where
  pub item :
      (a : String)
      → a ≢ manifest_account
      → is_some (b a) ≡ true
      → (text_mem a (read_manifest b) || lost a) ≡ true

-- The names whose last write is a deletion that failed; before the writes, those of `lost`.
unfoldable pub lost_by : List Write → (lost : String → Bool) → String → Bool
lost_by [] lost = lost
lost_by (setting c ∷ ws) lost = lost_by ws (λ a. if str_eq c.actor a then false else lost a)
lost_by (deleting fails n ∷ ws) lost = lost_by ws (λ a. if str_eq n a then fails else lost a)

module _ (sorted : List String → List String)
    (members : (x : String) (l : List String) → text_mem x (sorted l) ≡ text_mem x l) where
  unfoldable pub after_writes : List Write → Backend → Backend
  after_writes [] b = b
  after_writes (w ∷ ws) b = after_writes ws (after_write sorted members w b)

  set-IsListed :
      (c : Credential) (lost : String → Bool) (b : Backend)
      → IsListed lost b
      → IsListed
          (λ a. if str_eq c.actor a then false else lost a)
          (after_write sorted members (setting c) b)
  set-IsListed c lost b v = elim (Bool-cases (str_eq c.actor manifest_account)) [
    | inl bad ↦
        let same =
          refused-set sorted members c b (ground (arith, bad, eq_iff c.actor manifest_account)) in
        record {
          item = λ a ne' there. ground (
            arith,
            same,
            bad,
            eq_iff c.actor manifest_account,
            eq_iff c.actor a,
            v.item a ne' (rw (← same) there),
          );
        }
    | inr fine ↦
        let ne : c.actor ≢ manifest_account =
          ground (arith, fine, eq_iff c.actor manifest_account) in
        record {
          item = λ a ne' there. ground (
            arith,
            set-item sorted members c b a ne ne',
            set-manifest sorted members c b a ne,
            there,
            v.item a ne',
          );
        }
  ]

  delete-IsListed :
      (fails : Bool) (n : String) (lost : String → Bool) (b : Backend)
      → IsListed lost b
      → IsListed
          (λ a. if str_eq n a then fails else lost a)
          (after_write sorted members (deleting fails n) b)
  delete-IsListed fails n lost b v = elim (Bool-cases (str_eq n manifest_account)) [
    | inl bad ↦
        let same =
          refused-delete sorted members fails n b
            (ground (arith, bad, eq_iff n manifest_account)) in
        record {
          item = λ a ne' there. ground (
            arith,
            same,
            bad,
            eq_iff n manifest_account,
            eq_iff n a,
            v.item a ne' (rw (← same) there),
          );
        }
    | inr fine ↦
        let ne : n ≢ manifest_account = ground (arith, fine, eq_iff n manifest_account) in
        record {
          item = λ x ne' there. ground (
            arith,
            delete-item sorted members fails n b x ne ne',
            delete-manifest sorted members fails n b x ne,
            there,
            v.item x ne',
            eq_iff n x,
            eq_iff x n,
          );
        }
  ]

  -- After any writes, every item is listed but those whose last write is a deletion that the Keychain
  -- refused: `delete_credential` hides the refusal and takes the name from the manifest all the same. It
  -- holds from a Keychain whose items are listed or named by `lost`, as the empty one is with no name.
  pub after_writes-IsListed :
      (ws : List Write) (lost : String → Bool) (b : Backend)
      → IsListed lost b
      → IsListed (lost_by ws lost) (after_writes ws b)
  unfolding after_writes lost_by
  after_writes-IsListed [] lost b v = v
  after_writes-IsListed (setting c ∷ ws) lost b v =
      after_writes-IsListed ws (λ a. if str_eq c.actor a then false else lost a)
        (after_write sorted members (setting c) b) (set-IsListed c lost b v)
  after_writes-IsListed (deleting fails n ∷ ws) lost b v =
      after_writes-IsListed ws (λ a. if str_eq n a then fails else lost a)
        (after_write sorted members (deleting fails n) b) (delete-IsListed fails n lost b v)
