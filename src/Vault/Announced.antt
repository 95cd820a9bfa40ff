-- ===== src/Vault/Announced.antt =====
-- The event of a write to the vault.
use open_claw_bridge.Prelude.{
  String, ◌≡◌, refl, ap, ◌∙◌, inl, inr, Bool, false, not, none, some, List, [], ◌∷◌, ◌++◌, map,
  append-nil, append_assoc, arith, if◌then◌else◌, Bool-cases, is_some,
}
use open_claw_bridge.Errors.{BridgeError, Result, ok, err, text, Result-cases}
use open_claw_bridge.Server.{App, Stamp, EventEnvelope, stamped, publish_on}
use open_claw_bridge.Drafts.Create.{publish_quietly}
use open_claw_bridge.Vault.Files.{FileSystem}
use open_claw_bridge.Vault.Provider.{
  Library, WriteRequest, VaultWriteResult, mode_name, write, write_text,
}
use open_claw_bridge.Vault.Route.{Written, response, vault_write}

-- One POST to `/v1/vault/write`.
pub record Post : Type 0 where
  pub published : Stamp
  pub changed_at : String
  pub actor : String
  pub request : WriteRequest

-- The envelope of a write.
abbrev pub announcement : Post → EventEnvelope
announcement p =
    stamped p.published "vault.changed"
      (("path", text p.request.path)
        ∷ ("op", text (mode_name p.request.mode))
        ∷ ("changed_at", text p.changed_at)
        ∷ [])
      p.actor

module _ (lib : Library) where
  unfoldable pub post_all :
      List Post → FileSystem × App → List (Result Written) × (FileSystem × App)
  unfolding vault_write
  post_all [] s = ([], s)
  post_all (p ∷ ps) s =
      let (a, s') = vault_write lib p.published p.changed_at p.actor p.request s in
      let (rest, s'') = post_all ps s' in (a ∷ rest, s'')

  -- The same writes to the provider alone.
  unfoldable pub write_all : List Post → FileSystem → List (Result VaultWriteResult) × FileSystem
  write_all [] fs = ([], fs)
  write_all (p ∷ ps) fs =
      let (a, fs') = write lib p.request fs in
      let (rest, fs'') = write_all ps fs' in (a ∷ rest, fs'')

abbrev pub respond : Result VaultWriteResult → Result Written
respond (ok w) = ok (response w)
respond (err e) = err e

-- The envelopes of the writes that succeeded, in their order.
abbrev pub announcements : List Post → List (Result VaultWriteResult) → List EventEnvelope
announcements [] rs = []
announcements (p ∷ ps) [] = []
announcements (p ∷ ps) (ok w ∷ rs) = announcement p ∷ announcements ps rs
announcements (p ∷ ps) (err e ∷ rs) = announcements ps rs

-- What has been published; nothing without Redis.
abbrev pub published : App → List EventEnvelope
published app = elim app.redis_client [ none ↦ [] | some r ↦ r.published ]

-- Whether a publish reaches Redis.
abbrev pub reaches : App → Bool
reaches app = elim app.redis_client [ none ↦ false | some r ↦ not (is_some r.pubsub_fault) ]

-- The application after an envelope is offered to its publisher.
abbrev offered : EventEnvelope → App → App
offered e app = elim app.redis_client [
  | none ↦ app
  | some r ↦ elim r.pubsub_fault [
    | some fault ↦ app
    | none ↦ record app { redis_client = some (record r { published = r.published ++ e ∷ [] }) }
  ]
]

published-offered :
    (e : EventEnvelope) (app : App)
    → (published (offered e app) ≡ (if reaches app then published app ++ e ∷ [] else published app))
      × (reaches (offered e app) ≡ reaches app)
published-offered e app = ground arith

offered-append :
    (e : EventEnvelope) (app : App) (es : List EventEnvelope)
    → published (offered e app) ++ (if reaches (offered e app) then es else [])
      ≡ published app ++ (if reaches app then e ∷ es else [])
offered-append e app es = elim (Bool-cases (reaches app)) [
  | inl r ↦
      rw ((published-offered e app).0, (published-offered e app).1, r)
        (append_assoc (published app) (e ∷ []) es)
  | inr r ↦ rw ((published-offered e app).0, (published-offered e app).1, r) refl
]

module _ (lib : Library) (p : Post) (fs : FileSystem) (app : App) where
  write_echoes :
      {w : VaultWriteResult}
      → (write lib p.request fs).0 ≡ ok w
      → (w.path ≡ p.request.path) × (w.op ≡ p.request.mode)
  unfolding write write_text
  write_echoes e = ground arith

  vault_write-refused :
      {e : BridgeError}
      → (write lib p.request fs).0 ≡ err e
      → vault_write lib p.published p.changed_at p.actor p.request (fs, app)
        ≡ (err e, ((write lib p.request fs).1, app))
  unfolding vault_write
  vault_write-refused e = rw (vault_write, e) refl

  vault_write-done :
      {w : VaultWriteResult}
      → (write lib p.request fs).0 ≡ ok w
      → vault_write lib p.published p.changed_at p.actor p.request (fs, app)
        ≡ (ok (response w), ((write lib p.request fs).1, offered (announcement p) app))
  unfolding vault_write publish_quietly publish_on
  vault_write-done e = rw (vault_write, e) (ground (arith, write_echoes e))

-- Over any sequence of writes to the route, the answers and the file system are those of the provider
-- alone, whether Redis is there and publishes or not. If it does, one `vault.changed` is published for
-- each write that succeeds, in their order and with their paths and modes; otherwise none is.
pub post_all_lem :
    (lib : Library) (ps : List Post) (fs : FileSystem) (app : App)
    → (let (answers, (fs', app')) = post_all lib ps (fs, app) in
        let (results, fs'') = write_all lib ps fs in
        (answers ≡ map respond results)
        × (fs' ≡ fs'')
        × (published app'
            ≡ published app ++ (if reaches app then announcements ps results else [])))
unfolding post_all write_all
post_all_lem lib [] fs app = (refl, refl, ground (arith, append-nil (published app)))
post_all_lem lib (p ∷ ps) fs app = elim (Result-cases (write lib p.request fs).0) [
  | inl (e, f) ↦
      let rest = post_all_lem lib ps (write lib p.request fs).1 app in
      rw (vault_write-refused lib p fs app f, f) (ap (λ l. err e ∷ l) rest.0, rest.1, rest.2)
  | inr (w, f) ↦
      let app' = offered (announcement p) app in
      let rest = post_all_lem lib ps (write lib p.request fs).1 app' in
      rw (vault_write-done lib p fs app f, f)
        (
          ap (λ l. ok (response w) ∷ l) rest.0,
          rest.1,
          rest.2
              ∙ offered-append (announcement p) app
                  (announcements ps (write_all lib ps (write lib p.request fs).1).0),
        )
]
