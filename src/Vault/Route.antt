-- ===== src/Vault/Route.antt =====
-- `vault_write` of bridge/src/bridge/routes/vault.py: the write, its event and its response. The reading
-- route is `VaultProvider.read`.
use open_claw_bridge.Prelude.{ℕ, String, [], ◌∷◌}
use open_claw_bridge.Errors.{ok, err}
use open_claw_bridge.Server.{App, Stamp, Exec}
use open_claw_bridge.Drafts.Create.{publish_quietly}
use open_claw_bridge.Vault.Files.{FileSystem}
use open_claw_bridge.Vault.Provider.{
  Mode, create, append, replace, mode_name, WriteRequest, VaultWriteResult, Library, write,
}

-- `VaultWriteResponse` with the response's status.
pub record Written : Type 0 where
  pub status : ℕ
  pub path : String
  pub size : ℕ
  pub written_at : String

abbrev pub written_status : Mode → ℕ
written_status create = 201
written_status append = 200
written_status replace = 200

abbrev pub response : VaultWriteResult → Written
response w = record {
  status = written_status w.op;
  path = w.path;
  size = w.size;
  written_at = w.written_at;
}

-- `vault_write`, on the file system and `app.state`; the two times are the event's and its payload's.
unfoldable pub vault_write :
    Library → Stamp → String → String → WriteRequest → Exec (FileSystem × App) Written
unfolding write publish_quietly
vault_write lib published changed_at actor r (fs, app) =
    let (result, fs') = write lib r fs in
    elim result [
      | err e ↦ (err e, (fs', app))
      | ok w ↦
          let (_, app') =
            publish_quietly published "vault.changed"
              (("path", w.path) ∷ ("op", mode_name w.op) ∷ ("changed_at", changed_at) ∷ []) actor
              app in
          (ok (response w), (fs', app'))
    ]
