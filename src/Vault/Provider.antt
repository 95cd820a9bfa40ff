-- ===== src/Vault/Provider.antt =====
-- `VaultProvider` of bridge/src/bridge/providers/vault.py. What YAML reads and prints
-- (python-frontmatter) is a parameter.
use open_claw_bridge.Prelude.{
  ℕ, String, utf8_length, Bool, not, ◌&&◌, Option, none, some, [], ◌∷◌, if◌then◌else◌, concat,
  is_empty, is_blank,
}
use open_claw_bridge.Errors.{
  Result, ok, err, Details, text, error, bad_request, conflict, not_found, dependency_unavailable,
  BridgeError,
}
use open_claw_bridge.Server.{Exec, ◌>>◌}
use open_claw_bridge.Vault.Files.{
  FilePath, Node, file, directory, FileSystem, path_eq, put_node, is_under, segments,
  starts_with_slash, ends_with_newline, os_error, exists, walk, mkdir_parent,
}

abbrev pub at_path : String → Details
at_path rel_path = ("path", text rel_path) ∷ []

-- `WriteMode`
pub data Mode : Type 0 where
  create : Mode
  append : Mode
  replace : Mode

abbrev pub mode_name : Mode → String
mode_name create = "create"
mode_name append = "append"
mode_name replace = "replace"

-- `VaultWriteRequest`, with the time that the file's `stat` shows.
pub record WriteRequest : Type 0 where
  pub path : String
  pub mode : Mode
  pub content : String
  pub frontmatter : Option Details
  pub now : String

pub record VaultRead : Type 0 where
  pub path : String
  pub content : String
  pub frontmatter : Details
  pub size : ℕ

pub record VaultWriteResult : Type 0 where
  pub path : String
  pub size : ℕ
  pub written_at : String
  pub op : Mode

-- What is not the vault's: the resolved root if it is configured, links, and python-frontmatter, whose
-- `load` is none where it raises.
pub record Library : Type 0 where
  pub root : Option FilePath
  pub link : FilePath → Option FilePath
  pub dumps : String → Details → String
  pub load : String → Option (String × Details)

-- The text that `_do_create_or_replace` writes.
unfoldable pub payload : (String → Details → String) → String → Option Details → String
payload dumps content none = content
payload dumps content (some []) = content
payload dumps content (some (d ∷ ds)) = dumps content (d ∷ ds)

unfoldable pub with_newline : String → String
unfolding ends_with_newline
with_newline s = if ends_with_newline s then s else concat (s ∷ "\n" ∷ [])

-- The text of the file after `_do_append`, by its text before.
unfoldable pub appended : String → String → String
unfolding ends_with_newline
appended old content =
    let prefix : String = if not (is_empty old) && not (ends_with_newline old) then "\n" else "" in
    concat (old ∷ concat (prefix ∷ content ∷ []) ∷ [])

-- The new text of the file; `none` is the error of opening a directory.
unfoldable pub new_text : (String → Details → String) → WriteRequest → Option Node → Option String
unfolding payload with_newline appended
new_text dumps r (some directory) = none
new_text dumps r none = elim r.mode [
  | append ↦ some r.content
  | _ ↦ some (with_newline (payload dumps r.content r.frontmatter))
]
new_text dumps r (some (file old)) = elim r.mode [
  | append ↦ some (appended old r.content)
  | _ ↦ some (with_newline (payload dumps r.content r.frontmatter))
]

-- `_do_append` and `_do_create_or_replace`
unfoldable pub write_text :
    (String → Details → String) → WriteRequest → FilePath → Exec FileSystem VaultWriteResult
unfolding new_text path_eq
write_text dumps r target fs = elim (new_text dumps r (fs target)) [
  | none ↦ (err os_error, fs)
  | some t ↦ (
    ok (record { path = r.path; size = utf8_length t; written_at = r.now; op = r.mode }),
    put_node target (file t) fs,
  )
]

module _ (lib : Library) where
  -- `resolve`
  unfoldable pub resolve : String → Result FilePath
  unfolding is_blank walk segments is_under
  resolve rel_path =
      if is_blank rel_path
      then err (error bad_request "Vault path must be non-empty." [])
      else if starts_with_slash rel_path
      then err
          (error bad_request "Vault path must be relative to the vault root." (at_path rel_path))
      else elim lib.root [
        | none ↦
            err (error dependency_unavailable "Vault is not configured (OBSIDIAN_VAULT unset)." [])
        | some root ↦
            let candidate = walk lib.link root (segments rel_path) in
            if is_under root candidate
            then ok candidate
            else err (error bad_request "Vault path escapes the vault root." (at_path rel_path))
      ]

  -- `VaultProvider.read`
  unfoldable pub read : String → FileSystem → Result VaultRead
  unfolding resolve
  read rel_path fs = elim (resolve rel_path) [
    | err e ↦ err e
    | ok target ↦ elim (fs target) [
      | some (file t) ↦ elim (lib.load t) [
        | none ↦ err os_error
        | some (content, frontmatter) ↦ ok (record {
          path = rel_path;
          content = content;
          frontmatter = frontmatter;
          size = utf8_length t;
        })
      ]
      | _ ↦ err (
          error not_found (concat ("Vault path does not exist: " ∷ rel_path ∷ []))
            (at_path rel_path))
    ]
  ]

  -- The two guards of `write` on what stands at the target.
  unfoldable pub check_mode : WriteRequest → Bool → Option BridgeError
  check_mode r present = elim r.mode [
    | create ↦
        if present
        then some (
            error conflict (concat ("Vault path already exists: " ∷ r.path ∷ []))
              (("path", text r.path) ∷ ("mode", text "create") ∷ []))
        else none
    | append ↦ none
    | replace ↦
        if present
        then none
        else some (
            error not_found (concat ("Vault path does not exist: " ∷ r.path ∷ []))
              (("path", text r.path) ∷ ("mode", text "replace") ∷ []))
  ]

  -- `VaultProvider.write`
  unfoldable pub write : WriteRequest → Exec FileSystem VaultWriteResult
  unfolding resolve check_mode mkdir_parent write_text
  write r fs = elim (resolve r.path) [
    | err e ↦ (err e, fs)
    | ok target ↦ elim (check_mode r (exists target fs)) [
      | some e ↦ (err e, fs)
      | none ↦ (mkdir_parent target >> write_text lib.dumps r target) fs
    ]
  ]
