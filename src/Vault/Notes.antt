-- ===== src/Vault/Notes.antt =====
-- The vault as a map from paths to texts: what a client of bridge/src/bridge/providers/vault.py sees.
use open_claw_bridge.Prelude.{
  String, utf8_length, ◌||◌, Option, none, some, List, [], ◌∷◌, if◌then◌else◌, concat, is_empty,
}
use open_claw_bridge.Errors.{Result, ok, err, text, error, conflict, not_found}
use open_claw_bridge.Vault.Files.{
  FilePath, FileSystem, Node, file, directory, path_eq, os_error, ends_with_newline,
}
use open_claw_bridge.Vault.Provider.{
  Library, Mode, create, append, replace, WriteRequest, VaultWriteResult, VaultRead, at_path,
  payload, with_newline, resolve, read, write,
}

abbrev pub Notes : Type 0
Notes = FilePath → Option String

abbrev pub note_of : Option Node → Option String
note_of (some (file t)) = some t
note_of (some directory) = none
note_of none = none

abbrev pub notes : FileSystem → Notes
notes fs p = note_of (fs p)

abbrev pub put_note : FilePath → String → Notes → Notes
put_note p t n q = if path_eq p q then some t else n q

-- The new text on a line of its own, unless the note is empty or ends with a newline.
unfoldable pub joined : String → String → String
unfolding ends_with_newline
joined old content =
    if is_empty old || ends_with_newline old
    then concat (old ∷ content ∷ [])
    else concat (old ∷ "\n" ∷ content ∷ [])

pub data Request : Type 0 where
  reading : (path : String) → Request
  writing : WriteRequest → Request

pub data Answer : Type 0 where
  contents : Result VaultRead → Answer
  written : Result VaultWriteResult → Answer

module _ (lib : Library) where
  unfoldable pub serve : Request → FileSystem → Answer × FileSystem
  unfolding read write
  serve (reading path) fs = (contents (read lib path fs), fs)
  serve (writing r) fs = let (a, fs') = write lib r fs in (written a, fs')

  unfoldable pub run : List Request → FileSystem → List Answer × FileSystem
  unfolding serve
  run [] fs = ([], fs)
  run (q ∷ qs) fs = let (a, fs') = serve q fs in let (rest, fs'') = run qs fs' in (a ∷ rest, fs'')

  -- The text of a note after a write, by its text before.
  unfoldable pub note_after : Mode → WriteRequest → Option String → Result String
  unfolding payload with_newline joined
  note_after create r none = ok (with_newline (payload lib.dumps r.content r.frontmatter))
  note_after create r (some old) = err (
      error conflict (concat ("Vault path already exists: " ∷ r.path ∷ []))
        (("path", text r.path) ∷ ("mode", text "create") ∷ []))
  note_after append r none = ok r.content
  note_after append r (some old) = ok (joined old r.content)
  note_after replace r none = err (
      error not_found (concat ("Vault path does not exist: " ∷ r.path ∷ []))
        (("path", text r.path) ∷ ("mode", text "replace") ∷ []))
  note_after replace r (some old) = ok (with_newline (payload lib.dumps r.content r.frontmatter))

  unfoldable pub revise : WriteRequest → FilePath → Notes → Result VaultWriteResult × Notes
  unfolding note_after
  revise r p n = elim (note_after r.mode r (n p)) [
    | err e ↦ (err e, n)
    | ok t ↦ (
      ok (record { path = r.path; size = utf8_length t; written_at = r.now; op = r.mode }),
      put_note p t n,
    )
  ]

  unfoldable pub consult : String → Option String → Result VaultRead
  consult path none =
      err (error not_found (concat ("Vault path does not exist: " ∷ path ∷ [])) (at_path path))
  consult path (some t) = elim (lib.load t) [
    | none ↦ err os_error
    | some (content, frontmatter) ↦
        ok (record {
          path = path;
          content = content;
          frontmatter = frontmatter;
          size = utf8_length t;
        })
  ]

  -- A request to the map.
  unfoldable pub replay_one : Request → Notes → Answer × Notes
  unfolding resolve revise consult
  replay_one (reading path) n = elim (resolve lib path) [
    | err e ↦ (contents (err e), n)
    | ok p ↦ (contents (consult path (n p)), n)
  ]
  replay_one (writing r) n = elim (resolve lib r.path) [
    | err e ↦ (written (err e), n)
    | ok p ↦ let (a, n') = revise r p n in (written a, n')
  ]

  unfoldable pub replay : List Request → Notes → List Answer × Notes
  unfolding replay_one
  replay [] n = ([], n)
  replay (q ∷ qs) n =
      let (a, n') = replay_one q n in let (rest, n'') = replay qs n' in (a ∷ rest, n'')
