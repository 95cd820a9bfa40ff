-- ===== src/Tests/Notes.antt =====
-- The vault on a small disk.
use open_claw_bridge.Prelude.{
  String, ◌≡◌, refl, Bool, true, none, some, List, [], ◌∷◌, str_eq, if◌then◌else◌, is_space,
  is_blank,
}
use open_claw_bridge.Server.{App}
use open_claw_bridge.Vault.Files.{
  FilePath, FileSystem, directory, parents, path_eq, is_under, walk, segments,
}
use open_claw_bridge.Vault.Provider.{Library, WriteRequest, create, append, resolve, write}
use open_claw_bridge.Vault.Contained.{write-outside}
use open_claw_bridge.Vault.Notes.{Request, reading, writing, notes, run, replay}
use open_claw_bridge.Vault.Refines.{fits, is_note, IsTidy, run-replay}
use open_claw_bridge.Vault.Announced.{Post}

-- A vault, with a link out of it.
abbrev library : FilePath → Library
library root = record {
  root = some root;
  link = λ p. if path_eq p ("vault" ∷ "out" ∷ []) then some ("etc" ∷ []) else none;
  dumps = λ content frontmatter. content;
  load = λ t. some (t, []);
}

abbrev disk : FileSystem
disk [] = some directory
disk (x ∷ p) = none

abbrev request_to : String → WriteRequest
request_to path = record {
  path = path;
  mode = create;
  content = "x";
  frontmatter = none;
  now = "t";
}

write-outside_example :
    (write (library ("vault" ∷ [])) (request_to "out/passwd") disk).1 ("etc" ∷ "passwd" ∷ [])
    ≡ disk ("etc" ∷ "passwd" ∷ [])
unfolding parents is_under
write-outside_example =
    write-outside (library ("vault" ∷ [])) ("vault" ∷ []) ("etc" ∷ "passwd" ∷ [])
      (request_to "out/passwd") disk refl (refl, tt) refl

abbrev is_markdown : String → Bool
is_markdown s = str_eq s "a.md"

disk-kinds : (p : FilePath) → fits is_markdown (is_note is_markdown p) (disk p) ≡ true
disk-kinds [] = refl
disk-kinds (x ∷ p) = refl

disk-IsTidy : IsTidy is_markdown disk
disk-IsTidy = record { kinds = disk-kinds }

abbrev requests : List Request
requests =
    reading "a.md"
    ∷ writing (request_to "a.md")
    ∷ writing
        (record { path = "./a.md"; mode = append; content = "y"; frontmatter = none; now = "t" })
    ∷ writing (request_to "/etc/a.md")
    ∷ reading "b/../a.md"
    ∷ []

run-replay_example :
    ((run (library []) requests disk).0 ≡ (replay (library []) requests (notes disk)).0)
    × (notes (run (library []) requests disk).1 ≡ (replay (library []) requests (notes disk)).1)
    × IsTidy is_markdown (run (library []) requests disk).1
unfolding resolve path_eq is_blank is_space walk segments is_under
run-replay_example =
    run-replay is_markdown (library []) requests disk (refl, (refl, (refl, (refl, (refl, tt)))))
      disk-IsTidy

abbrev posts : List Post
posts =
    record {
      published = record { uuid = "e1"; now = "t" };
      changed_at = "t";
      actor = "brain";
      request = request_to "a.md";
    }
    ∷ []

abbrev app : App
app = record {
  agent_conn = none;
  redis_client =
      some (record { queues = λ k. []; published = []; queue_fault = none; pubsub_fault = none });
}
