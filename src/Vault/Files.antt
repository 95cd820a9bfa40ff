-- ===== src/Vault/Files.antt =====
-- The file system as bridge/src/bridge/providers/vault.py uses it, by way of pathlib.
--
-- A path is the list of its segments from the root of the file system; a file system says what stands
-- at each path, where contents are texts. `link` says where a symbolic link leads once it is resolved.
-- An exception of the operating system is the `internal_error` that the bridge answers to it.
use Prim.Native.Char.{code}
use Prim.Native.String
use open_claw_bridge.Prelude.{
  String, Bool, true, false, ◌&&◌, ◌||◌, Option, none, some, List, [], ◌∷◌, ◌++◌, map, str_eq, ◌==◌,
  if◌then◌else◌, is_empty, get_or, is_some, any,
}
use open_claw_bridge.Errors.{ok, err, error, internal_error, BridgeError}
use open_claw_bridge.Server.{Exec}

abbrev pub FilePath : Type 0
FilePath = List String

pub data Node : Type 0 where
  file : (content : String) → Node
  directory : Node

abbrev pub FileSystem : Type 0
FileSystem = FilePath → Option Node

unfoldable pub path_eq : FilePath → FilePath → Bool
path_eq [] [] = true
path_eq [] (y ∷ q) = false
path_eq (x ∷ p) [] = false
path_eq (x ∷ p) (y ∷ q) = str_eq x y && path_eq p q

abbrev pub put_node : FilePath → Node → FileSystem → FileSystem
put_node p n fs q = if path_eq p q then some n else fs q

-- `Path.parents`: every directory above, from the root of the file system.
unfoldable pub parents : FilePath → List FilePath
parents [] = []
parents (x ∷ p) = [] ∷ map (λ q. x ∷ q) (parents p)

-- `Path.parent`
unfoldable pub parent : FilePath → FilePath
parent [] = []
parent (x ∷ []) = []
parent (x ∷ y ∷ p) = x ∷ parent (y ∷ p)

-- Whether `candidate.relative_to(root)` returns, by the root.
unfoldable pub is_under : FilePath → FilePath → Bool
is_under [] q = true
is_under (x ∷ p) [] = false
is_under (x ∷ p) (y ∷ q) = str_eq x y && is_under p q

abbrev pub before_first : String → List String → List String
before_first c [] = c ∷ []
before_first c (s ∷ rest) = String.◌++◌ c s ∷ rest

-- The segments between slashes.
unfoldable pub segments : String → List String
segments String.[] = "" ∷ []
segments (String.◌∷◌ c s) =
    let rest = segments s in
    if code c == 47 then "" ∷ rest else before_first (String.◌∷◌ c String.[]) rest

abbrev pub starts_with_slash : String → Bool
starts_with_slash String.[] = false
starts_with_slash (String.◌∷◌ c s) = code c == 47

unfoldable pub ends_with_newline : String → Bool
ends_with_newline String.[] = false
ends_with_newline (String.◌∷◌ c String.[]) = code c == 10
ends_with_newline (String.◌∷◌ c (String.◌∷◌ d s)) = ends_with_newline (String.◌∷◌ d s)

abbrev pub os_error : BridgeError
os_error = error internal_error "Internal server error." []

abbrev pub exists : FilePath → FileSystem → Bool
exists p fs = is_some (fs p)

unfoldable pub is_file : Option Node → Bool
is_file none = false
is_file (some directory) = false
is_file (some (file t)) = true

-- One segment of `Path.resolve()`.
unfoldable pub enter : (FilePath → Option FilePath) → FilePath → String → FilePath
unfolding parent
enter link cur s =
    if is_empty s || str_eq s "."
    then cur
    else if str_eq s ".."
    then parent cur
    else get_or (link (cur ++ s ∷ [])) (cur ++ s ∷ [])

unfoldable pub walk : (FilePath → Option FilePath) → FilePath → List String → FilePath
unfolding enter
walk link cur [] = cur
walk link cur (s ∷ rest) = walk link (enter link cur s) rest

-- Whether a path is in a list of paths.
unfoldable pub path_mem : FilePath → List FilePath → Bool
unfolding path_eq
path_mem q [] = false
path_mem q (p ∷ ps) = path_eq q p || path_mem q ps

-- `target.parent.mkdir(parents=True, exist_ok=True)`: what is there stays, what is missing becomes a
-- directory.
unfoldable pub with_parents : FilePath → FileSystem → FileSystem
unfolding parents path_mem
with_parents target fs q = elim (fs q) [
  | some n ↦ some n
  | none ↦ if path_mem q (parents target) then some directory else none
]

-- It raises where a file stands in the way.
unfoldable pub mkdir_parent : FilePath → Exec FileSystem (Unit {0})
unfolding with_parents parents is_file
mkdir_parent target fs =
    if any (λ q. is_file (fs q)) (parents target)
    then (err os_error, fs)
    else (ok tt, with_parents target fs)
