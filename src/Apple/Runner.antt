-- ===== src/Apple/Runner.antt =====
-- `run_osascript` of bridge/src/bridge/providers/apple/runner.py. The subprocess is a parameter: how it
-- ends, and what its two streams decode to.
use open_claw_bridge.Prelude.{
  ℕ, String, true, Option, none, some, List, [], ◌∷◌, ◌==◌, if◌then◌else◌, take_text, is_space,
}
use open_claw_bridge.Errors.{Result, ok, err, error, dependency_unavailable, text, number, flag}

abbrev pub Text : Type 0
Text = List ℕ

-- `OSASCRIPT_BIN`
abbrev pub osascript_bin : String
osascript_bin = "osascript"

-- `_STDERR_SNIPPET_LIMIT`
abbrev pub stderr_snippet_limit : ℕ
stderr_snippet_limit = 500

-- `stdout` is none where the bytes are not UTF-8; `stderr` has their replacements.
pub record Finished : Type 0 where
  pub returncode : ℕ
  pub stdout : Option Text
  pub stderr : String

-- What `create_subprocess_exec` and `wait_for` raise, or the process that ended.
pub data Process : Type 0 where
  file_not_found : Process
  timed_out : Process
  finished : Finished → Process

unfoldable pub lstrip : Text → Text
unfolding is_space
lstrip [] = []
lstrip (c ∷ s) = if is_space c then lstrip s else c ∷ s

unfoldable pub rstrip : Text → Text
unfolding is_space
rstrip [] = []
rstrip (c ∷ s) = elim (rstrip s) [ [] ↦ if is_space c then [] else c ∷ [] | d ∷ r ↦ c ∷ d ∷ r ]

-- `str.strip`
unfoldable pub strip : Text → Text
unfolding lstrip rstrip
strip s = rstrip (lstrip s)

-- From the return code on. `timeout_s` is in milliseconds.
unfoldable pub output : Finished → Result Text
unfolding strip
output p =
    if p.returncode == 0
    then elim p.stdout [
      | some stdout ↦ ok (strip stdout)
      | none ↦ err (
          error dependency_unavailable "osascript stdout was not valid utf-8."
            (("decode_error", flag true) ∷ []))
    ]
    else err (
        error dependency_unavailable "osascript exited non-zero." (
          ("exit_code", number p.returncode)
          ∷ ("stderr", text (take_text stderr_snippet_limit p.stderr))
          ∷ []))

unfoldable pub run_osascript : (timeout_s : ℕ) → (Text → Process) → Text → Result Text
unfolding output
run_osascript timeout_s osascript script = elim (osascript script) [
  | file_not_found ↦ err (
      error dependency_unavailable "osascript binary not found."
        (("missing", text osascript_bin) ∷ []))
  | timed_out ↦ err (
      error dependency_unavailable "osascript timed out."
        (("timeout", flag true) ∷ ("timeout_s", number timeout_s) ∷ []))
  | finished p ↦ output p
]
