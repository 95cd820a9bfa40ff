-- ===== src/Apple/Script.antt =====
-- The scripts that the providers run: `_escape` and `_format_dt` of
-- bridge/src/bridge/providers/apple/calendar.py, and the f-strings that put a script together.
use open_claw_bridge.Prelude.{
  ℕ, zero, suc, ◌+◌, ◌/◌, ◌%◌, String, Bool, true, false, not, ◌&&◌, Option, none, some, List, [],
  ◌∷◌, ◌++◌, ltb, ◌==◌, if◌then◌else◌, take_text, any,
}
use open_claw_bridge.Errors.{BridgeError, Result, error, bad_request, text}
use open_claw_bridge.Server.{Exec, pure, raise, ◌>>=◌}
use open_claw_bridge.Relay.Osascript.{quote, backslash, is_forbidden, replace}
use open_claw_bridge.Relay.Outbound.{codes}
use open_claw_bridge.Apple.Runner.{Text}

-- The scripts that ran.
abbrev pub Log : Type 0
Log = List Text

abbrev pub Runner : Type 0
Runner = Text → Result Text

-- `await self._run(script)`
abbrev pub run : Runner → Text → Exec Log Text
run runner script log = (runner script, log ++ script ∷ [])

-- A piece of a script: code without a quote, as it stands in the source or computed, or what stands
-- between two quotes.
pub data Part : Type 0 where
  raw : String → Part
  chars : Text → Part
  quoted : Text → Part

unfoldable pub render : List Part → Text
render [] = []
render (raw s ∷ ps) = codes s ++ render ps
render (chars t ∷ ps) = t ++ render ps
render (quoted e ∷ ps) = quote ∷ (e ++ quote ∷ render ps)

-- `sep.join(blocks)`
unfoldable pub join : String → List (List Part) → List Part
join sep [] = []
join sep (b ∷ []) = b
join sep (b ∷ c ∷ bs) = b ++ raw sep ∷ join sep (c ∷ bs)

-- The two calls of `replace` in `_escape`.
unfoldable pub escaped : Text → Text
unfolding replace
escaped s = replace quote (replace backslash s)

unfoldable pub is_clean : String → Bool
is_clean s = not (any is_forbidden (codes s))

-- What the two helpers raise.
unfoldable pub unclean : String → BridgeError
unclean value =
    error bad_request "AppleScript strings cannot contain newlines or null bytes."
      (("value_preview", text (take_text 50 value)) ∷ [])

unfoldable pub invalid_date : String → BridgeError
invalid_date iso = error bad_request "Invalid ISO 8601 date." (("value", text iso) ∷ [])

-- `_escape`
unfoldable pub escape : String → Exec Log Text
unfolding is_clean escaped unclean
escape value = if is_clean value then pure (escaped (codes value)) else raise (unclean value)

-- `datetime.fromisoformat` and `strftime("%Y-%m-%d %H:%M:%S")`, which is none where the first raises.
abbrev pub Reformat : Type 0
Reformat = String → Option Text

-- `_format_dt`
unfoldable pub format_dt : Reformat → String → Exec Log Text
unfolding invalid_date
format_dt reformat iso = elim (reformat iso) [ some dt ↦ pure dt | none ↦ raise (invalid_date iso) ]

-- `if v is not None: blocks.append(...)`, with the block that `f` builds.
abbrev pub setter :
    {A : Type 0} → (A → Exec Log (List Part)) → Option A → Exec Log (List (List Part))
setter f none = pure []
setter f (some v) = f v >>= λ block. pure (block ∷ [])

-- A block that ends with an escaped text, and one with a date.
unfoldable pub text_block : (before : String) → String → Exec Log (List Part)
text_block before v = do v_e ← escape v; pure (raw before ∷ quoted v_e ∷ [])

unfoldable pub date_block : Reformat → (before : String) → String → Exec Log (List Part)
date_block reformat before v = do
  d ← format_dt reformat v
  pure (raw before ∷ quoted d ∷ raw ")" ∷ [])

-- `a == b` on texts.
unfoldable pub same : Text → Text → Bool
same [] [] = true
same (a ∷ s) (b ∷ t) = a == b && same s t
same _ _ = false

-- `str(n)`, with fuel.
unfoldable pub decimal_on : ℕ → ℕ → Text
decimal_on zero n = []
decimal_on (suc f) n =
    let front = decimal_on f (n / 10) in
    if ltb n 10 then (48 + n) ∷ [] else front ++ (48 + n % 10) ∷ []

unfoldable pub decimal : ℕ → Text
unfolding decimal_on
decimal n = decimal_on (suc n) n
