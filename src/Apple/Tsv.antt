-- ===== src/Apple/Tsv.antt =====
-- `_parse_tsv` of bridge/src/bridge/providers/apple/calendar.py: the records that a script prints.
pub mod Cut
use open_claw_bridge.Prelude.{
  ℕ, Bool, true, false, Option, none, some, List, [], ◌∷◌, map, ◌==◌, if◌then◌else◌, filter,
}
use open_claw_bridge.Apple.Runner.{Text}

-- `FS` and `RS`
abbrev pub fs : ℕ
fs = 31

abbrev pub rs : ℕ
rs = 30

-- `c` in front of the first part.
unfoldable pub onto : ℕ → List Text → List Text
onto c [] = (c ∷ []) ∷ []
onto c (p ∷ ps) = (c ∷ p) ∷ ps

-- `s.split(sep)`
unfoldable pub split : ℕ → Text → List Text
unfolding onto
split sep [] = [] ∷ []
split sep (c ∷ s) = let rest = split sep s in if c == sep then [] ∷ rest else onto c rest

abbrev pub is_filled : Text → Bool
is_filled [] = false
is_filled (c ∷ s) = true

-- `_parse_tsv`; of the empty text `split` gives one empty record, which is dropped too.
unfoldable pub parse_tsv : Text → List (List Text)
unfolding split
parse_tsv raw = if is_filled raw then map (split fs) (filter is_filled (split rs raw)) else []

-- `s or None`
unfoldable pub optional : Text → Option Text
optional [] = none
optional (c ∷ s) = some (c ∷ s)
