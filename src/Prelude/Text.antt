-- ===== src/Prelude/Text.antt =====
-- Texts: Python's `str` where it is compared, concatenated or cut.
use Prim.Native.Nat.{ℕ, zero, suc}
use Prim.Native.Char.{code}
use Prim.Native.String
use Prim.Native.String.{String}
use text.Mathlib.TextLemmas.{append-nil, nil-append}
use mathlib.Core.Path.{◌≡◌}
use mathlib.Core.Bool.{Bool, ◌||◌, ◌&&◌}
use mathlib.Core.List.{List, [], ◌∷◌}
use text.Mathlib.Text.{◌==◌}
use open_claw_bridge.Prelude.Tests.{if◌then◌else◌, leb, ◌==◌ as eqb}

-- An f-string of these parts.
abbrev pub concat : List String → String
concat [] = ""
concat (s ∷ rest) = String.◌++◌ s (concat rest)

pub concat_one : (s : String) → concat (s ∷ []) ≡ s
concat_one s = append-nil s

pub concat_nil : (s : String) (rest : List String) → concat ("" ∷ s ∷ rest) ≡ concat (s ∷ rest)
concat_nil s rest = nil-append (concat (s ∷ rest))

-- `s[:n]`, by characters.
abbrev pub take_text : ℕ → String → String
take_text zero s = ""
take_text (suc n) String.[] = ""
take_text (suc n) (String.◌∷◌ c s) = String.◌∷◌ c (take_text n s)

-- `not s`
abbrev pub is_empty : String → Bool
is_empty s = s == ""

-- `s or d`
abbrev pub or_else : String → String → String
or_else s d = if is_empty s then d else s

abbrev pub text_mem : String → List String → Bool
text_mem s [] = Bool.false
text_mem s (t ∷ ts) = if t == s then Bool.true else text_mem s ts

-- `c.isspace()` on a code point; `strip` removes these.
unfoldable pub is_space : ℕ → Bool
is_space c =
    leb 9 c && leb c 13
    || leb 28 c && leb c 32
    || eqb c 133
    || eqb c 160
    || eqb c 5760
    || leb 8192 c && leb c 8202
    || leb 8232 c && leb c 8233
    || eqb c 8239
    || eqb c 8287
    || eqb c 12288

-- `not s.strip()`
unfoldable pub is_blank : String → Bool
unfolding is_space
is_blank String.[] = Bool.true
is_blank (String.◌∷◌ c s) = is_space (code c) && is_blank s
