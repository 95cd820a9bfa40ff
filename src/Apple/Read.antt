-- ===== src/Apple/Read.antt =====
-- How AppleScript reads a script: the code outside its text literals, with a quote for each of them, and
-- the values of the literals in their order.
use open_claw_bridge.Prelude.{
  ℕ, ◌≡◌, refl, ap, ◌∙◌, inl, inr, Bool, true, false, not, ◌&&◌, Option, none, some, List, [], ◌∷◌,
  ◌++◌, arith, ◌==◌, if◌then◌else◌, Bool-cases, any,
}
use open_claw_bridge.Relay.Osascript.{quote, backslash, replace}
use open_claw_bridge.Relay.Outbound.{codes}
use open_claw_bridge.Apple.Runner.{Text}
use open_claw_bridge.Apple.Script.{Part, raw, chars, quoted, render, escaped}

pub data Mode : Type 0 where
  outside inside pending : Mode

abbrev pub Meaning : Type 0
Meaning = Text × List Text

-- A character of the code, a quote that opens a literal, the end of a literal, and a character of it.
add_code : ℕ → Option Meaning → Option Meaning
add_code c none = none
add_code c (some (code, values)) = some (c ∷ code, values)

close : Option Meaning → Option Meaning
close none = none
close (some (code, values)) = some (code, [] ∷ values)

add_value : ℕ → Option Meaning → Option Meaning
add_value c none = none
add_value c (some (code, [])) = none
add_value c (some (code, v ∷ values)) = some (code, (c ∷ v) ∷ values)

-- A backslash stands before the character that it escapes. `none` is a literal that does not end.
unfoldable pub read : Mode → Text → Option Meaning
unfolding add_code close add_value
read outside [] = some ([], [])
read inside [] = none
read pending [] = none
read outside (c ∷ s) =
    let literal = read inside s in
    let rest = read outside s in if c == quote then add_code quote literal else add_code c rest
read inside (c ∷ s) =
    let rest = read outside s in
    let next = read pending s in
    let more = read inside s in
    if c == quote then close rest else if c == backslash then next else add_value c more
read pending (c ∷ s) = add_value c (read inside s)

-- What the parts say, if no text in them were escaped.
unfoldable pub meant : List Part → Meaning
meant [] = ([], [])
meant (raw s ∷ ps) = let (code, values) = meant ps in (codes s ++ code, values)
meant (chars t ∷ ps) = let (code, values) = meant ps in (t ++ code, values)
meant (quoted v ∷ ps) = let (code, values) = meant ps in (quote ∷ code, v ∷ values)

-- The parts with their texts escaped.
unfoldable pub escape_all : List Part → List Part
unfolding escaped
escape_all [] = []
escape_all (raw s ∷ ps) = raw s ∷ escape_all ps
escape_all (chars t ∷ ps) = chars t ∷ escape_all ps
escape_all (quoted v ∷ ps) = quoted (escaped v) ∷ escape_all ps

abbrev pub has_quote : Text → Bool
has_quote = any (λ c. c == quote)

-- No code holds a quote.
unfoldable pub is_plain : List Part → Bool
is_plain [] = true
is_plain (raw s ∷ ps) = not (has_quote (codes s)) && is_plain ps
is_plain (chars t ∷ ps) = not (has_quote t) && is_plain ps
is_plain (quoted v ∷ ps) = is_plain ps

with_value : Text → Option Meaning → Option Meaning
with_value v none = none
with_value v (some (code, values)) = some (code, v ∷ values)

add_value-with_value :
    (c : ℕ) (v : Text) (m : Option Meaning) → add_value c (with_value v m) ≡ with_value (c ∷ v) m
unfolding add_value with_value
add_value-with_value c v none = refl
add_value-with_value c v (some m) = refl

close-with_value : (m : Option Meaning) → close m ≡ with_value [] m
unfolding close with_value
close-with_value none = refl
close-with_value (some m) = refl

-- An escaped character, and how it is read inside a literal.
read_step :
    (c : ℕ) (s rest : Text)
    → read inside (escaped (c ∷ s) ++ rest) ≡ add_value c (read inside (escaped s ++ rest))
unfolding read escaped replace
read_step c s rest = elim (Bool-cases (c == backslash)) [
  | inl e ↦ ground (arith, e)
  | inr e ↦ elim (Bool-cases (c == quote)) [
    | inl f ↦ ground (arith, e, f)
    | inr f ↦ ground (arith, e, f)
  ]
]

read-quote : (rest : Text) → read inside (quote ∷ rest) ≡ close (read outside rest)
unfolding read
read-quote rest = refl

read-escaped :
    (s rest : Text) → read inside (escaped s ++ quote ∷ rest) ≡ with_value s (read outside rest)
read-escaped [] rest =
    unfold escaped replace in read-quote rest ∙ close-with_value (read outside rest)
read-escaped (c ∷ s) rest =
    read_step c s (quote ∷ rest)
    ∙ ap (add_value c) (read-escaped s rest)
    ∙ add_value-with_value c s (read outside rest)

read_code :
    (s rest : Text) (code : Text) (values : List Text)
    → has_quote s ≡ false
    → read outside rest ≡ some (code, values)
    → read outside (s ++ rest) ≡ some (s ++ code, values)
unfolding read add_code
read_code [] rest code values h e = e
read_code (c ∷ s) rest code values h e = ground (arith, read_code s rest code values)

read_literal :
    (v rest : Text) (m : Meaning)
    → read outside rest ≡ some m
    → read outside (quote ∷ (escaped v ++ quote ∷ rest)) ≡ some (quote ∷ m.0, v ∷ m.1)
unfolding read add_code with_value
read_literal v rest m e = rw (read-escaped v rest, e) refl

-- A script with its texts escaped is read as it is meant.
pub read-render :
    (ps : List Part) → is_plain ps ≡ true → read outside (render (escape_all ps)) ≡ some (meant ps)
unfolding render escape_all meant is_plain
read-render [] h = unfold read in refl
read-render (raw s ∷ ps) h =
    read_code (codes s) (render (escape_all ps)) (meant ps).0 (meant ps).1 (ground arith)
      (read-render ps (ground arith))
read-render (chars t ∷ ps) h =
    read_code t (render (escape_all ps)) (meant ps).0 (meant ps).1 (ground arith)
      (read-render ps (ground arith))
read-render (quoted v ∷ ps) h =
    read_literal v (render (escape_all ps)) (meant ps) (read-render ps h)
