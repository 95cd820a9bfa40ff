-- ===== src/Relay/Osascript.antt =====
-- relays/imessage/src/relay/osascript.py: the AppleScript that sends a message, and its escaping. Texts
-- are lists of code points.
use open_claw_bridge.Prelude.{
  ℕ, String, ◌≡◌, refl, inl, inr, Bool, true, false, ◌||◌, Option, none, some, List, [], ◌∷◌, ◌++◌,
  arith, str_eq, ◌==◌, if◌then◌else◌, Bool-cases, any,
}

abbrev pub Text : Type 0
Text = List ℕ

abbrev pub quote : ℕ
quote = 34

abbrev pub backslash : ℕ
backslash = 92

pub data OsascriptError : Type 0 where
  bad_input : OsascriptError
  missing_binary : OsascriptError
  timeout : OsascriptError
  non_zero_exit : OsascriptError

-- `value.replace(c, "\\" + c)` for one character.
unfoldable pub replace : ℕ → Text → Text
replace c [] = []
replace c (x ∷ s) = if x == c then backslash ∷ c ∷ replace c s else x ∷ replace c s

abbrev pub is_forbidden : ℕ → Bool
is_forbidden c = c == 10 || c == 13 || c == 0

-- `_escape`; `none` is the `bad_input` that it raises.
unfoldable pub escape : Text → Option Text
unfolding replace
escape value =
    if any is_forbidden value then none else some (replace quote (replace backslash value))

pub data Service : Type 0 where
  imessage : Service
  sms : Service

-- `service not in ("iMessage", "SMS")`
abbrev pub service_of : String → Option Service
service_of s =
    if str_eq s "iMessage" then some imessage else if str_eq s "SMS" then some sms else none

-- The parts of the script: fixed text, by its number in the source, or an argument between quotes.
pub data Part : Type 0 where
  fixed : (line : ℕ) → Part
  service_type : Service → Part
  argument : Text → Part

-- `script`: the argument's closing quote opens the fixed text behind it.
abbrev pub script : Service → Text → Text → List Part
script s to_e body_e =
    fixed 1 ∷ service_type s ∷ fixed 2 ∷ argument to_e ∷ fixed 3 ∷ argument body_e ∷ fixed 4 ∷ []

-- How the subprocess ends.
pub data Run : Type 0 where
  not_found : Run
  expired : Run
  returned : (code : ℕ) → Run

-- The call of `subprocess.run`, and the test of its return code.
unfoldable pub attempt : List Part → (List Part → Run) → Option OsascriptError × List (List Part)
attempt text osascript = elim (osascript text) [
  | not_found ↦ (some missing_binary, text ∷ [])
  | expired ↦ (some timeout, text ∷ [])
  | returned code ↦ (if code == 0 then none else some non_zero_exit, text ∷ [])
]

-- `send_imessage`, with the scripts that it runs.
unfoldable pub send_imessage :
    (to body : Text) → String → (List Part → Run) → Option OsascriptError × List (List Part)
unfolding escape attempt
send_imessage to body service osascript = elim (service_of service) [
  | none ↦ (some bad_input, [])
  | some s ↦ elim (escape to) [
    | none ↦ (some bad_input, [])
    | some to_e ↦ elim (escape body) [
      | none ↦ (some bad_input, [])
      | some body_e ↦
          let text = script s to_e body_e in
          elim (osascript text) [
            | not_found ↦ (some missing_binary, text ∷ [])
            | expired ↦ (some timeout, text ∷ [])
            | returned code ↦ (if code == 0 then none else some non_zero_exit, text ∷ [])
          ]
    ]
  ]
]

prepend : ℕ → Option (Text × Text) → Option (Text × Text)
prepend c none = none
prepend c (some (v, rest)) = some (c ∷ v, rest)

-- How AppleScript reads a string literal, from behind its opening quote: a backslash stands before the
-- character that it escapes, and the first other quote ends it. The value, and what is behind it.
-- `pending` says that the last character was such a backslash.
unfoldable read_literal : (pending : Bool) → Text → Option (Text × Text)
unfolding prepend
read_literal pending [] = none
read_literal true (c ∷ s) = prepend c (read_literal false s)
read_literal false (c ∷ s) =
    let rest = read_literal false s in
    let next = read_literal true s in
    if c == quote then some ([], s) else if c == backslash then next else prepend c rest

read-replace :
    (s rest : Text)
    → read_literal false (replace quote (replace backslash s) ++ quote ∷ rest) ≡ some (s, rest)
unfolding read_literal replace prepend
read-replace [] rest = refl
read-replace (c ∷ s) rest =
    let ih = read-replace s rest in
    elim (Bool-cases (c == backslash)) [
      | inl e ↦ ground (arith, e, ih)
      | inr e ↦ elim (Bool-cases (c == quote)) [
        | inl f ↦ ground (arith, e, f, ih)
        | inr f ↦ ground (arith, e, f, ih)
      ]
    ]

-- An escaped text cannot leave its literal: AppleScript reads it, up to the closing quote that the
-- script puts behind it, as exactly the text that was escaped. Whatever the text and the rest of the
-- script hold.
read-escape :
    (value value_e rest : Text)
    → escape value ≡ some value_e
    → read_literal false (value_e ++ quote ∷ rest) ≡ some (value, rest)
unfolding escape
read-escape value value_e rest e = ground (arith, e, read-replace value rest)
