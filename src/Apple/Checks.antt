-- ===== src/Apple/Checks.antt =====
-- What the providers do before a script runs, step by step: a step passes with its value, or raises
-- `bad_request`. What it does with the script: none runs, or one that AppleScript reads as it is meant.
use open_claw_bridge.Prelude.{
  String, ◌≡◌, refl, ap, ◌∙◌, ◌⊎◌, inl, inr, Bool, true, false, ◌&&◌, ◌||◌, Option, none, some,
  List, [], ◌∷◌, ◌++◌, arith, ◌==◌, Bool-cases, Option-cases, get_or, is_some, any,
}
use open_claw_bridge.Errors.{Result, ok, err, BridgeError, bad_request}
use open_claw_bridge.Server.{Exec, pure, ◌>>=◌}
use open_claw_bridge.Relay.Osascript.{quote, backslash, replace}
use open_claw_bridge.Relay.Outbound.{codes}
use open_claw_bridge.Apple.Runner.{Text}
use open_claw_bridge.Apple.Script.{
  unclean, invalid_date, Log, Runner, Part, render, escaped, is_clean, escape, Reformat, format_dt,
  setter,
}
use open_claw_bridge.Apple.Read.{Meaning, meant, read, outside, escape_all, is_plain, read-render}

-- The step ended with `bad_request`, and no script ran.
abbrev pub Rejects : {A : Type 0} → Exec Log A → Log → Type 0
Rejects m log = (e : BridgeError) × (e.kind ≡ bad_request) × (m log ≡ (err e, log))

-- The step passes exactly if `c` holds, and then has the value `a`.
abbrev pub Checks : {A : Type 0} → Bool → A → Exec Log A → Type 0
Checks c a m = (log : Log) → ((c ≡ true) × (m log ≡ (ok a, log))) ⊎ ((c ≡ false) × Rejects m log)

pub pure-Checks : {A : Type 0} (a : A) → Checks true a (pure a)
pure-Checks a log = inl (refl, refl)

pub bind-ok :
    {A B : Type 0} {a : A} {log log' : Log} (m : Exec Log A) (f : A → Exec Log B)
    → m log ≡ (ok a, log')
    → (m >>= f) log ≡ f a log'
bind-ok {A} {B} m f e =
    ap (λ (x : Result A × Log). elim (x.0) [ ok a ↦ f a (x.1) | err e ↦ (err e, x.1) ]) e

bind-err :
    {A B : Type 0} {err' : BridgeError} {log log' : Log} (m : Exec Log A) (f : A → Exec Log B)
    → m log ≡ (err err', log')
    → (m >>= f) log ≡ (err err', log')
bind-err {A} {B} m f e =
    ap (λ (x : Result A × Log). elim (x.0) [ ok a ↦ f a (x.1) | err e ↦ (err e, x.1) ]) e

pub bind-Checks :
    {A B : Type 0} {c d : Bool} {a : A} {b : B} (m : Exec Log A) (f : A → Exec Log B)
    → Checks c a m
    → Checks d b (f a)
    → Checks (c && d) b (m >>= f)
bind-Checks {A} {B} {c} {d} {a} {b} m f p q log = elim (p log) [
  | inl (x, e) ↦ elim (q log) [
    | inl (y, g) ↦ inl (ground arith, bind-ok m f e ∙ g)
    | inr (y, r) ↦ inr (ground arith, (r.0, r.1, bind-ok m f e ∙ r.2))
  ]
  | inr (x, r) ↦ inr (ground arith, (r.0, r.1, bind-err m f (r.2)))
]

pub escape-Checks : (s : String) → Checks (is_clean s) (escaped (codes s)) (escape s)
unfolding escape unclean
escape-Checks s log = elim (Bool-cases (is_clean s)) [
  | inl e ↦ inl (e, rw e refl)
  | inr e ↦ inr (e, (unclean s, refl, rw e refl))
]

-- A date as it is put into a script, or the empty text.
abbrev pub date_of : Reformat → String → Text
date_of reformat iso = get_or (reformat iso) []

-- The dates that `strftime` prints hold no quote and no backslash.
abbrev pub PrintsPlain : Reformat → Type 0
PrintsPlain reformat =
    (iso : String) (d : Text)
    → reformat iso ≡ some d
    → any (λ c. c == quote || c == backslash) d ≡ false

escaped-plain : (d : Text) → any (λ c. c == quote || c == backslash) d ≡ false → escaped d ≡ d
unfolding escaped replace
escaped-plain [] h = refl
escaped-plain (c ∷ d) h = ground (arith, escaped-plain d)

pub format_dt-Checks :
    (reformat : Reformat) (iso : String)
    → PrintsPlain reformat
    → Checks (is_some (reformat iso)) (escaped (date_of reformat iso)) (format_dt reformat iso)
unfolding format_dt invalid_date
format_dt-Checks reformat iso plain log = elim (Option-cases (reformat iso)) [
  | inl e ↦ inr (rw e refl, (invalid_date iso, refl, rw (e, format_dt) refl))
  | inr (d, e) ↦ inl (rw e refl, rw (e, escaped-plain d (plain iso d e), format_dt) refl)
]

-- All is well with an argument that is left out.
abbrev pub all_of : {A : Type 0} → (A → Bool) → Option A → Bool
all_of p none = true
all_of p (some a) = p a

abbrev pub block_of : {A : Type 0} → (A → List Part) → Option A → List (List Part)
block_of f none = []
block_of f (some a) = f a ∷ []

pub setter-Checks :
    {A : Type 0} (f : A → Exec Log (List Part)) (p : A → Bool) (b : A → List Part) (v : Option A)
    → ((a : A) → Checks (p a) (b a) (f a))
    → Checks (all_of p v) (block_of b v) (setter f v)
setter-Checks f p b none h log = inl (refl, refl)
setter-Checks f p b (some a) h log =
    let keep : List Part → Exec Log (List (List Part)) = λ block. pure (block ∷ []) in
    elim (h a log) [
      | inl (x, e) ↦ inl (x, bind-ok (f a) keep e)
      | inr (x, r) ↦ inr (x, (r.0, r.1, bind-err (f a) keep (r.2)))
    ]

-- One script ran, which AppleScript reads as `m`, and `answer` made the result of the script's.
abbrev pub Launches :
    {A : Type 0} → Meaning → Runner → (Result Text → Result A) → Exec Log A → Log → Type 0
Launches m runner answer op log =
    (s : Text) × (read outside s ≡ some m) × (op log ≡ (answer (runner s), log ++ s ∷ []))

-- If `c` holds then a script runs; otherwise the operation ends with `bad_request` and none runs.
abbrev pub Runs :
    {A : Type 0} → Bool → Meaning → Runner → (Result Text → Result A) → Exec Log A → Type 0
Runs c m runner answer op =
    (log : Log) → ((c ≡ true) × Launches m runner answer op log) ⊎ ((c ≡ false) × Rejects op log)

pub bind-Runs :
    {A B : Type 0} {c d : Bool} {a : A} {m : Meaning} (runner : Runner)
    (answer : Result Text → Result B) (step : Exec Log A) (f : A → Exec Log B)
    → Checks c a step
    → Runs d m runner answer (f a)
    → Runs (c && d) m runner answer (step >>= f)
bind-Runs runner answer step f p q log = elim (p log) [
  | inl (x, e) ↦ elim (q log) [
    | inl (y, r) ↦ inl (ground arith, (r.0, r.1, bind-ok step f e ∙ r.2))
    | inr (y, r) ↦ inr (ground arith, (r.0, r.1, bind-ok step f e ∙ r.2))
  ]
  | inr (x, r) ↦ inr (ground arith, (r.0, r.1, bind-err step f (r.2)))
]

-- The end of a chain: the script is run.
pub run-Runs :
    {A : Type 0} (ps : List Part) (runner : Runner) (answer : Result Text → Result A)
    (op : Exec Log A)
    → is_plain ps ≡ true
    → ((log : Log)
        → op log ≡ (answer (runner (render (escape_all ps))), log ++ render (escape_all ps) ∷ []))
    → Runs true (meant ps) runner answer op
run-Runs ps runner answer op h e log = inl (refl, (render (escape_all ps), read-render ps h, e log))

-- The steps in front of `tail` all pass exactly if `c` holds.
abbrev pub Passes : {A : Type 0} → Bool → Exec Log A → Exec Log A → Type 0
Passes c tail op = (log : Log) → ((c ≡ true) × (op log ≡ tail log)) ⊎ ((c ≡ false) × Rejects op log)

pub tail-Passes : {A : Type 0} (tail : Exec Log A) → Passes true tail tail
tail-Passes tail log = inl (refl, refl)

pub bind-Passes :
    {A B : Type 0} {c d : Bool} {a : A} (tail : Exec Log B) (step : Exec Log A) (f : A → Exec Log B)
    → Checks c a step
    → Passes d tail (f a)
    → Passes (c && d) tail (step >>= f)
bind-Passes tail step f p q log = elim (p log) [
  | inl (x, e) ↦ elim (q log) [
    | inl (y, g) ↦ inl (ground arith, bind-ok step f e ∙ g)
    | inr (y, r) ↦ inr (ground arith, (r.0, r.1, bind-ok step f e ∙ r.2))
  ]
  | inr (x, r) ↦ inr (ground arith, (r.0, r.1, bind-err step f (r.2)))
]

pub Passes-Runs :
    {A : Type 0} {c : Bool} {m : Meaning} (runner : Runner) (answer : Result Text → Result A)
    (tail op : Exec Log A)
    → Passes c tail op
    → Runs true m runner answer tail
    → Runs c m runner answer op
Passes-Runs runner answer tail op p q log = elim (p log) [
  | inl (x, e) ↦ elim (q log) [
    | inl (y, r) ↦ inl (x, (r.0, r.1, e ∙ r.2))
    | inr (y, r) ↦ absurd (ground arith)
  ]
  | inr other ↦ inr other
]

pub Passes-Checks :
    {A : Type 0} {c : Bool} {a : A} (tail op : Exec Log A)
    → Passes c tail op
    → ((log : Log) → tail log ≡ (ok a, log))
    → Checks c a op
Passes-Checks tail op p q log = elim (p log) [
  | inl (x, e) ↦ inl (x, e ∙ q log)
  | inr other ↦ inr other
]

pub Runs-and_true :
    {A : Type 0} {c : Bool} {m : Meaning} (runner : Runner) (answer : Result Text → Result A)
    (op : Exec Log A)
    → Runs (c && true) m runner answer op
    → Runs c m runner answer op
Runs-and_true {A} {c} runner answer op p log = elim (p log) [
  | inl (x, r) ↦ inl (ground arith, r)
  | inr (x, r) ↦ inr (ground arith, r)
]
