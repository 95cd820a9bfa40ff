-- ===== src/Apple/Calendar/Changes.antt =====
-- `update_event` and `delete_event`: the script that looks an event up, and what they do with its answer.
use mathlib.Core.Path.{subst}
use open_claw_bridge.Prelude.{
  String, ◌≡◌, refl, sym, ap, ◌∙◌, ◌≢◌, ◌⊎◌, inl, inr, Bool, true, ◌&&◌, List, [], ◌∷◌, ◌++◌, map,
  arith, if◌then◌else◌, is_some, All,
}
use open_claw_bridge.Errors.{Result-cases, Result, ok, err, BridgeError}
use open_claw_bridge.Server.{◌>>=◌}
use open_claw_bridge.Relay.Outbound.{codes}
use open_claw_bridge.Apple.Runner.{Text}
use open_claw_bridge.Apple.Script.{
  Log, Runner, Part, raw, quoted, render, join, run, escaped, is_clean, escape, Reformat, setter,
  text_block, date_block, same,
}
use open_claw_bridge.Apple.Read.{meant, escape_all, is_plain}
use open_claw_bridge.Apple.Checks.{
  Checks, Runs, PrintsPlain, all_of, block_of, bind-Passes, Passes, Passes-Checks, Passes-Runs,
  Runs-and_true, bind-Runs, run-Runs, escape-Checks, setter-Checks,
}
use open_claw_bridge.Apple.Blocks.{
  text_says, date_says, text_block-Checks, date_block-Checks, escape_all-append, escape_all-join,
  is_plain-append, is_plain-join, map-block_of, block_of-plain, last-plain, map_onto,
}
use open_claw_bridge.Apple.Calendar.{
  find_script, update_event, EventPatch, apply_setters, delete_event, expect_ok, event_not_found,
}

abbrev found_end : List Part
found_end =
    raw "\n      return "
    ∷ quoted (codes "ok")
    ∷ raw "\n    end try\n  end repeat\nend tell\nreturn "
    ∷ quoted (codes "not_found")
    ∷ raw "\n"
    ∷ []

find_script-escape_all :
    (eid : Text) (body : List Part)
    → find_script (escaped eid) (escape_all body) ≡ escape_all (find_script eid body)
unfolding find_script escape_all
find_script-escape_all eid body =
    ap
      (λ (x : List Part).
        escape_all (
          raw "tell application "
          ∷ quoted (codes "Calendar")
          ∷ raw "\n  repeat with cal in calendars\n    try\n"
          ∷ raw "      set evt to (first event of cal whose uid is "
          ∷ quoted eid
          ∷ raw ")\n      "
          ∷ [])
        ++ x)
      (sym (escape_all-append body found_end))

find_script-plain :
    (eid : Text) (body : List Part) → is_plain body ≡ true → is_plain (find_script eid body) ≡ true
unfolding find_script is_plain
find_script-plain eid body h = is_plain-append body found_end h refl

-- What the operations make of the script's answer.
abbrev pub found : BridgeError → Result Text → Result (Unit {0})
found e (ok s) = if same s (codes "ok") then ok tt else err e
found e (err e') = err e'

pub answer_found :
    (runner : Runner) (e : BridgeError) (s : Text) (log : Log)
    → (run runner s >>= expect_ok e) log ≡ (found e (runner s), log ++ s ∷ [])
unfolding expect_ok
answer_found runner e s log = elim (Result-cases (runner s)) [
  | inl (e', g) ↦ ground (arith, g)
  | inr (t, g) ↦ ground (arith, g)
]

find-Runs :
    (runner : Runner) (e : BridgeError) (eid : Text) (body : List Part)
    → is_plain body ≡ true
    → Runs true
        (meant (find_script eid body))
        runner
        (found e)
        (run runner (render (find_script (escaped eid) (escape_all body))) >>= expect_ok e)
find-Runs runner e eid body h =
    run-Runs (find_script eid body) runner (found e) _ (find_script-plain eid body h) (λ log.
      answer_found runner e (render (find_script (escaped eid) (escape_all body))) log
      ∙ ap (λ (x : List Part). (found e (runner (render x)), log ++ render x ∷ []))
          (find_script-escape_all eid body))

delete_event_lem :
    (runner : Runner) (event_id : String)
    → Runs
        (is_clean event_id)
        (meant (find_script (codes event_id) (raw "delete evt" ∷ [])))
        runner
        (found (event_not_found event_id))
        (delete_event runner event_id)
unfolding delete_event is_plain escape_all
delete_event_lem runner event_id =
    let missing = event_not_found event_id in
    let k = λ (eid : Text).
      run runner (render (find_script eid (raw "delete evt" ∷ []))) >>= expect_ok missing in
    Runs-and_true runner (found missing) (delete_event runner event_id) (
      bind-Runs runner (found missing) (escape event_id) k (escape-Checks event_id)
        (find-Runs runner missing (codes event_id) (raw "delete evt" ∷ []) refl))

-- The setters that the patch asks for.
abbrev pub setters_say : Reformat → EventPatch → List (List Part)
setters_say reformat p =
    block_of (text_says "set summary of evt to ") p.title
    ++ (block_of (date_says reformat "set start date of evt to (date ") p.start
        ++ (block_of (date_says reformat "set end date of evt to (date ") p.end
            ++ (block_of (text_says "set location of evt to ") p.location
                ++ block_of (text_says "set description of evt to ") p.notes)))

abbrev pub dated : Reformat → String → Bool
dated reformat iso = is_some (reformat iso)

-- The arguments that `update_event` accepts, in the order in which it looks at them.
abbrev pub update_accepts : Reformat → String → EventPatch → Bool
update_accepts reformat event_id p =
    is_clean event_id
    && (all_of is_clean p.title
        && (all_of (dated reformat) p.start
            && (all_of (dated reformat) p.end
                && (all_of is_clean p.location && (all_of is_clean p.notes && true)))))

setters-plain :
    (reformat : Reformat) (p : EventPatch) → All (λ b. is_plain b ≡ true) (setters_say reformat p)
unfolding is_plain
setters-plain reformat p =
    block_of-plain _ p.title _ (λ v. refl)
      (block_of-plain _ p.start _ (λ v. refl)
        (block_of-plain _ p.end _ (λ v. refl)
          (block_of-plain _ p.location _ (λ v. refl) (last-plain _ p.notes (λ v. refl)))))

setters-escape_all :
    (reformat : Reformat) (p : EventPatch)
    → map escape_all (setters_say reformat p)
      ≡ block_of (λ v. escape_all (text_says "set summary of evt to " v)) p.title
        ++ (block_of
              (λ v. escape_all (date_says reformat "set start date of evt to (date " v))
              p.start
            ++ (block_of
                  (λ v. escape_all (date_says reformat "set end date of evt to (date " v))
                  p.end
                ++ (block_of (λ v. escape_all (text_says "set location of evt to " v)) p.location
                    ++ block_of
                        (λ v. escape_all (text_says "set description of evt to " v))
                        p.notes)))
setters-escape_all reformat p = map_onto _ p.title _ _ (
    map_onto _ p.start _ _
      (map_onto _ p.end _ _ (map_onto _ p.location _ _ (map-block_of _ p.notes))))

apply-Runs :
    (runner : Runner) (event_id : String) (eid : Text) (bs : List (List Part))
    → All (λ b. is_plain b ≡ true) bs
    → bs ≢ []
    → Runs true
        (meant (find_script eid (join "\n      " bs)))
        runner
        (found (event_not_found event_id))
        (apply_setters runner event_id (escaped eid) (map escape_all bs))
unfolding apply_setters
apply-Runs runner event_id eid [] h n = absurd (n refl)
apply-Runs runner event_id eid (b ∷ bs) h n =
    subst
      (λ (x : List Part).
        Runs true (meant (find_script eid (join "\n      " (b ∷ bs)))) runner
          (found (event_not_found event_id))
          (run runner (render (find_script (escaped eid) x))
            >>= expect_ok (event_not_found event_id)))
      (escape_all-join "\n      " (b ∷ bs))
      (find-Runs runner (event_not_found event_id) eid (join "\n      " (b ∷ bs))
        (is_plain-join "\n      " (b ∷ bs) refl h))

pub List-cases : (bs : List (List Part)) → (bs ≡ []) ⊎ (bs ≢ [])
List-cases [] = inl refl
List-cases (b ∷ bs) = inr (λ e. cc)

nothing_set :
    (runner : Runner) (event_id : String) (eid : Text) (bs : List (List Part))
    → bs ≡ []
    → (log : Log) → apply_setters runner event_id eid (map escape_all bs) log ≡ (ok tt, log)
unfolding apply_setters
nothing_set runner event_id eid [] e log = refl
nothing_set runner event_id eid (b ∷ bs) e log = absurd {0} (cc)

update-Passes :
    (reformat : Reformat) (runner : Runner) (event_id : String) (p : EventPatch)
    → PrintsPlain reformat
    → Passes
        (update_accepts reformat event_id p)
        (apply_setters runner event_id
          (escaped (codes event_id))
          (map escape_all (setters_say reformat p)))
        (update_event reformat runner event_id p)
unfolding update_event
update-Passes reformat runner event_id p plain =
    let tail =
      apply_setters runner event_id (escaped (codes event_id))
        (map escape_all (setters_say reformat p)) in
    let k6 = λ (eid : Text) (t s e l n : List (List Part)).
      apply_setters runner event_id eid (t ++ (s ++ (e ++ (l ++ n)))) in
    let set_notes = setter (text_block "set description of evt to ") p.notes in
    let set_location = setter (text_block "set location of evt to ") p.location in
    let set_end = setter (date_block reformat "set end date of evt to (date ") p.end in
    let set_start = setter (date_block reformat "set start date of evt to (date ") p.start in
    let set_title = setter (text_block "set summary of evt to ") p.title in
    let k5 = λ (eid : Text) (t s e l : List (List Part)). set_notes >>= k6 eid t s e l in
    let k4 = λ (eid : Text) (t s e : List (List Part)). set_location >>= k5 eid t s e in
    let k3 = λ (eid : Text) (t s : List (List Part)). set_end >>= k4 eid t s in
    let k2 = λ (eid : Text) (t : List (List Part)). set_start >>= k3 eid t in
    let k1 = λ (eid : Text). set_title >>= k2 eid in
    let eid = escaped (codes event_id) in
    let t = block_of (λ v. escape_all (text_says "set summary of evt to " v)) p.title in
    let s =
      block_of (λ v. escape_all (date_says reformat "set start date of evt to (date " v)) p.start in
    let e =
      block_of (λ v. escape_all (date_says reformat "set end date of evt to (date " v)) p.end in
    let l = block_of (λ v. escape_all (text_says "set location of evt to " v)) p.location in
    let n = block_of (λ v. escape_all (text_says "set description of evt to " v)) p.notes in
    bind-Passes tail (escape event_id) k1 (escape-Checks event_id) (
      bind-Passes tail set_title (k2 eid) (setter-Checks _ is_clean _ p.title (text_block-Checks _))
        (bind-Passes tail set_start (k3 eid t)
          (setter-Checks _ (dated reformat) _ p.start (λ v. date_block-Checks reformat _ v plain))
          (bind-Passes tail set_end (k4 eid t s)
            (setter-Checks _ (dated reformat) _ p.end (λ v. date_block-Checks reformat _ v plain))
            (bind-Passes tail set_location (k5 eid t s e)
              (setter-Checks _ is_clean _ p.location (text_block-Checks _))
              (bind-Passes tail set_notes (k6 eid t s e l)
                (setter-Checks _ is_clean _ p.notes (text_block-Checks _))
                (λ log. inl (
                  refl,
                  ap (λ (x : List (List Part)). apply_setters runner event_id eid x log)
                      (sym (setters-escape_all reformat p)),
                )))))))

-- Updating an event, where the dates that `strftime` prints hold no quote and no backslash. If the dates among the arguments parse and no text among them, nor the id, holds a line break or a null character: a patch that names no field runs no script and succeeds, and for any other exactly one script runs, AppleScript reads it as the intended program with one setter for each named field and the given values, and the result is success if the script answers `ok`, `not_found` if it answers anything else, and the script's error if it fails. Otherwise no script runs, and the error is `bad_request`.
pub update_event_lem :
    (reformat : Reformat) (runner : Runner) (event_id : String) (p : EventPatch)
    → PrintsPlain reformat
    → ((setters_say reformat p ≡ [])
        × Checks (update_accepts reformat event_id p) tt (update_event reformat runner event_id p))
      ⊎ ((setters_say reformat p ≢ [])
          × Runs
              (update_accepts reformat event_id p)
              (meant (find_script (codes event_id) (join "\n      " (setters_say reformat p))))
              runner
              (found (event_not_found event_id))
              (update_event reformat runner event_id p))
update_event_lem reformat runner event_id p plain =
    let passes = update-Passes reformat runner event_id p plain in
    elim (List-cases (setters_say reformat p)) [
      | inl none' ↦ inl (
        none',
        Passes-Checks _ _ passes
            (nothing_set runner event_id (escaped (codes event_id)) (setters_say reformat p) none'),
      )
      | inr some' ↦ inr (
        some',
        Passes-Runs runner (found (event_not_found event_id)) _ _ passes (
            apply-Runs runner event_id (codes event_id) (setters_say reformat p)
              (setters-plain reformat p) some'),
      )
    ]
