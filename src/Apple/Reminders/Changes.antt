-- ===== src/Apple/Reminders/Changes.antt =====
-- `update_reminder` and `delete_reminder`: the script that looks a reminder up, and what they do with its
-- answer.
use mathlib.Core.Path.{subst}
use open_claw_bridge.Prelude.{
  String, ◌≡◌, refl, sym, ap, ◌∙◌, ◌≢◌, ◌⊎◌, inl, inr, Bool, true, false, ◌&&◌, List, [], ◌∷◌, ◌++◌,
  map, All,
}
use open_claw_bridge.Errors.{ok, BridgeError}
use open_claw_bridge.Server.{◌>>=◌}
use open_claw_bridge.Relay.Outbound.{codes}
use open_claw_bridge.Apple.Runner.{Text}
use open_claw_bridge.Apple.Script.{
  Log, Runner, Part, raw, quoted, render, join, run, escaped, is_clean, escape, Reformat, setter,
  text_block, date_block,
}
use open_claw_bridge.Apple.Read.{meant, escape_all, is_plain}
use open_claw_bridge.Apple.Checks.{
  pure-Checks, Checks, Runs, PrintsPlain, all_of, block_of, bind-Passes, Passes, Passes-Checks,
  Passes-Runs, Runs-and_true, bind-Runs, run-Runs, escape-Checks, setter-Checks,
}
use open_claw_bridge.Apple.Blocks.{
  text_says, date_says, text_block-Checks, date_block-Checks, escape_all-append, escape_all-join,
  is_plain-append, is_plain-join, map-block_of, block_of-plain, last-plain, map_onto,
}
use open_claw_bridge.Apple.Calendar.{expect_ok}
use open_claw_bridge.Apple.Calendar.Changes.{found, answer_found, List-cases, dated}
use open_claw_bridge.Apple.Reminders.{
  truth, completed_block, find_script, update_reminder, ReminderPatch, apply_setters,
  delete_reminder, expect_ok, reminder_not_found,
}

abbrev found_end : List Part
found_end =
    raw "\n      return "
    ∷ quoted (codes "ok")
    ∷ raw "\n    end try\n  end repeat\nend tell\nreturn "
    ∷ quoted (codes "not_found")
    ∷ raw "\n"
    ∷ []

find_script-escape_all :
    (rid : Text) (body : List Part)
    → find_script (escaped rid) (escape_all body) ≡ escape_all (find_script rid body)
unfolding find_script escape_all
find_script-escape_all rid body =
    ap
      (λ (x : List Part).
        escape_all (
          raw "tell application "
          ∷ quoted (codes "Reminders")
          ∷ raw "\n  repeat with lst in lists\n    try\n"
          ∷ raw "      set r to (first reminder of lst whose id is "
          ∷ quoted rid
          ∷ raw ")\n      "
          ∷ [])
        ++ x)
      (sym (escape_all-append body found_end))

find_script-plain :
    (rid : Text) (body : List Part) → is_plain body ≡ true → is_plain (find_script rid body) ≡ true
unfolding find_script is_plain
find_script-plain rid body h = is_plain-append body found_end h refl

find-Runs :
    (runner : Runner) (e : BridgeError) (rid : Text) (body : List Part)
    → is_plain body ≡ true
    → Runs true
        (meant (find_script rid body))
        runner
        (found e)
        (run runner (render (find_script (escaped rid) (escape_all body))) >>= expect_ok e)
find-Runs runner e rid body h =
    run-Runs (find_script rid body) runner (found e) _ (find_script-plain rid body h) (λ log.
      answer_found runner e (render (find_script (escaped rid) (escape_all body))) log
      ∙ ap (λ (x : List Part). (found e (runner (render x)), log ++ render x ∷ []))
          (find_script-escape_all rid body))

delete_reminder_lem :
    (runner : Runner) (reminder_id : String)
    → Runs
        (is_clean reminder_id)
        (meant (find_script (codes reminder_id) (raw "delete r" ∷ [])))
        runner
        (found (reminder_not_found reminder_id))
        (delete_reminder runner reminder_id)
unfolding delete_reminder is_plain escape_all
delete_reminder_lem runner reminder_id =
    let missing = reminder_not_found reminder_id in
    let k = λ (rid : Text).
      run runner (render (find_script rid (raw "delete r" ∷ []))) >>= expect_ok missing in
    Runs-and_true runner (found missing) (delete_reminder runner reminder_id) (
      bind-Runs runner (found missing) (escape reminder_id) k (escape-Checks reminder_id)
        (find-Runs runner missing (codes reminder_id) (raw "delete r" ∷ []) refl))

abbrev pub completed_says : Bool → List Part
completed_says completed = raw "set completed of r to " ∷ raw (truth completed) ∷ []

-- The setters that the patch asks for.
abbrev pub setters_say : Reformat → ReminderPatch → List (List Part)
setters_say reformat p =
    block_of (text_says "set name of r to ") p.title
    ++ (block_of (text_says "set body of r to ") p.notes
        ++ (block_of (date_says reformat "set due date of r to (date ") p.due_date
            ++ block_of completed_says p.completed))

-- The arguments that `update_reminder` accepts, in the order in which it looks at them.
abbrev pub update_accepts : Reformat → String → ReminderPatch → Bool
update_accepts reformat reminder_id p =
    is_clean reminder_id
    && (all_of is_clean p.title
        && (all_of is_clean p.notes
            && (all_of (dated reformat) p.due_date && (all_of (λ c. true) p.completed && true))))

completed-plain : (b : Bool) → is_plain (completed_says b) ≡ true
unfolding is_plain
completed-plain true = refl
completed-plain false = refl

completed-Checks : (b : Bool) → Checks true (escape_all (completed_says b)) (completed_block b)
unfolding completed_block escape_all
completed-Checks b = pure-Checks _

setters-plain :
    (reformat : Reformat) (p : ReminderPatch)
    → All (λ b. is_plain b ≡ true) (setters_say reformat p)
unfolding is_plain
setters-plain reformat p =
    block_of-plain _ p.title _ (λ v. refl)
      (block_of-plain _ p.notes _ (λ v. refl)
        (block_of-plain _ p.due_date _ (λ v. refl) (last-plain _ p.completed completed-plain)))

setters-escape_all :
    (reformat : Reformat) (p : ReminderPatch)
    → map escape_all (setters_say reformat p)
      ≡ block_of (λ v. escape_all (text_says "set name of r to " v)) p.title
        ++ (block_of (λ v. escape_all (text_says "set body of r to " v)) p.notes
            ++ (block_of
                  (λ v. escape_all (date_says reformat "set due date of r to (date " v))
                  p.due_date
                ++ block_of (λ v. escape_all (completed_says v)) p.completed))
setters-escape_all reformat p =
    map_onto _ p.title _ _
      (map_onto _ p.notes _ _ (map_onto _ p.due_date _ _ (map-block_of _ p.completed)))

apply-Runs :
    (runner : Runner) (reminder_id : String) (rid : Text) (bs : List (List Part))
    → All (λ b. is_plain b ≡ true) bs
    → bs ≢ []
    → Runs true
        (meant (find_script rid (join "\n      " bs)))
        runner
        (found (reminder_not_found reminder_id))
        (apply_setters runner reminder_id (escaped rid) (map escape_all bs))
unfolding apply_setters
apply-Runs runner reminder_id rid [] h n = absurd (n refl)
apply-Runs runner reminder_id rid (b ∷ bs) h n =
    subst
      (λ (x : List Part).
        Runs true (meant (find_script rid (join "\n      " (b ∷ bs)))) runner
          (found (reminder_not_found reminder_id))
          (run runner (render (find_script (escaped rid) x))
            >>= expect_ok (reminder_not_found reminder_id)))
      (escape_all-join "\n      " (b ∷ bs))
      (find-Runs runner (reminder_not_found reminder_id) rid (join "\n      " (b ∷ bs))
        (is_plain-join "\n      " (b ∷ bs) refl h))

nothing_set :
    (runner : Runner) (reminder_id : String) (rid : Text) (bs : List (List Part))
    → bs ≡ []
    → (log : Log) → apply_setters runner reminder_id rid (map escape_all bs) log ≡ (ok tt, log)
unfolding apply_setters
nothing_set runner reminder_id rid [] e log = refl
nothing_set runner reminder_id rid (b ∷ bs) e log = absurd {0} (cc)

update-Passes :
    (reformat : Reformat) (runner : Runner) (reminder_id : String) (p : ReminderPatch)
    → PrintsPlain reformat
    → Passes
        (update_accepts reformat reminder_id p)
        (apply_setters runner reminder_id
          (escaped (codes reminder_id))
          (map escape_all (setters_say reformat p)))
        (update_reminder reformat runner reminder_id p)
unfolding update_reminder
update-Passes reformat runner reminder_id p plain =
    let tail =
      apply_setters runner reminder_id (escaped (codes reminder_id))
        (map escape_all (setters_say reformat p)) in
    let k5 = λ (rid : Text) (t n d c : List (List Part)).
      apply_setters runner reminder_id rid (t ++ (n ++ (d ++ c))) in
    let set_completed = setter completed_block p.completed in
    let set_due = setter (date_block reformat "set due date of r to (date ") p.due_date in
    let set_notes = setter (text_block "set body of r to ") p.notes in
    let set_title = setter (text_block "set name of r to ") p.title in
    let k4 = λ (rid : Text) (t n d : List (List Part)). set_completed >>= k5 rid t n d in
    let k3 = λ (rid : Text) (t n : List (List Part)). set_due >>= k4 rid t n in
    let k2 = λ (rid : Text) (t : List (List Part)). set_notes >>= k3 rid t in
    let k1 = λ (rid : Text). set_title >>= k2 rid in
    let rid = escaped (codes reminder_id) in
    let t = block_of (λ v. escape_all (text_says "set name of r to " v)) p.title in
    let n = block_of (λ v. escape_all (text_says "set body of r to " v)) p.notes in
    let d =
      block_of (λ v. escape_all (date_says reformat "set due date of r to (date " v)) p.due_date in
    let c = block_of (λ v. escape_all (completed_says v)) p.completed in
    bind-Passes tail (escape reminder_id) k1 (escape-Checks reminder_id) (
      bind-Passes tail set_title (k2 rid) (setter-Checks _ is_clean _ p.title (text_block-Checks _))
        (bind-Passes tail set_notes (k3 rid t)
          (setter-Checks _ is_clean _ p.notes (text_block-Checks _))
          (bind-Passes tail set_due (k4 rid t n)
            (setter-Checks _ (dated reformat) _ p.due_date
              (λ v. date_block-Checks reformat _ v plain))
            (bind-Passes tail set_completed (k5 rid t n d)
              (setter-Checks _ (λ c. true) _ p.completed completed-Checks)
              (λ log. inl (
                refl,
                ap (λ (x : List (List Part)). apply_setters runner reminder_id rid x log)
                    (sym (setters-escape_all reformat p)),
              ))))))

-- Updating a reminder, where the dates that `strftime` prints hold no quote and no backslash. If the dates among the arguments parse and no text among them, nor the id, holds a line break or a null character: a patch that names no field runs no script and succeeds, and for any other exactly one script runs, AppleScript reads it as the intended program with one setter for each named field and the given values, and the result is success if the script answers `ok`, `not_found` if it answers anything else, and the script's error if it fails. Otherwise no script runs, and the error is `bad_request`.
pub update_reminder_lem :
    (reformat : Reformat) (runner : Runner) (reminder_id : String) (p : ReminderPatch)
    → PrintsPlain reformat
    → ((setters_say reformat p ≡ [])
        × Checks
            (update_accepts reformat reminder_id p)
            tt
            (update_reminder reformat runner reminder_id p))
      ⊎ ((setters_say reformat p ≢ [])
          × Runs
              (update_accepts reformat reminder_id p)
              (meant (find_script (codes reminder_id) (join "\n      " (setters_say reformat p))))
              runner
              (found (reminder_not_found reminder_id))
              (update_reminder reformat runner reminder_id p))
update_reminder_lem reformat runner reminder_id p plain =
    let passes = update-Passes reformat runner reminder_id p plain in
    elim (List-cases (setters_say reformat p)) [
      | inl none' ↦ inl (
        none',
        Passes-Checks _ _ passes (
            nothing_set runner reminder_id (escaped (codes reminder_id)) (setters_say reformat p)
              none'),
      )
      | inr some' ↦ inr (
        some',
        Passes-Runs runner (found (reminder_not_found reminder_id)) _ _ passes (
            apply-Runs runner reminder_id (codes reminder_id) (setters_say reformat p)
              (setters-plain reformat p) some'),
      )
    ]
