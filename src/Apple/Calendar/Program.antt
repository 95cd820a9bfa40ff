-- ===== src/Apple/Calendar/Program.antt =====
-- The scripts of the calendar's operations, as AppleScript reads them.
use open_claw_bridge.Prelude.{
  String, ◌≡◌, refl, sym, ap, ◌∙◌, Bool, true, ◌&&◌, Option, none, some, List, [], ◌∷◌, ◌++◌, map,
  is_some, All,
}
use open_claw_bridge.Errors.{Result}
use open_claw_bridge.Server.{◌>>=◌}
use open_claw_bridge.Relay.Outbound.{codes}
use open_claw_bridge.Apple.Runner.{Text}
use open_claw_bridge.Apple.Script.{
  Runner, Part, raw, quoted, render, join, run, escaped, is_clean, escape, Reformat, format_dt,
  setter, text_block,
}
use open_claw_bridge.Apple.Read.{meant, escape_all, is_plain}
use open_claw_bridge.Apple.Checks.{
  Runs, PrintsPlain, all_of, block_of, date_of, bind-Runs, run-Runs, escape-Checks,
  format_dt-Checks, setter-Checks,
}
use open_claw_bridge.Apple.Blocks.{
  text_says, text_block-Checks, escape_all-append, escape_all-join, is_plain-append, is_plain-join,
}
use open_claw_bridge.Apple.Calendar.{create_script, create_event}

abbrev closing : List Part
closing = raw "}\n  return uid of newEvt\nend tell\n" ∷ []

-- What is joined between the braces.
abbrev properties : (title : Text) → List (List Part) → List (List Part)
properties title more =
    (raw "summary:" ∷ quoted title ∷ [])
    ∷ (raw "start date:sd" ∷ [])
    ∷ (raw "end date:ed" ∷ [])
    ∷ more

create_script-escape_all :
    (sd ed cal title : Text) (more : List (List Part))
    → create_script (escaped sd) (escaped ed) (escaped cal) (escaped title) (map escape_all more)
      ≡ escape_all (create_script sd ed cal title more)
unfolding create_script escape_all
create_script-escape_all sd ed cal title more =
    let properties_e : escape_all (join ", " (properties title more) ++ closing)
        ≡ join ", " (properties (escaped title) (map escape_all more)) ++ closing =
      escape_all-append (join ", " (properties title more)) closing
      ∙ ap (λ (x : List Part). x ++ closing) (escape_all-join ", " (properties title more)) in
    ap
      (λ (x : List Part).
        escape_all (
          raw "set sd to date "
          ∷ quoted sd
          ∷ raw "\nset ed to date "
          ∷ quoted ed
          ∷ raw "\ntell application "
          ∷ quoted (codes "Calendar")
          ∷ raw "\n  set targetCal to first calendar whose name is "
          ∷ quoted cal
          ∷ raw "\n  set newEvt to make new event at end of events of targetCal with properties {"
          ∷ [])
        ++ x)
      (sym properties_e)

create_script-plain :
    (sd ed cal title : Text) (more : List (List Part))
    → All (λ b. is_plain b ≡ true) more
    → is_plain (create_script sd ed cal title more) ≡ true
unfolding create_script is_plain
create_script-plain sd ed cal title more h =
    is_plain-append (join ", " (properties title more)) closing
      (is_plain-join ", " (properties title more) refl (refl, (refl, (refl, h)))) refl

-- The blocks of the optional properties.
abbrev pub more_says : (location notes : Option String) → List (List Part)
more_says location notes =
    block_of (text_says "location:") location ++ block_of (text_says "description:") notes

more-plain :
    (location notes : Option String) → All (λ b. is_plain b ≡ true) (more_says location notes)
unfolding is_plain
more-plain none none = tt
more-plain none (some n) = (refl, tt)
more-plain (some l) none = (refl, tt)
more-plain (some l) (some n) = (refl, (refl, tt))

more-escape_all :
    (location notes : Option String)
    → map escape_all (more_says location notes)
      ≡ block_of (λ x. escape_all (text_says "location:" x)) location
        ++ block_of (λ x. escape_all (text_says "description:" x)) notes
more-escape_all none none = refl
more-escape_all none (some n) = refl
more-escape_all (some l) none = refl
more-escape_all (some l) (some n) = refl

-- The arguments that `create_event` accepts, in the order in which it looks at them.
abbrev pub accepts :
    Reformat → (calendar title start end : String) (location notes : Option String) → Bool
accepts reformat calendar title start end location notes =
    is_some (reformat start)
    && (is_some (reformat end)
        && (is_clean calendar
            && (is_clean title && (all_of is_clean location && (all_of is_clean notes && true)))))

-- Creating an event, where the dates that `strftime` prints hold no quote and no backslash: if both dates parse and no argument holds a line break or a null character, then exactly one script runs, AppleScript reads it as the intended program whose text literals have exactly the given arguments as their values, whatever quotes and backslashes these hold, and the result is the script's. Otherwise no script runs, and the error is `bad_request`.
pub create_event_lem :
    (reformat : Reformat) (runner : Runner) (calendar title start end : String)
    (location notes : Option String)
    → PrintsPlain reformat
    → Runs
        (accepts reformat calendar title start end location notes)
        (meant (
          create_script
            (date_of reformat start)
            (date_of reformat end)
            (codes calendar)
            (codes title)
            (more_says location notes)))
        runner
        (λ r. r)
        (create_event reformat runner calendar title start end location notes)
unfolding create_event text_block
create_event_lem reformat runner calendar title start end location notes plain =
    let answer = λ (r : Result Text). r in
    let as_said =
      ap
        (create_script (escaped (date_of reformat start)) (escaped (date_of reformat end))
          (escaped (codes calendar)) (escaped (codes title)))
        (sym (more-escape_all location notes))
      ∙ create_script-escape_all (date_of reformat start) (date_of reformat end) (codes calendar)
          (codes title) (more_says location notes) in
    let k6 = λ (sd ed c t : Text) (loc nts : List (List Part)).
      run runner (render (create_script sd ed c t (loc ++ nts))) in
    let k5 = λ (sd ed c t : Text) (loc : List (List Part)).
      setter (text_block "description:") notes >>= k6 sd ed c t loc in
    let k4 = λ (sd ed c t : Text). setter (text_block "location:") location >>= k5 sd ed c t in
    let k3 = λ (sd ed c : Text). escape title >>= k4 sd ed c in
    let k2 = λ (sd ed : Text). escape calendar >>= k3 sd ed in
    let k1 = λ (sd : Text). format_dt reformat end >>= k2 sd in
    bind-Runs runner answer (format_dt reformat start) k1 (format_dt-Checks reformat start plain) (
      bind-Runs runner answer (format_dt reformat end) (k2 _) (format_dt-Checks reformat end plain)
        (bind-Runs runner answer (escape calendar) (k3 _ _) (escape-Checks calendar) (
          bind-Runs runner answer (escape title) (k4 _ _ _) (escape-Checks title) (
            bind-Runs runner answer (setter (text_block "location:") location) (k5 _ _ _ _)
              (setter-Checks (text_block "location:") is_clean _ location
                (text_block-Checks "location:"))
              (bind-Runs runner answer (setter (text_block "description:") notes) (k6 _ _ _ _ _)
                (setter-Checks (text_block "description:") is_clean _ notes
                  (text_block-Checks "description:"))
                (run-Runs
                  (create_script (date_of reformat start) (date_of reformat end) (codes calendar)
                    (codes title) (more_says location notes))
                  runner answer _ (create_script-plain _ _ _ _ _ (more-plain location notes))
                  (λ log.
                    ap (λ (x : List Part). (runner (render x), log ++ render x ∷ [])) as_said)))))))
