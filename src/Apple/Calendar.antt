-- ===== src/Apple/Calendar.antt =====
-- bridge/src/bridge/providers/apple/calendar.py: the provider's operations.
pub mod Program
pub mod Changes
use open_claw_bridge.Prelude.{String, not, Option, none, some, List, [], ◌∷◌, ◌++◌, concat}
use open_claw_bridge.Errors.{BridgeError, error, not_found, text}
use open_claw_bridge.Server.{Exec, pure, raise_if, ◌>>=◌}
use open_claw_bridge.Relay.Outbound.{codes}
use open_claw_bridge.Apple.Runner.{Text}
use open_claw_bridge.Apple.Script.{
  Log, Runner, Part, raw, quoted, render, join, run, escape, Reformat, format_dt, setter,
  text_block, date_block, same,
}
use open_claw_bridge.Apple.Tsv.{parse_tsv, optional}

pub record Event : Type 0 where
  pub id : Text
  pub title : Text
  pub start : Text
  pub end : Text
  pub calendar : Text
  pub location : Option Text
  pub notes : Option Text

-- `_ISO_HELPER`
abbrev pub iso_helper : List Part
iso_helper =
    raw "on isoStr(d)\n  set y to year of d as integer\n"
    ∷ raw "  set m to month of d as integer\n  set dd to day of d as integer\n"
    ∷ raw "  set h to hours of d\n  set mi to minutes of d\n"
    ∷ raw "  set sc to (seconds of d) as integer\n  return (y as string) & "
    ∷ quoted (codes "-")
    ∷ raw " & text -2 thru -1 of ("
    ∷ quoted (codes "0")
    ∷ raw " & m) & "
    ∷ quoted (codes "-")
    ∷ raw " & text -2 thru -1 of ("
    ∷ quoted (codes "0")
    ∷ raw " & dd) & "
    ∷ quoted (codes "T")
    ∷ raw " & text -2 thru -1 of ("
    ∷ quoted (codes "0")
    ∷ raw " & h) & "
    ∷ quoted (codes ":")
    ∷ raw " & text -2 thru -1 of ("
    ∷ quoted (codes "0")
    ∷ raw " & mi) & "
    ∷ quoted (codes ":")
    ∷ raw " & text -2 thru -1 of ("
    ∷ quoted (codes "0")
    ∷ raw " & sc)\nend isoStr\n"
    ∷ []

-- The `try` blocks of the list scripts, which leave a field empty where it cannot be read.
abbrev pub try_block : (var value : String) → List Part
try_block var value =
    raw "      try\n        set "
    ∷ raw var
    ∷ raw " to "
    ∷ raw value
    ∷ raw "\n      on error\n        set "
    ∷ raw var
    ∷ raw " to "
    ∷ quoted []
    ∷ raw "\n      end try\n"
    ∷ []

abbrev pub separators : List Part
separators = raw "set fs to (character id 31)\n" ∷ raw "set rs to (character id 30)\n" ∷ []

unfoldable pub list_script : (sd ed : Text) (cals_expr : List Part) → List Part
list_script sd ed cals_expr =
    iso_helper
    ++ (separators
        ++ (raw "set sd to date "
            ∷ quoted sd
            ∷ raw "\nset ed to date "
            ∷ quoted ed
            ∷ raw "\nset out to "
            ∷ quoted []
            ∷ raw "\ntell application "
            ∷ quoted (codes "Calendar")
            ∷ raw "\n  set theCals to "
            ∷ (cals_expr
                ++ (raw "\n  repeat with cal in theCals\n"
                    ∷ raw "    repeat with evt in (every event of cal whose start date "
                    ∷ raw ">= sd and start date <= ed)\n"
                    ∷ (try_block "loc" "(location of evt) as string"
                        ++ (try_block "nts" "(description of evt) as string"
                            ++ raw "      set out to out & (uid of evt) & fs & (summary of evt) "
                              ∷ raw
                                  "& fs & isoStr(start date of evt) & fs & isoStr(end date of evt) "
                              ∷ raw "& fs & (name of cal) & fs & loc & fs & nts & rs\n"
                              ∷ raw "    end repeat\n  end repeat\nend tell\nreturn out\n"
                              ∷ []))))))

-- `every calendar`, or those of one name.
unfoldable pub cals_expr : Option Text → List Part
cals_expr none = raw "every calendar" ∷ []
cals_expr (some cal_e) = raw "(calendars whose name is " ∷ quoted cal_e ∷ raw ")" ∷ []

-- `_escape` on an argument that may be left out.
unfoldable pub escape_optional : Option String → Exec Log (Option Text)
unfolding escape
escape_optional none = pure none
escape_optional (some v) = do v_e ← escape v; pure (some v_e)

-- The loop over the records: one without seven fields is skipped.
unfoldable pub event_of : List Text → Option Event
unfolding optional
event_of (uid ∷ title ∷ start ∷ end ∷ cal_name ∷ location ∷ notes ∷ []) = some (record {
  id = uid;
  title = title;
  start = start;
  end = end;
  calendar = cal_name;
  location = optional location;
  notes = optional notes;
})
event_of _ = none

unfoldable pub events : List (List Text) → List Event
unfolding event_of
events [] = []
events (fields ∷ records) = elim (event_of fields) [
  | none ↦ events records
  | some e ↦ e ∷ events records
]

unfoldable pub list_events :
    Reformat → Runner → (from_dt to_dt : String) → Option String → Exec Log (List Event)
unfolding format_dt escape_optional list_script cals_expr events parse_tsv
list_events reformat runner from_dt to_dt calendar = do
  sd ← format_dt reformat from_dt
  ed ← format_dt reformat to_dt
  cal_e ← escape_optional calendar
  raw_out ← run runner (render (list_script sd ed (cals_expr cal_e)))
  pure (events (parse_tsv raw_out))

unfoldable pub create_script : (sd ed cal_e title_e : Text) → List (List Part) → List Part
unfolding join
create_script sd ed cal_e title_e more =
    raw "set sd to date "
    ∷ quoted sd
    ∷ raw "\nset ed to date "
    ∷ quoted ed
    ∷ raw "\ntell application "
    ∷ quoted (codes "Calendar")
    ∷ raw "\n  set targetCal to first calendar whose name is "
    ∷ quoted cal_e
    ∷ raw "\n  set newEvt to make new event at end of events of targetCal with properties {"
    ∷ (join ", " (
          (raw "summary:" ∷ quoted title_e ∷ [])
          ∷ (raw "start date:sd" ∷ [])
          ∷ (raw "end date:ed" ∷ [])
          ∷ more)
        ++ raw "}\n  return uid of newEvt\nend tell\n" ∷ [])

unfoldable pub create_event :
    Reformat
    → Runner
    → (calendar title start end : String) (location notes : Option String) → Exec Log Text
unfolding format_dt escape text_block create_script render
create_event reformat runner calendar title start end location notes = do
  sd ← format_dt reformat start
  ed ← format_dt reformat end
  cal_e ← escape calendar
  title_e ← escape title
  loc ← setter (text_block "location:") location
  nts ← setter (text_block "description:") notes
  run runner (render (create_script sd ed cal_e title_e (loc ++ nts)))

-- The scripts that look an event up and do `body` with it.
unfoldable pub find_script : (eid : Text) → List Part → List Part
find_script eid body =
    raw "tell application "
    ∷ quoted (codes "Calendar")
    ∷ raw "\n  repeat with cal in calendars\n    try\n"
    ∷ raw "      set evt to (first event of cal whose uid is "
    ∷ quoted eid
    ∷ raw ")\n      "
    ∷ (body
        ++ raw "\n      return "
          ∷ quoted (codes "ok")
          ∷ raw "\n    end try\n  end repeat\nend tell\nreturn "
          ∷ quoted (codes "not_found")
          ∷ raw "\n"
          ∷ [])

unfoldable pub event_not_found : String → BridgeError
event_not_found event_id =
    error not_found (concat ("Calendar event not found: " ∷ event_id ∷ []))
      (("id", text event_id) ∷ [])

-- `if result != "ok": raise NotFound`
unfoldable pub expect_ok : BridgeError → Text → Exec Log (Unit {0})
unfolding same
expect_ok e result = raise_if (not (same result (codes "ok"))) e

-- The keyword arguments of `update_event`.
pub record EventPatch : Type 0 where
  pub title : Option String
  pub start : Option String
  pub end : Option String
  pub location : Option String
  pub notes : Option String

-- From `if not setters` on.
unfoldable pub apply_setters :
    Runner → String → (eid : Text) → List (List Part) → Exec Log (Unit {0})
unfolding join find_script render event_not_found expect_ok
apply_setters runner event_id eid [] = pure tt
apply_setters runner event_id eid (b ∷ bs) = do
  result ← run runner (render (find_script eid (join "\n      " (b ∷ bs))))
  expect_ok (event_not_found event_id) result

unfoldable pub update_event :
    Reformat → Runner → (event_id : String) → EventPatch → Exec Log (Unit {0})
unfolding escape text_block date_block apply_setters
update_event reformat runner event_id p = do
  eid ← escape event_id
  title ← setter (text_block "set summary of evt to ") p.title
  start ← setter (date_block reformat "set start date of evt to (date ") p.start
  end ← setter (date_block reformat "set end date of evt to (date ") p.end
  location ← setter (text_block "set location of evt to ") p.location
  notes ← setter (text_block "set description of evt to ") p.notes
  apply_setters runner event_id eid (title ++ (start ++ (end ++ (location ++ notes))))

unfoldable pub delete_event : Runner → (event_id : String) → Exec Log (Unit {0})
unfolding escape find_script render event_not_found expect_ok
delete_event runner event_id = do
  eid ← escape event_id
  result ← run runner (render (find_script eid (raw "delete evt" ∷ [])))
  expect_ok (event_not_found event_id) result
