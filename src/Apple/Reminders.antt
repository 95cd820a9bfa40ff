-- ===== src/Apple/Reminders.antt =====
-- bridge/src/bridge/providers/apple/reminders.py: the provider's operations.
pub mod Changes
use open_claw_bridge.Prelude.{
  ℕ, zero, suc, ◌+◌, ◌-◌, ◌*◌, ◌/◌, ◌%◌, ◌^◌, ◌≤◌, ◌<◌, min, max, String, text_length, utf8_length,
  ◌≡◌, refl, sym, ap, ◌∙◌, ◌≢◌, ◌↔◌, ◌⊎◌, inl, inr, Bool, true, false, not, ◌&&◌, ◌||◌, Option,
  none, some, List, [], ◌∷◌, ◌++◌, map, append-nil, append_assoc, arith, str_eq, eq_iff, eq_refl,
  ltb, leb, ◌==◌, if◌then◌else◌, Bool-cases, Option-cases, concat, concat_one, concat_nil,
  take_text, is_empty, or_else, text_mem, is_space, is_blank, length, length-append, get_or,
  is_some, filter, find, any, All, reverse, Forward,
}
use open_claw_bridge.Errors.{BridgeError, Result, error, not_found, text}
use open_claw_bridge.Server.{Exec, pure, ◌>>=◌}
use open_claw_bridge.Relay.Outbound.{codes}
use open_claw_bridge.Apple.Runner.{Text}
use open_claw_bridge.Apple.Script.{
  Log, Runner, Part, raw, quoted, render, join, run, escape, Reformat, format_dt, setter,
  text_block, date_block, same,
}
use open_claw_bridge.Apple.Tsv.{fs, rs, parse_tsv, optional}
use open_claw_bridge.Apple.Calendar.{iso_helper, try_block, separators, escape_optional, expect_ok}

pub record Reminder : Type 0 where
  pub id : Text
  pub title : Text
  pub list : Text
  pub completed : Bool
  pub due_date : Option Text
  pub notes : Option Text

-- `every list`, or those of one name.
unfoldable pub lists_expr : Option Text → List Part
lists_expr none = raw "every list" ∷ []
lists_expr (some list_e) = raw "(lists whose name is " ∷ quoted list_e ∷ raw ")" ∷ []

abbrev pub truth : Bool → String
truth b = if b then "true" else "false"

unfoldable pub list_script : List Part → (completed : Bool) → List Part
list_script expr completed =
    iso_helper
    ++ (separators
        ++ (raw "set out to "
            ∷ quoted []
            ∷ raw "\ntell application "
            ∷ quoted (codes "Reminders")
            ∷ raw "\n  set theLists to "
            ∷ (expr
                ++ (raw "\n  repeat with lst in theLists\n"
                    ∷ raw "    repeat with r in (reminders of lst whose completed is "
                    ∷ raw (truth completed)
                    ∷ raw ")\n"
                    ∷ (try_block "dd" "isoStr(due date of r)"
                        ++ (try_block "bd" "(body of r) as string"
                            ++ raw "      set out to out & (id of r) & fs & (name of r) "
                              ∷ raw "& fs & (name of lst) & fs & ((completed of r) as string) "
                              ∷ raw "& fs & dd & fs & bd & rs\n"
                              ∷ raw "    end repeat\n  end repeat\nend tell\nreturn out\n"
                              ∷ []))))))

-- `str.lower` on the letters A to Z.
abbrev lower : ℕ → ℕ
lower c = if leb 65 c && leb c 90 then c + 32 else c

-- The loop over the records: one without six fields is skipped.
unfoldable pub reminder_of : List Text → Option Reminder
unfolding optional same
reminder_of (rid ∷ name ∷ lst ∷ comp ∷ due ∷ body ∷ []) = some (record {
  id = rid;
  title = name;
  list = lst;
  completed = same (map lower comp) (codes "true");
  due_date = optional due;
  notes = optional body;
})
reminder_of _ = none

unfoldable pub reminders : List (List Text) → List Reminder
unfolding reminder_of
reminders [] = []
reminders (fields ∷ records) = elim (reminder_of fields) [
  | none ↦ reminders records
  | some r ↦ r ∷ reminders records
]

unfoldable pub list_reminders :
    Runner → (list_name : Option String) (completed : Bool) → Exec Log (List Reminder)
unfolding escape_optional list_script lists_expr reminders parse_tsv
list_reminders runner list_name completed = do
  list_e ← escape_optional list_name
  raw_out ← run runner (render (list_script (lists_expr list_e) completed))
  pure (reminders (parse_tsv raw_out))

unfoldable pub create_script : (list_e title_e : Text) → List (List Part) → List Part
unfolding join
create_script list_e title_e more =
    raw "tell application "
    ∷ quoted (codes "Reminders")
    ∷ raw "\n  set targetList to first list whose name is "
    ∷ quoted list_e
    ∷ raw "\n  set newR to make new reminder at end of reminders of targetList with properties {"
    ∷ (join ", " ((raw "name:" ∷ quoted title_e ∷ []) ∷ more)
        ++ raw "}\n  return id of newR\nend tell\n" ∷ [])

unfoldable pub create_reminder :
    Reformat → Runner → (list_name title : String) (due_date notes : Option String) → Exec Log Text
unfolding escape text_block date_block create_script render
create_reminder reformat runner list_name title due_date notes = do
  list_e ← escape list_name
  title_e ← escape title
  body ← setter (text_block "body:") notes
  due ← setter (date_block reformat "due date:(date ") due_date
  run runner (render (create_script list_e title_e (body ++ due)))

-- The scripts that look a reminder up and do `body` with it.
unfoldable pub find_script : (rid : Text) → List Part → List Part
find_script rid body =
    raw "tell application "
    ∷ quoted (codes "Reminders")
    ∷ raw "\n  repeat with lst in lists\n    try\n"
    ∷ raw "      set r to (first reminder of lst whose id is "
    ∷ quoted rid
    ∷ raw ")\n      "
    ∷ (body
        ++ raw "\n      return "
          ∷ quoted (codes "ok")
          ∷ raw "\n    end try\n  end repeat\nend tell\nreturn "
          ∷ quoted (codes "not_found")
          ∷ raw "\n"
          ∷ [])

unfoldable pub reminder_not_found : String → BridgeError
reminder_not_found reminder_id =
    error not_found (concat ("Reminder not found: " ∷ reminder_id ∷ []))
      (("id", text reminder_id) ∷ [])

-- The keyword arguments of `update_reminder`.
pub record ReminderPatch : Type 0 where
  pub title : Option String
  pub notes : Option String
  pub due_date : Option String
  pub completed : Option Bool

-- From `if not setters` on.
unfoldable pub apply_setters :
    Runner → String → (rid : Text) → List (List Part) → Exec Log (Unit {0})
unfolding join find_script render reminder_not_found expect_ok
apply_setters runner reminder_id rid [] = pure tt
apply_setters runner reminder_id rid (b ∷ bs) = do
  result ← run runner (render (find_script rid (join "\n      " (b ∷ bs))))
  expect_ok (reminder_not_found reminder_id) result

unfoldable pub completed_block : Bool → Exec Log (List Part)
completed_block completed = pure (raw "set completed of r to " ∷ raw (truth completed) ∷ [])

unfoldable pub update_reminder :
    Reformat → Runner → (reminder_id : String) → ReminderPatch → Exec Log (Unit {0})
unfolding escape text_block date_block completed_block apply_setters
update_reminder reformat runner reminder_id p = do
  rid ← escape reminder_id
  title ← setter (text_block "set name of r to ") p.title
  notes ← setter (text_block "set body of r to ") p.notes
  due ← setter (date_block reformat "set due date of r to (date ") p.due_date
  completed ← setter completed_block p.completed
  apply_setters runner reminder_id rid (title ++ (notes ++ (due ++ completed)))

unfoldable pub delete_reminder : Runner → (reminder_id : String) → Exec Log (Unit {0})
unfolding escape find_script render reminder_not_found expect_ok
delete_reminder runner reminder_id = do
  rid ← escape reminder_id
  result ← run runner (render (find_script rid (raw "delete r" ∷ [])))
  expect_ok (reminder_not_found reminder_id) result
