-- ===== src/Tests/Apple.antt =====
-- The Apple providers on concrete data.
use open_claw_bridge.Prelude.{
  ◌≡◌, refl, ◌≢◌, ◌⊎◌, inl, inr, true, none, some, [], ◌∷◌, ◌++◌, arith, str_eq, if◌then◌else◌,
  Bool-cases, is_space, All,
}
use open_claw_bridge.Errors.{ok}
use open_claw_bridge.Relay.Outbound.{codes}
use open_claw_bridge.Apple.Runner.{Process, finished, run_osascript, Text}
use open_claw_bridge.Apple.Script.{is_clean, Reformat, Runner, join}
use open_claw_bridge.Apple.Read.{meant}
use open_claw_bridge.Apple.Checks.{Runs, Checks, PrintsPlain, date_of}
use open_claw_bridge.Apple.Calendar.{
  create_event, create_script, update_event, find_script, EventPatch, event_not_found,
}
use open_claw_bridge.Apple.Calendar.Program.{accepts, more_says, create_event_lem}
use open_claw_bridge.Apple.Calendar.Changes.{update_event_lem, setters_say, update_accepts, found}
use open_claw_bridge.Apple.Reminders
use open_claw_bridge.Apple.Reminders.{ReminderPatch, update_reminder}
use open_claw_bridge.Apple.Reminders.Changes
use open_claw_bridge.Apple.Contacts.{Contact, search_contacts}
use open_claw_bridge.Apple.Tsv.Cut.{begins_inked, is_inked}
use open_claw_bridge.Apple.Contacts.Printed.{printed, IsContact}
use open_claw_bridge.Apple.Contacts.Stripped.{newline}
use open_claw_bridge.Apple.Contacts.Found.{search_contacts_lem, shown}

-- A library that reads one date.
abbrev reformat : Reformat
reformat iso = if str_eq iso "2026-05-01" then some (codes "2026-05-01 00:00:00") else none

reformat_plain : PrintsPlain reformat
reformat_plain iso d e = elim (Bool-cases (str_eq iso "2026-05-01")) [
  | inl b ↦ ground (arith, e, b)
  | inr b ↦ ground (arith, e, b)
]

abbrev answers : Runner
answers script = ok (codes "ok")

create_event_lem_example :
    Runs
      (accepts reformat "Work" "a \"b\"" "2026-05-01" "2026-05-01" none (some "c\\"))
      (meant (
        create_script
          (date_of reformat "2026-05-01")
          (date_of reformat "2026-05-01")
          (codes "Work")
          (codes "a \"b\"")
          (more_says none (some "c\\"))))
      answers
      (λ r. r)
      (create_event reformat answers "Work" "a \"b\"" "2026-05-01" "2026-05-01" none (some "c\\"))
create_event_lem_example =
    create_event_lem reformat answers "Work" "a \"b\"" "2026-05-01" "2026-05-01" none (some "c\\")
      reformat_plain

abbrev patch : EventPatch
patch = record {
  title = some "x";
  start = none;
  end = some "2026-05-01";
  location = none;
  notes = none;
}

update_event_lem_example :
    ((setters_say reformat patch ≡ [])
      × Checks (update_accepts reformat "e1" patch) tt (update_event reformat answers "e1" patch))
    ⊎ ((setters_say reformat patch ≢ [])
        × Runs
            (update_accepts reformat "e1" patch)
            (meant (find_script (codes "e1") (join "\n      " (setters_say reformat patch))))
            answers
            (found (event_not_found "e1"))
            (update_event reformat answers "e1" patch))
update_event_lem_example = update_event_lem reformat answers "e1" patch reformat_plain

abbrev change : ReminderPatch
change = record { title = none; notes = some "n"; due_date = none; completed = some true }

update_reminder_lem_example :
    ((Reminders.Changes.setters_say reformat change ≡ [])
      × Checks
          (Reminders.Changes.update_accepts reformat "r1" change)
          tt
          (update_reminder reformat answers "r1" change))
    ⊎ ((Reminders.Changes.setters_say reformat change ≢ [])
        × Runs
            (Reminders.Changes.update_accepts reformat "r1" change)
            (meant (
              Reminders.find_script
                (codes "r1")
                (join "\n      " (Reminders.Changes.setters_say reformat change))))
            answers
            (found (Reminders.reminder_not_found "r1"))
            (update_reminder reformat answers "r1" change))
update_reminder_lem_example =
    Reminders.Changes.update_reminder_lem reformat answers "r1" change reformat_plain

-- Two people, of whom the last has no email.
abbrev ann : Contact
ann = record { name = codes "Ann"; phones = []; emails = codes "a@b" ∷ [] }

abbrev bob : Contact
bob = record { name = codes "Bob"; phones = codes "12" ∷ []; emails = [] }

abbrev contacts_app : Text → Process
contacts_app script =
    finished
      (record { returncode = 0; stdout = some (printed (ann ∷ bob ∷ []) ++ newline); stderr = "" })

people_valid : All IsContact (ann ∷ bob ∷ [])
unfolding begins_inked is_inked is_space
people_valid = (
  record {
    name_begins = refl;
    name_ends = refl;
    name_plain = record { no_fs = refl; no_rs = refl };
    phones_plain = tt;
    emails_plain = (
      record { filled = refl; no_inner = refl; plain = record { no_fs = refl; no_rs = refl } },
      tt,
    );
  },
  (
    record {
      name_begins = refl;
      name_ends = refl;
      name_plain = record { no_fs = refl; no_rs = refl };
      phones_plain = (
        record { filled = refl; no_inner = refl; plain = record { no_fs = refl; no_rs = refl } },
        tt,
      );
      emails_plain = tt;
    },
    tt,
  ),
)

search_contacts_lem_example :
    (search_contacts (run_osascript 10000 contacts_app) "n" 10 []).0 ≡ ok (shown (ann ∷ bob ∷ []))
search_contacts_lem_example =
    search_contacts_lem 10000 contacts_app "n" 10 "" ann (bob ∷ []) [] (unfold is_clean in refl)
      refl people_valid
