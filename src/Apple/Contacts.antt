-- ===== src/Apple/Contacts.antt =====
-- bridge/src/bridge/providers/apple/contacts.py: the search in Contacts.
mod Limit
pub mod Printed
pub mod Stripped
pub mod Found
use open_claw_bridge.Prelude.{
  ℕ, zero, suc, ◌+◌, ◌-◌, ◌*◌, ◌/◌, ◌%◌, ◌^◌, ◌≤◌, ◌<◌, min, max, String, text_length, utf8_length,
  ◌≡◌, refl, sym, ap, ◌∙◌, ◌≢◌, ◌↔◌, ◌⊎◌, inl, inr, Bool, true, false, not, ◌&&◌, ◌||◌, Option,
  none, some, List, [], ◌∷◌, ◌++◌, map, append-nil, append_assoc, arith, str_eq, eq_iff, eq_refl,
  ltb, leb, ◌==◌, if◌then◌else◌, Bool-cases, Option-cases, concat, concat_one, concat_nil,
  take_text, is_empty, or_else, text_mem, is_space, is_blank, length, length-append, get_or,
  is_some, filter, find, any, All, reverse, Forward,
}
use open_claw_bridge.Errors.{Result}
use open_claw_bridge.Server.{Exec, pure, ◌>>=◌}
use open_claw_bridge.Relay.Outbound.{codes}
use open_claw_bridge.Apple.Runner.{Text}
use open_claw_bridge.Apple.Script.{
  Log, Runner, Part, raw, chars, quoted, render, run, escape, decimal,
}
use open_claw_bridge.Apple.Tsv.{split, is_filled, parse_tsv}
use open_claw_bridge.Apple.Calendar.{separators}

-- `_INNER`
abbrev pub inner : ℕ
inner = 124

pub record Contact : Type 0 where
  pub name : Text
  pub phones : List Text
  pub emails : List Text

unfoldable pub search_script : (q : Text) → (limit : ℕ) → List Part
unfolding decimal
search_script q limit =
    separators
    ++ raw "set out to "
      ∷ quoted []
      ∷ raw "\nset seen to 0\ntell application "
      ∷ quoted (codes "Contacts")
      ∷ raw "\n  set ppl to (every person whose name contains "
      ∷ quoted q
      ∷ raw ")\n  repeat with p in ppl\n    if seen >= "
      ∷ chars (decimal limit)
      ∷ raw " then exit repeat\n    set phs to "
      ∷ quoted []
      ∷ raw "\n    repeat with ph in (phones of p)\n      set phs to phs & (value of ph) & "
      ∷ quoted (codes "|")
      ∷ raw "\n    end repeat\n    set ems to "
      ∷ quoted []
      ∷ raw "\n    repeat with em in (emails of p)\n      set ems to ems & (value of em) & "
      ∷ quoted (codes "|")
      ∷ raw "\n    end repeat\n"
      ∷ raw "    set out to out & ((name of p) as string) & fs & phs & fs & ems & rs\n"
      ∷ raw "    set seen to seen + 1\n  end repeat\nend tell\nreturn out\n"
      ∷ []

-- `[s for s in blob.split(_INNER) if s]`
unfoldable pub values : Text → List Text
unfolding split
values blob = filter is_filled (split inner blob)

-- The loop over the records: one without three fields is skipped.
unfoldable pub contact_of : List Text → Option Contact
unfolding values
contact_of (name ∷ phones_blob ∷ emails_blob ∷ []) =
    some (record { name = name; phones = values phones_blob; emails = values emails_blob })
contact_of _ = none

unfoldable pub contacts : List (List Text) → List Contact
unfolding contact_of
contacts [] = []
contacts (fields ∷ records) = elim (contact_of fields) [
  | none ↦ contacts records
  | some c ↦ c ∷ contacts records
]

-- `ContactsProvider.search`
unfoldable pub search_contacts : Runner → (query : String) → (limit : ℕ) → Exec Log (List Contact)
unfolding escape search_script contacts parse_tsv
search_contacts runner query limit = do
  q ← escape query
  raw_out ← run runner (render (search_script q limit))
  pure (contacts (parse_tsv raw_out))
