-- ===== src/Apple/Contacts/Found.antt =====
-- The people that a search returns: those that the script printed, but for one at the end who has no
-- email, whose record the stripping of the output has shortened.
use mathlib.Core.Path.{subst}
use open_claw_bridge.Prelude.{
  ℕ, String, ◌≡◌, refl, sym, ap, ◌∙◌, inl, inr, Bool, true, false, Option, none, some, List, [],
  ◌∷◌, ◌++◌, map, if◌then◌else◌, Bool-cases, filter, All,
}
use open_claw_bridge.Errors.{Result, ok}
use open_claw_bridge.Server.{pure, ◌>>=◌}
use open_claw_bridge.Relay.Outbound.{codes}
use open_claw_bridge.Apple.Runner.{Text, strip, Process, finished, run_osascript, output}
use open_claw_bridge.Apple.Script.{run, Log, render, escape, escaped, is_clean}
use open_claw_bridge.Apple.Checks.{bind-ok}
use open_claw_bridge.Apple.Tsv.{fs, rs, split, is_filled, parse_tsv}
use open_claw_bridge.Apple.Tsv.Cut.{Lacks, append-Lacks, split-append, split-Lacks}
use open_claw_bridge.Apple.Contacts.{Contact, contact_of, contacts, search_script, search_contacts}
use open_claw_bridge.Apple.Contacts.Printed.{
  joined, block, printed, IsValue, IsContact, joined-no_fs, joined-no_rs, block-no_rs,
  contact_of-block,
}
use open_claw_bridge.Apple.Contacts.Stripped.{
  rest_of, cut, newline, rest_of-is_inked, is_inked-is_filled, cut-is_inked, block-is_filled,
  strip-printed,
}

abbrev has_any : List Text → Bool
has_any [] = false
has_any (v ∷ vs) = true

-- The contacts that a search returns of those that the script printed.
unfoldable pub shown : List Contact → List Contact
unfolding has_any
shown [] = []
shown (p ∷ []) = if has_any p.emails then p ∷ [] else []
shown (p ∷ q ∷ ps) = p ∷ shown (q ∷ ps)

rest_of-Lacks :
    (name : Text) (emails phones : List Text)
    → Lacks rs name
    → All IsValue emails
    → All IsValue phones
    → Lacks rs (rest_of name emails phones)
rest_of-Lacks name (v ∷ emails) phones n e h =
    let tail : Lacks rs (fs ∷ joined (v ∷ emails)) = joined-no_rs (v ∷ emails) e in
    let both : Lacks rs (fs ∷ (joined phones ++ fs ∷ joined (v ∷ emails))) =
      append-Lacks rs (joined phones) (fs ∷ joined (v ∷ emails)) (joined-no_rs phones h) tail in
    append-Lacks rs name (fs ∷ (joined phones ++ fs ∷ joined (v ∷ emails))) n both
rest_of-Lacks name [] (v ∷ phones) n e h =
    let tail : Lacks rs (fs ∷ joined (v ∷ phones)) = joined-no_rs (v ∷ phones) h in
    append-Lacks rs name (fs ∷ joined (v ∷ phones)) n tail
rest_of-Lacks name [] [] n e h = n

-- A record that has lost its emails is dropped.
contact_of-rest_of :
    (p : Contact) (emails phones : List Text)
    → p.emails ≡ emails
    → p.phones ≡ phones
    → IsContact p
    → contact_of (split fs (rest_of p.name emails phones))
      ≡ (if has_any emails then some p else none)
contact_of-rest_of p (v ∷ emails) phones e f h =
    ap
      (λ (x : List Text × List Text).
        contact_of (split fs (p.name ++ fs ∷ (joined (x.1) ++ fs ∷ joined (x.0)))))
      (λ i. (sym e i, sym f i))
    ∙ contact_of-block p h
contact_of-rest_of p [] (v ∷ phones) e f h =
    unfold contact_of in
    rw
      (
        split-append fs p.name (joined (v ∷ phones)) h.name_plain.no_fs,
        split-Lacks fs (joined (v ∷ phones))
            (joined-no_fs (v ∷ phones) (subst (All IsValue) (f) h.phones_plain)),
      )
      refl
contact_of-rest_of p [] [] e f h =
    unfold contact_of in rw (split-Lacks fs p.name h.name_plain.no_fs) refl

contacts_one :
    (t : Text) (o : Option Contact)
    → Lacks rs t
    → is_filled t ≡ true
    → contact_of (split fs t) ≡ o
    → contacts (map (split fs) (filter is_filled (split rs t)))
      ≡ elim o [ none ↦ [] | some c ↦ c ∷ [] ]
unfolding contacts
contacts_one t o l f e = rw (split-Lacks rs t l, f) (rw (e, contacts) refl)

contacts_step :
    (t s : Text) (c : Contact)
    → Lacks rs t
    → is_filled t ≡ true
    → contact_of (split fs t) ≡ some c
    → contacts (map (split fs) (filter is_filled (split rs (t ++ rs ∷ s))))
      ≡ c ∷ contacts (map (split fs) (filter is_filled (split rs s)))
unfolding contacts
contacts_step t s c l f e = rw (split-append rs t s l, f) (rw (e, contacts) refl)

contacts-cut :
    (p : Contact) (ps : List Contact)
    → All IsContact (p ∷ ps)
    → contacts (map (split fs) (filter is_filled (split rs (cut p ps)))) ≡ shown (p ∷ ps)
unfolding cut shown
contacts-cut p [] (h, k) =
    contacts_one (rest_of p.name p.emails p.phones) (if has_any p.emails then some p else none)
      (rest_of-Lacks p.name p.emails p.phones h.name_plain.no_rs h.emails_plain h.phones_plain)
      (is_inked-is_filled _ (rest_of-is_inked p.name p.emails p.phones h.name_ends))
      (contact_of-rest_of p p.emails p.phones refl refl h)
    ∙ elim (Bool-cases (has_any p.emails)) [ inl e ↦ rw e refl | inr e ↦ rw e refl ]
contacts-cut p (q ∷ ps) (h, k) =
    contacts_step (block p) (cut q ps) p (block-no_rs p h) (block-is_filled p h)
      (contact_of-block p h)
    ∙ ap (λ (x : List Contact). p ∷ x) (contacts-cut q ps k)

-- What a search returns of what the script printed.
pub parse_tsv-printed :
    (p : Contact) (ps : List Contact)
    → All IsContact (p ∷ ps)
    → contacts (parse_tsv (strip (printed (p ∷ ps) ++ newline))) ≡ shown (p ∷ ps)
unfolding parse_tsv
parse_tsv-printed p ps h =
    rw (strip-printed p ps h, is_inked-is_filled (cut p ps) (cut-is_inked p ps h))
      (contacts-cut p ps h)

ran :
    (timeout : ℕ) (osascript : Text → Process) (script stdout : Text) (stderr : String)
    → osascript script ≡ finished (record { returncode = 0; stdout = some stdout; stderr = stderr })
    → run_osascript timeout osascript script ≡ ok (strip stdout)
unfolding run_osascript output
ran timeout osascript script stdout stderr e = rw (e, run_osascript) refl

escape_ok :
    (s : String) (log : Log) → is_clean s ≡ true → escape s log ≡ (ok (escaped (codes s)), log)
unfolding escape
escape_ok s log c = rw c refl

-- A search in Contacts through `run_osascript`: if osascript ends well and prints the people that the
-- script visits, and there is one, then the search returns all of them, with their names, phones and
-- emails, in their order, if the last of them has an email, and all but the last if not. It holds for
-- people whose phones and emails are not empty and hold neither a separator nor the bar that joins them,
-- and whose names hold no separator and are not blank at either end.
pub search_contacts_lem :
    (timeout : ℕ) (osascript : Text → Process) (query : String) (limit : ℕ) (stderr : String)
    (p : Contact) (ps : List Contact) (log : Log)
    → is_clean query ≡ true
    → osascript (render (search_script (escaped (codes query)) limit))
      ≡ finished
          (record { returncode = 0; stdout = some (printed (p ∷ ps) ++ newline); stderr = stderr })
    → All IsContact (p ∷ ps)
    → (search_contacts (run_osascript timeout osascript) query limit log).0 ≡ ok (shown (p ∷ ps))
unfolding search_contacts
search_contacts_lem timeout osascript query limit stderr p ps log c e h =
    let runner = run_osascript timeout osascript in
    let script = render (search_script (escaped (codes query)) limit) in
    let out = strip (printed (p ∷ ps) ++ newline) in
    let answer : runner script ≡ ok out =
      ran timeout osascript script (printed (p ∷ ps) ++ newline) stderr e in
    let finish = λ (raw_out : Text). pure (contacts (parse_tsv raw_out)) in
    let go = λ (q : Text). run runner (render (search_script q limit)) >>= finish in
    ap (λ (x : Result (List Contact) × Log). x.0)
      (bind-ok (escape query) go (escape_ok query log c)
        ∙ bind-ok (run runner script) finish
            (ap (λ (x : Result Text). (x, log ++ script ∷ [])) answer))
    ∙ ap ok (parse_tsv-printed p ps h)
