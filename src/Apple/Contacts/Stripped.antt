-- ===== src/Apple/Contacts/Stripped.antt =====
-- What `str.strip` leaves of the text that the search script printed.
use open_claw_bridge.Prelude.{
  ◌≡◌, refl, sym, ap, ◌∙◌, true, List, [], ◌∷◌, ◌++◌, append_assoc, is_space, All,
}
use open_claw_bridge.Apple.Runner.{Text, strip, rstrip}
use open_claw_bridge.Apple.Tsv.{fs, rs, is_filled}
use open_claw_bridge.Apple.Tsv.Cut.{
  is_inked, begins_inked, append-is_inked, lstrip_inked, rstrip-append, rstrip_behind,
}
use open_claw_bridge.Apple.Contacts.{Contact}
use open_claw_bridge.Apple.Contacts.Printed.{joined, block, printed, IsContact, joined-is_inked}

-- What stripping leaves of the last record.
abbrev pub rest_of : (name : Text) → (emails phones : List Text) → Text
rest_of name (v ∷ emails) phones = name ++ fs ∷ (joined phones ++ fs ∷ joined (v ∷ emails))
rest_of name [] (v ∷ phones) = name ++ fs ∷ joined (v ∷ phones)
rest_of name [] [] = name

-- What it leaves of the output.
unfoldable pub cut : Contact → List Contact → Text
cut p [] = rest_of p.name p.emails p.phones
cut p (q ∷ ps) = block p ++ rs ∷ cut q ps

-- The line break that osascript prints at the end.
abbrev pub newline : Text
newline = 10 ∷ []

pub rest_of-is_inked :
    (name : Text) (emails phones : List Text)
    → is_inked name ≡ true
    → is_inked (rest_of name emails phones) ≡ true
rest_of-is_inked name (v ∷ emails) phones h =
    append-is_inked name (fs ∷ (joined phones ++ fs ∷ joined (v ∷ emails))) (
      append-is_inked (fs ∷ joined phones) (fs ∷ joined (v ∷ emails))
        (append-is_inked (fs ∷ []) (joined (v ∷ emails)) (joined-is_inked v emails)))
rest_of-is_inked name [] (v ∷ phones) h =
    append-is_inked name (fs ∷ joined (v ∷ phones))
      (append-is_inked (fs ∷ []) (joined (v ∷ phones)) (joined-is_inked v phones))
rest_of-is_inked name [] [] h = h

regroup :
    (name blob : Text)
    → (name ++ fs ∷ (blob ++ fs ∷ [])) ++ rs ∷ newline ≡ (name ++ fs ∷ blob) ++ fs ∷ rs ∷ newline
regroup name blob = simp append_assoc

-- The last record and what is behind it, as it was printed.
last_block :
    (name : Text) (emails phones : List Text)
    → is_inked name ≡ true
    → rstrip ((name ++ fs ∷ (joined phones ++ fs ∷ joined emails)) ++ rs ∷ newline)
      ≡ rest_of name emails phones
unfolding joined
last_block name (v ∷ emails) phones h =
    rstrip-append (rest_of name (v ∷ emails) phones) (rs ∷ newline)
      (rest_of-is_inked name (v ∷ emails) phones h) (unfold is_space in refl)
last_block name [] (v ∷ phones) h =
    ap rstrip (regroup name (joined (v ∷ phones)))
    ∙ rstrip-append (rest_of name [] (v ∷ phones)) (fs ∷ rs ∷ newline)
        (rest_of-is_inked name [] (v ∷ phones) h) (unfold is_space in refl)
last_block name [] [] h =
    ap rstrip (append_assoc name (fs ∷ fs ∷ []) (rs ∷ newline))
    ∙ rstrip-append name (fs ∷ fs ∷ rs ∷ newline) h (unfold is_space in refl)

pub is_inked-is_filled : (t : Text) → is_inked t ≡ true → is_filled t ≡ true
unfolding is_inked
is_inked-is_filled [] h = h
is_inked-is_filled (c ∷ t) h = refl

pub cut-is_inked :
    (p : Contact) (ps : List Contact) → All IsContact (p ∷ ps) → is_inked (cut p ps) ≡ true
unfolding cut
cut-is_inked p [] (h, k) = rest_of-is_inked p.name p.emails p.phones h.name_ends
cut-is_inked p (q ∷ ps) (h, k) =
    append-is_inked (block p) (rs ∷ cut q ps)
      (append-is_inked (rs ∷ []) (cut q ps) (cut-is_inked q ps k))

filled-append : (a b : Text) → is_filled a ≡ true → is_filled (a ++ b) ≡ true
filled-append [] b h = absurd {0} (cc)
filled-append (c ∷ a) b h = refl

behind : (a s t : Text) → rstrip s ≡ t → is_filled t ≡ true → rstrip (a ++ rs ∷ s) ≡ a ++ rs ∷ t
behind a s t e f =
    ap rstrip (sym (append_assoc a (rs ∷ []) s))
    ∙ rstrip_behind (a ++ rs ∷ []) s (rw e f)
    ∙ append_assoc a (rs ∷ []) (rstrip s)
    ∙ ap (λ (x : Text). a ++ rs ∷ x) e

rstrip-printed :
    (p : Contact) (ps : List Contact)
    → All IsContact (p ∷ ps)
    → rstrip (printed (p ∷ ps) ++ newline) ≡ cut p ps
unfolding cut
rstrip-printed p [] (h, k) =
    ap rstrip (append_assoc (block p) (rs ∷ []) newline)
    ∙ last_block p.name p.emails p.phones h.name_ends
rstrip-printed p (q ∷ ps) (h, k) =
    ap rstrip (append_assoc (block p) (rs ∷ printed (q ∷ ps)) newline)
    ∙ behind (block p) (printed (q ∷ ps) ++ newline) (cut q ps) (rstrip-printed q ps k)
        (is_inked-is_filled (cut q ps) (cut-is_inked q ps k))

pub block-is_filled : (p : Contact) → IsContact p → is_filled (block p) ≡ true
block-is_filled p h =
    filled-append p.name (fs ∷ (joined p.phones ++ fs ∷ joined p.emails))
      (is_inked-is_filled p.name h.name_ends)

begins-append : (a b : Text) → begins_inked a ≡ true → begins_inked (a ++ b) ≡ true
unfolding begins_inked
begins-append [] b h = absurd {0} (cc)
begins-append (c ∷ a) b h = h

begins-printed :
    (p : Contact) (ps : List Contact)
    → IsContact p
    → begins_inked (printed (p ∷ ps) ++ newline) ≡ true
begins-printed p ps h = begins-append (block p ++ rs ∷ printed ps) newline (
    begins-append (block p) (rs ∷ printed ps)
      (begins-append p.name (fs ∷ (joined p.phones ++ fs ∷ joined p.emails)) h.name_begins))

pub strip-printed :
    (p : Contact) (ps : List Contact)
    → All IsContact (p ∷ ps)
    → strip (printed (p ∷ ps) ++ newline) ≡ cut p ps
unfolding strip
strip-printed p ps (h, k) =
    ap rstrip (lstrip_inked (printed (p ∷ ps) ++ newline) (begins-printed p ps h))
    ∙ rstrip-printed p ps (h, k)
