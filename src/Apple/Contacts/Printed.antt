-- ===== src/Apple/Contacts/Printed.antt =====
-- What the search script prints for the people that it visits, and how the text is cut up again.
use open_claw_bridge.Prelude.{
  ℕ, ◌≡◌, refl, ap, ◌∙◌, true, false, some, List, [], ◌∷◌, ◌++◌, arith, ◌==◌, is_space, All,
}
use open_claw_bridge.Apple.Runner.{Text}
use open_claw_bridge.Apple.Tsv.{fs, rs, split, is_filled}
use open_claw_bridge.Apple.Tsv.Cut.{
  Lacks, append-Lacks, split-append, split-Lacks, is_inked, begins_inked, append-is_inked,
}
use open_claw_bridge.Apple.Contacts.{inner, Contact, values, contact_of}

-- `set phs to phs & (value of ph) & "|"`, for each value.
unfoldable pub joined : List Text → Text
joined [] = []
joined (v ∷ vs) = v ++ inner ∷ joined vs

abbrev pub block : Contact → Text
block p = p.name ++ fs ∷ (joined p.phones ++ fs ∷ joined p.emails)

-- The value of `out`.
abbrev pub printed : List Contact → Text
printed [] = []
printed (p ∷ ps) = block p ++ rs ∷ printed ps

-- A text that the separators leave whole.
pub record IsText (t : Text) : Type 0 where
  pub no_fs : Lacks fs t
  pub no_rs : Lacks rs t

pub record IsValue (t : Text) : Type 0 where
  pub filled : is_filled t ≡ true
  pub no_inner : Lacks inner t
  pub plain : IsText t

-- A name that is not blank at its ends, and values that are not empty.
pub record IsContact (p : Contact) : Type 0 where
  pub name_begins : begins_inked p.name ≡ true
  pub name_ends : is_inked p.name ≡ true
  pub name_plain : IsText p.name
  pub phones_plain : All IsValue p.phones
  pub emails_plain : All IsValue p.emails

joined-Lacks :
    (sep : ℕ) (vs : List Text) → (inner == sep) ≡ false → All (Lacks sep) vs → Lacks sep (joined vs)
unfolding joined
joined-Lacks sep [] n h = refl
joined-Lacks sep (v ∷ vs) n (h, k) =
    append-Lacks sep v (inner ∷ joined vs) h (ground (arith, joined-Lacks sep vs n k))

no_fs_all : (vs : List Text) → All IsValue vs → All (Lacks fs) vs
no_fs_all [] h = tt
no_fs_all (v ∷ vs) (h, k) = (h.plain.no_fs, no_fs_all vs k)

no_rs_all : (vs : List Text) → All IsValue vs → All (Lacks rs) vs
no_rs_all [] h = tt
no_rs_all (v ∷ vs) (h, k) = (h.plain.no_rs, no_rs_all vs k)

pub joined-no_fs : (vs : List Text) → All IsValue vs → Lacks fs (joined vs)
joined-no_fs vs h = joined-Lacks fs vs refl (no_fs_all vs h)

pub joined-no_rs : (vs : List Text) → All IsValue vs → Lacks rs (joined vs)
joined-no_rs vs h = joined-Lacks rs vs refl (no_rs_all vs h)

-- The values of a blob are those that were joined.
pub values-joined : (vs : List Text) → All IsValue vs → values (joined vs) ≡ vs
unfolding values joined
values-joined [] h = unfold split in refl
values-joined (v ∷ vs) (h, k) =
    let ih = values-joined vs k in
    rw (split-append inner v (joined vs) h.no_inner) (ground (arith, h.filled, ih))

pub joined-is_inked : (v : Text) (vs : List Text) → is_inked (joined (v ∷ vs)) ≡ true
unfolding joined
joined-is_inked v [] = append-is_inked v (inner ∷ []) (unfold is_inked is_space in refl)
joined-is_inked v (w ∷ vs) =
    append-is_inked v (inner ∷ joined (w ∷ vs))
      (append-is_inked (inner ∷ []) (joined (w ∷ vs)) (joined-is_inked w vs))

pub block-no_rs : (p : Contact) → IsContact p → Lacks rs (block p)
block-no_rs p h =
    let emails : Lacks rs (fs ∷ joined p.emails) = joined-no_rs p.emails h.emails_plain in
    let both : Lacks rs (fs ∷ (joined p.phones ++ fs ∷ joined p.emails)) =
      append-Lacks rs (joined p.phones) (fs ∷ joined p.emails)
        (joined-no_rs p.phones h.phones_plain) emails in
    append-Lacks rs p.name (fs ∷ (joined p.phones ++ fs ∷ joined p.emails)) h.name_plain.no_rs both

-- The fields of a block.
pub split-block :
    (p : Contact)
    → IsContact p
    → split fs (block p) ≡ p.name ∷ joined p.phones ∷ joined p.emails ∷ []
split-block p h =
    split-append fs p.name (joined p.phones ++ fs ∷ joined p.emails) h.name_plain.no_fs
    ∙ ap (λ (x : List Text). p.name ∷ x)
        (split-append fs (joined p.phones) (joined p.emails) (joined-no_fs p.phones h.phones_plain)
          ∙ ap (λ (x : List Text). joined p.phones ∷ x)
              (split-Lacks fs (joined p.emails) (joined-no_fs p.emails h.emails_plain)))

pub contact_of-block : (p : Contact) → IsContact p → contact_of (split fs (block p)) ≡ some p
unfolding contact_of
contact_of-block p h =
    rw
      (
        split-block p h,
        values-joined p.phones h.phones_plain,
        values-joined p.emails h.emails_plain,
      )
      refl
