-- ===== src/Drafts/Rows.antt =====
-- The table `drafts` as a whole: sound rows under distinct keys. Each statement keeps that.
use mathlib.Core.Option
use mathlib.Core.Path.{subst}
use open_claw_bridge.Prelude.{
  eq_refl, String, ◌≡◌, refl, sym, inl, inr, none, some, [], ◌∷◌, ◌++◌, arith, str_eq, eq_iff,
  if◌then◌else◌, Bool-cases, Option-cases, All,
}
use open_claw_bridge.Drafts.{Draft}
use open_claw_bridge.Drafts.Table.{Table, has_id, select, update, insert, is_text, select_dispatch}
use open_claw_bridge.Drafts.Sound.{IsSound}

-- No two rows have one key.
abbrev pub Distinct : Table → Type 0
Distinct [] = Unit
Distinct (d ∷ t) = (select d.draft_id t ≡ none) × Distinct t

pub record IsValid (t : Table) : Type 0 where
  pub rows : All IsSound t
  pub keys : Distinct t

pub select-append_ne :
    (id : String) (d : Draft) (t : Table)
    → select id t ≡ none
    → select id (t ++ d ∷ []) ≡ (if has_id id d then some d else none)
select-append_ne id d [] h = refl
select-append_ne id d (x ∷ t) h = ground (arith, select-append_ne id d t)

-- An update that keeps the keys is seen at its key alone.
pub select-update :
    (id j : String) (f : Draft → Draft) (t : Table)
    → ((d : Draft) → (f d).draft_id ≡ d.draft_id)
    → select j (update id f t) ≡ (if str_eq id j then Option.map f (select j t) else select j t)
select-update id j f [] k = ground arith
select-update id j f (x ∷ t) k =
    ground
      (arith, select-update id j f t k, k x, eq_iff id j, eq_iff x.draft_id id, eq_iff x.draft_id j)

pub select-key : (id : String) (t : Table) {d : Draft} → select id t ≡ some d → d.draft_id ≡ id
select-key id [] h = cc
select-key id (x ∷ t) {d} h = ground (arith, select-key id t {d = d}, eq_iff x.draft_id id)

pub All-select :
    (P : Draft → Type 0) (id : String) (t : Table) {d : Draft}
    → All P t
    → select id t ≡ some d
    → P d
All-select P id [] a h = cc
All-select P id (x ∷ t) a h = elim (Bool-cases (has_id id x)) [
  | inl here ↦ subst P (ground arith) a.0
  | inr later ↦ All-select P id t a.1 (rw later at h)
]

pub All-select_dispatch :
    (P : Draft → Type 0) (mid : String) (t : Table) {d : Draft}
    → All P t
    → select_dispatch mid t ≡ some d
    → P d
All-select_dispatch P mid [] a h = cc
All-select_dispatch P mid (x ∷ t) a h = elim (Bool-cases (is_text x.dispatch_message_id mid)) [
  | inl here ↦ subst P (ground arith) a.0
  | inr later ↦ All-select_dispatch P mid t a.1 (rw later at h)
]

Distinct-update :
    (id : String) (f : Draft → Draft) (t : Table)
    → ((d : Draft) → (f d).draft_id ≡ d.draft_id)
    → Distinct t
    → Distinct (update id f t)
Distinct-update id f [] k h = tt
Distinct-update id f (x ∷ t) k h =
    (ground (arith, select-update id x.draft_id f t k, k x, h.0), Distinct-update id f t k h.1)

All-append : (P : Draft → Type 0) (t : Table) (d : Draft) → All P t → P d → All P (t ++ d ∷ [])
All-append P [] d a h = (h, tt)
All-append P (x ∷ t) d a h = (a.0, All-append P t d a.1 h)

update_missing :
    (id : String) (f : Draft → Draft) (t : Table) → select id t ≡ none → update id f t ≡ t
update_missing id f [] h = refl
update_missing id f (x ∷ t) h = ground (arith, update_missing id f t)

-- The function need only be good on the row that the key selects.
All-update :
    (P : Draft → Type 0) (id : String) (f : Draft → Draft) (t : Table)
    → Distinct t
    → All P t
    → ((d : Draft) → select id t ≡ some d → P (f d))
    → All P (update id f t)
All-update P id f [] k a h = tt
All-update P id f (x ∷ t) k a h = elim (Bool-cases (has_id id x)) [
  | inl here ↦ rw here (
    h x (rw here),
    subst (All P) (sym (update_missing id f t (ground (arith, k.0, eq_iff x.draft_id id)))) a.1,
  )
  | inr later ↦ rw later (a.0, All-update P id f t k.1 a.1 (λ d e. h d (rw later e)))
]

pub update-IsValid :
    (id : String) (f : Draft → Draft) (t : Table)
    → ((d : Draft) → (f d).draft_id ≡ d.draft_id)
    → ((d : Draft) → IsSound d → select id t ≡ some d → IsSound (f d))
    → IsValid t
    → IsValid (update id f t)
update-IsValid id f t k s v = record {
  rows = All-update IsSound id f t v.keys v.rows (λ d e. s d (All-select IsSound id t v.rows e) e);
  keys = Distinct-update id f t k v.keys;
}

Distinct-append :
    (d : Draft) (t : Table) → select d.draft_id t ≡ none → Distinct t → Distinct (t ++ d ∷ [])
Distinct-append d [] h k = (refl, tt)
Distinct-append d (x ∷ t) h k = (
  rw (select-append_ne x.draft_id d t k.0)
      (ground (arith, eq_iff d.draft_id x.draft_id, eq_iff x.draft_id d.draft_id)),
  Distinct-append d t (ground arith) k.1,
)

pub insert-IsValid :
    (d : Draft) (t : Table) {t' : Table} → insert d t ≡ some t' → IsSound d → IsValid t → IsValid t'
insert-IsValid d t h s v = elim (Option-cases (select d.draft_id t)) [
  | inl free ↦
      subst IsValid (ground arith)
        (record { rows = All-append IsSound t d v.rows s; keys = Distinct-append d t free v.keys })
  | inr (x, taken) ↦ absurd (ground arith)
]

-- A row that the index on `dispatch_message_id` finds is the row of its key.
pub select-select_dispatch :
    (mid : String) (t : Table) {d : Draft}
    → Distinct t
    → select_dispatch mid t ≡ some d
    → select d.draft_id t ≡ some d
select-select_dispatch mid [] k h = cc
select-select_dispatch mid (x ∷ t) {d} k h = elim (Bool-cases (is_text x.dispatch_message_id mid)) [
  | inl here ↦ ground (arith, eq_refl x.draft_id)
  | inr later ↦
      ground (arith, select-select_dispatch mid t {d = d} k.1, eq_iff x.draft_id d.draft_id, k.0)
]

pub is_some-select_dispatch :
    (mid : String) (t : Table) {d : Draft}
    → select_dispatch mid t ≡ some d
    → d.dispatch_message_id ≡ some mid
is_some-select_dispatch mid [] h = cc
is_some-select_dispatch mid (x ∷ t) {d} h = elim (Bool-cases (is_text x.dispatch_message_id mid)) [
  | inl here ↦ elim (Option-cases x.dispatch_message_id) [
    | inl empty ↦ ground arith
    | inr (m, e) ↦ ground (arith, eq_iff m mid)
  ]
  | inr later ↦ is_some-select_dispatch mid t {d = d} (ground arith)
]
