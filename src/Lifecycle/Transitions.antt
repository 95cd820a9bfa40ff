-- ===== src/Lifecycle/Transitions.antt =====
-- Which changes of status the requests make.
use mathlib.Core.Option
use mathlib.Core.Path.{subst, subst₂}
use open_claw_bridge.Prelude.{
  String, ◌≡◌, refl, ◌≢◌, ◌⊎◌, inl, inr, true, not, ◌&&◌, ◌||◌, Option, none, some, arith, str_eq,
  eq_iff, if◌then◌else◌, Bool-cases, Option-cases, is_some,
}
use open_claw_bridge.Errors.{ErrorKind, Result, ok, err, conflict, not_found, bad_request}
use open_claw_bridge.Drafts.{Draft, Status, pending, approved, rejected, sent, send_failed, is}
use open_claw_bridge.Drafts.Table.{Table, select}
use open_claw_bridge.Drafts.Sound.{legal}
use open_claw_bridge.Drafts.Rows.{select-update}
use open_claw_bridge.Drafts.Patch.{DraftPatch, Call, patched, target, patch_draft}
use open_claw_bridge.Server.{App}
use open_claw_bridge.Lifecycle.Invariant.{patched-key}
use open_claw_bridge.Lifecycle.Tables.{accepts, patch_table, agent_conn-patch_draft}

-- The status of the draft under a key.
abbrev pub status_of : String → Table → Option Status
status_of id t = Option.map (λ d. d.status) (select id t)

-- What PATCH may do to one draft: keep its status, approve it, or reject it, the last two from
-- `pending`, `approved` and `send_failed` only.
abbrev pub OperatorMove : Option Status → Option Status → Type 0
OperatorMove none o = o ≡ none
OperatorMove (some a) none = ⊥
OperatorMove (some a) (some b) =
    (a ≡ b)
    ⊎ (((b ≡ approved) ⊎ (b ≡ rejected)) × ((a ≡ pending) ⊎ (a ≡ approved) ⊎ (a ≡ send_failed)))

move_patched :
    (c : Call) (p : DraftPatch) (d : Draft)
    → accepts p d ≡ true
    → OperatorMove (some d.status) (some (patched c p d).status)
unfolding patched
move_patched c p d h = ground arith

OperatorMove-refl : (o : Option Status) → OperatorMove o o
OperatorMove-refl none = refl
OperatorMove-refl (some a) = inl refl

move_row :
    (c : Call) (id : String) (p : DraftPatch) (t : Table) (j : String)
    → OperatorMove (status_of j t) (status_of j (patch_table c id p t))
move_row c id p t j = elim (Option-cases (select id t)) [
  | inl missing ↦ rw (missing, patch_table) (OperatorMove-refl (status_of j t))
  | inr (d, found) ↦ elim (Bool-cases (accepts p d)) [
    | inr refused ↦
        subst (λ u. OperatorMove (status_of j t) (status_of j u)) (ground arith)
          (OperatorMove-refl (status_of j t))
    | inl fine ↦ elim (Bool-cases (str_eq id j)) [
      | inl here ↦
          subst₂ OperatorMove {x = some d.status} {u = some (patched c p d).status}
            (ground (arith, eq_iff id j))
            (ground (arith, select-update id j (patched c p) t (patched-key c p), eq_iff id j))
            (move_patched c p d fine)
      | inr other ↦
          subst (OperatorMove (status_of j t))
            (ground (arith, select-update id j (patched c p) t (patched-key c p)))
            (OperatorMove-refl (status_of j t))
    ]
  ]
]

other_row :
    (c : Call) (id : String) (p : DraftPatch) (t : Table) (j : String)
    → id ≢ j
    → select j (patch_table c id p t) ≡ select j t
other_row c id p t j ne =
    ground (arith, select-update id j (patched c p) t (patched-key c p), eq_iff id j)

-- PATCH keeps the status of a draft, or approves or rejects it from `pending`, `approved` or
-- `send_failed`: it never makes a draft `pending`, `sent` or `send_failed`, and never leaves `sent` or
-- `rejected`. It makes no draft, removes none, and every draft but its own stays as it was.
pub patch_draft_moves :
    (c : Call) (id : String) (p : DraftPatch) (app : App) (t t' : Table)
    → app.agent_conn ≡ some t
    → (patch_draft c id p app).1.agent_conn ≡ some t'
    → (j : String)
    → OperatorMove (status_of j t) (status_of j t') × ((id ≡ j) ⊎ (select j t' ≡ select j t))
patch_draft_moves c id p app t t' e e' j =
    let same : t' ≡ patch_table c id p t = ground (arith, agent_conn-patch_draft c id p app) in
    rw same (
      move_row c id p t j,
      elim (Bool-cases (str_eq id j)) [
        | inl here ↦ inl (ground (arith, here, eq_iff id j))
        | inr other ↦ inr (other_row c id p t j (ground (arith, other, eq_iff id j)))
      ],
    )

-- The kind of the exception that a request raised.
abbrev pub raised : {A : Type 0} → Result A → Option ErrorKind
raised (ok a) = none
raised (err e) = some e.kind

-- Why PATCH refuses to touch a row, by the documented checks in their order.
abbrev pub refusal : DraftPatch → Option Draft → Option ErrorKind
refusal p row =
    if not (is_some p.status) && not (is_some p.body) then some bad_request else (elim row [
      | none ↦ some not_found
      | some d ↦
          if not (legal d.status (target p d.status))
          then some conflict
          else if is_some p.body && (is d.status sent || is d.status rejected)
          then some conflict
          else none
    ])

-- A refused PATCH answers with the documented error: 400 for an empty body, 404 for an unknown
-- draft, 409 for an illegal transition or an edit of a sent or rejected draft. It changes nothing:
-- no row, no queue, no event.
pub patch_draft_refused :
    (c : Call) (id : String) (p : DraftPatch) (app : App) (t : Table) (k : ErrorKind)
    → app.agent_conn ≡ some t
    → refusal p (select id t) ≡ some k
    → (raised (patch_draft c id p app).0 ≡ some k) × ((patch_draft c id p app).1 ≡ app)
unfolding patch_draft
patch_draft_refused c id p app t k e h = ground arith
