-- ===== src/Brain/Dedup.antt =====
-- How often the agent acts on an event.
use open_claw_bridge.Prelude.{
  ℕ, suc, ◌+◌, ◌≤◌, String, ◌≡◌, refl, ap, ◌∙◌, inl, inr, not, ◌&&◌, ◌||◌, Option, none, some, List,
  [], ◌∷◌, ◌++◌, append_assoc, arith, str_eq, eq_iff, if◌then◌else◌, Bool-cases, is_empty, text_mem,
  any, All,
}
use open_claw_bridge.Brain.{
  Envelope, Effect, triage, draft_reply, create_draft, task_completed, World, mark_processed,
  try_mark, produce, settle, go_on, handle,
}

-- The handler on the envelopes as they are delivered, each with what the environment answers.
unfoldable pub handle_all : List (World × Envelope) → List String → List Effect × List String
unfolding handle
handle_all [] processed = ([], processed)
handle_all ((w, e) ∷ rest) processed =
    let (raised, effects, processed') = handle w e processed in
    let (more, last) = handle_all rest processed' in (effects ++ more, last)

pub handle_all-append :
    (xs ys : List (World × Envelope)) (processed : List String)
    → (let (first, middle) = handle_all xs processed in
        let (more, last) = handle_all ys middle in
        handle_all (xs ++ ys) processed ≡ (first ++ more, last))
unfolding handle_all
handle_all-append [] ys processed = refl
handle_all-append ((w, e) ∷ xs) ys processed =
    let ih = handle_all-append xs ys (handle w e processed).2 in rw ih (rw append_assoc refl)

-- How many drafts an event gets.
abbrev pub drafts_of : String → List Effect → ℕ
drafts_of id [] = 0
drafts_of id (create_draft to body preview j ∷ es) =
    let n = drafts_of id es in if str_eq j id then suc n else n
drafts_of id (triage s b ∷ es) = drafts_of id es
drafts_of id (draft_reply s b ∷ es) = drafts_of id es
drafts_of id (task_completed t o ∷ es) = drafts_of id es

drafts_of-append :
    (id : String) (xs ys : List Effect)
    → drafts_of id (xs ++ ys) ≡ drafts_of id xs + drafts_of id ys
drafts_of-append id [] ys = omega arith
drafts_of-append id (create_draft to body preview j ∷ xs) ys =
    ground (arith, drafts_of-append id xs ys)
drafts_of-append id (triage s b ∷ xs) ys = drafts_of-append id xs ys
drafts_of-append id (draft_reply s b ∷ xs) ys = drafts_of-append id xs ys
drafts_of-append id (task_completed t o ∷ xs) ys = drafts_of-append id xs ys

mem-append :
    (id x : String) (xs : List String)
    → text_mem id (xs ++ x ∷ []) ≡ (text_mem id xs || str_eq x id)
mem-append id x [] = ground arith
mem-append id x (y ∷ xs) = ground (arith, mem-append id x xs)

produce-drafts :
    (w : World) (e : Envelope) (id : String)
    → drafts_of id (produce w e).1 ≤ (if str_eq e.event_id id then 1 else 0)
unfolding produce
produce-drafts w e id = ground arith

settle-table :
    (w : World) (e : Envelope) (raised : Option String) (processed : List String)
    → w.mark_fault ≡ none
    → (settle w e raised processed).1 ≡ mark_processed e.event_id processed
unfolding settle try_mark
settle-table w e none processed f = ground (arith, f)
settle-table w e (some x) processed f = ground (arith, f)

mark-mem :
    (id j : String) (processed : List String)
    → text_mem id (mark_processed j processed) ≡ (text_mem id processed || str_eq j id)
mark-mem id j processed = ground (arith, mem-append id j processed, eq_iff j id)

-- One call of the handler behind the SELECT, while the table can be written.
go_on_lem :
    (w : World) (e : Envelope) (processed : List String) (id : String)
    → w.mark_fault ≡ none
    → (let (raised, effects, processed') = go_on w e processed in
        (raised ≡ none)
        × (text_mem id processed' ≡ (text_mem id processed || str_eq e.event_id id))
        × (drafts_of id effects
            ≤ (if not (text_mem id processed) && str_eq e.event_id id then 1 else 0)))
unfolding go_on try_mark
go_on_lem w e processed id f = elim (Bool-cases (text_mem e.event_id processed)) [
  | inl seen ↦
      (ground (arith, seen), ground (arith, seen, eq_iff e.event_id id), ground (arith, seen))
  | inr new ↦
      let marked = mark-mem id e.event_id processed in
      elim (Bool-cases (is_empty e.body)) [
        | inl empty ↦ (
          ground (arith, new, empty, f),
          ground (arith, new, empty, f, marked),
          ground (arith, new, empty, f),
        )
        | inr full ↦
            let p = produce w e in
            let out = settle w e p.0 processed in
            let count = drafts_of-append id p.1 (task_completed e.event_id out.0 ∷ []) in
            (
              rw (go_on, new, full) refl,
              rw (go_on, new, full)
                  (ap (λ (l : List String). text_mem id l) (settle-table w e p.0 processed f)
                    ∙ marked),
              rw (go_on, new, full)
                  (ground (arith, count, produce-drafts w e id, new, eq_iff e.event_id id)),
            )
      ]
]

-- The table can be read and written.
abbrev pub Works : World → Type 0
Works w = (w.lookup_fault ≡ none) × (w.mark_fault ≡ none)

-- One call of the handler, while the table works.
pub handle_lem :
    (w : World) (e : Envelope) (processed : List String) (id : String)
    → Works w
    → (let (raised, effects, processed') = handle w e processed in
        (raised ≡ none)
        × (text_mem id processed' ≡ (text_mem id processed || str_eq e.event_id id))
        × (drafts_of id effects
            ≤ (if not (text_mem id processed) && str_eq e.event_id id then 1 else 0)))
unfolding handle
handle_lem w e processed id (reads, writes) = rw reads (go_on_lem w e processed id writes)

-- However often and in whatever order envelopes are delivered, redeliveries included, and whatever the
-- model, the bridge and the publishing answer: an event gets at most one draft, and none if it was
-- processed before. While the table can be read and written at every delivery: the handler goes on after
-- an INSERT that fails, and a redelivery then drafts again.
pub handle_all-drafts :
    (deliveries : List (World × Envelope)) (processed : List String) (id : String)
    → All (λ d. Works d.0) deliveries
    → (drafts_of id (handle_all deliveries processed).0 ≤ (if text_mem id processed then 0 else 1))
      × (text_mem id (handle_all deliveries processed).1
          ≡ (text_mem id processed || any (λ d. str_eq d.1.event_id id) deliveries))
unfolding handle_all
handle_all-drafts [] processed id a = (ground arith, ground arith)
handle_all-drafts ((w, e) ∷ rest) processed id a =
    let one = handle_lem w e processed id a.0 in
    let ih = handle_all-drafts rest (handle w e processed).2 id a.1 in
    let count =
      drafts_of-append id (handle w e processed).1 (handle_all rest (handle w e processed).2).0 in
    (ground (arith, one.1, one.2, ih.0, count), ground (arith, one.1, ih.1))
