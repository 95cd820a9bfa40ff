-- ===== src/Relay/ChatDb/Forwarded.antt =====
-- What the inbound loop posts, and what it posts again.
use open_claw_bridge.Prelude.{
  ℕ, ◌≤◌, ◌<◌, max, ◌≡◌, refl, sym, ap, ◌∙◌, ◌⊎◌, inl, inr, Bool, true, false, some, List, [], ◌∷◌,
  ◌++◌, append_assoc, arith, ltb, if◌then◌else◌, Bool-cases, filter, All,
}
use open_claw_bridge.Relay.ChatDb.{
  Message, State, rowid_of, Cursor, read_last_seen, write_last_seen, max_rowid, is_inbound,
  poll_new, Post, accepted, refused, broken, Turn, Change, grows, locked, forward_inbound, Batch,
  inbound_turn, inbound_loop,
}

-- The rows that come.
abbrev pub added : List Change → List Message
added [] = []
added (grows new turn ∷ cs) = new ++ added cs
added (locked ∷ cs) = added cs

-- Rows come with ROWIDs that rise from `b`.
abbrev pub Rising : ℕ → List Message → Type 0
Rising b [] = Unit
Rising b (r ∷ rs) = (b < r.rowid) × Rising r.rowid rs

abbrev pub Above : ℕ → List Message → Type 0
Above m = All (λ r. m < r.rowid)

max_rowid-ge : (m : ℕ) (rs : List Message) → m ≤ max_rowid m rs
max_rowid-ge m [] = omega arith
max_rowid-ge m (r ∷ rs) = omega (arith, max_rowid-ge (max m r.rowid) rs)

max_rowid-filter :
    (p : Message → Bool) (m b bound : ℕ) (rs : List Message)
    → m ≤ bound
    → max_rowid b rs ≤ bound
    → max_rowid m (filter p rs) ≤ bound
max_rowid-filter p m b bound [] le le' = le
max_rowid-filter p m b bound (r ∷ rs) le le' =
    let r_le = max_rowid-ge (max b r.rowid) rs in
    let small =
      max_rowid-filter p (max m r.rowid) (max b r.rowid) bound rs (omega (arith, r_le)) le' in
    let skip = max_rowid-filter p m (max b r.rowid) bound rs le le' in
    elim (Bool-cases (p r)) [ inl e ↦ rw (e) small | inr e ↦ rw (e) skip ]

none_left :
    (last m t : ℕ) (rs : List Message)
    → last ≤ t
    → max_rowid m (filter (is_inbound last) rs) ≤ t
    → filter (is_inbound t) rs ≡ []
none_left last m t [] le le' = refl
none_left last m t (r ∷ rs) le le' =
    let up = max_rowid-ge (max m r.rowid) (filter (is_inbound last) rs) in
    elim (Bool-cases (is_inbound last r)) [
      | inl e ↦ ground (arith, e, up, none_left last (max m r.rowid) t rs le)
      | inr e ↦ ground (arith, e, none_left last m t rs le)
    ]

same-Above :
    (last t m : ℕ) (rs : List Message)
    → last ≤ t
    → t ≤ max last m
    → Above m rs
    → filter (is_inbound last) rs ≡ filter (is_inbound t) rs
same-Above last t m [] le le' a = refl
same-Above last t m (r ∷ rs) le le' a =
    ground (arith, le, le', a.0, same-Above last t m rs le le' a.1)

filter-append :
    (p : Message → Bool) (xs ys : List Message) → filter p (xs ++ ys) ≡ filter p xs ++ filter p ys
filter-append p [] ys = refl
filter-append p (x ∷ xs) ys = ground (arith, filter-append p xs ys)

weaken : (b m : ℕ) (rs : List Message) → m ≤ b → Rising b rs → Above m rs
weaken b m [] le a = tt
weaken b m (r ∷ rs) le a =
    (omega (arith, a.0, le), weaken r.rowid m rs (omega (arith, a.0, le)) a.1)

-- Rows behind others are above all of them.
Rising-Above : (b : ℕ) (xs ys : List Message) → Rising b (xs ++ ys) → Above (max_rowid b xs) ys
Rising-Above b [] ys a = weaken b b ys (omega arith) a
Rising-Above b (x ∷ xs) ys a =
    let top : max b x.rowid ≡ x.rowid = omega (arith, a.0) in
    rw (top) (Rising-Above x.rowid xs ys a.1)

seen_top :
    (c : Cursor) (top : ℕ)
    → read_last_seen c ≤ top
    → read_last_seen (if ltb (read_last_seen c) top then write_last_seen top c else c) ≡ top
seen_top c top le = ground (arith, le)

-- A poll splits the rows of now and of later into what it yields and what is left for the next polls.
pub poll_split :
    (state : State) (rows later : List Message)
    → Rising 0 (rows ++ later)
    → (let (msgs, c) = poll_new (record { state = state; database = some rows }) in
        filter (is_inbound (rowid_of state)) (rows ++ later)
        ≡ msgs ++ filter (is_inbound (read_last_seen c)) (rows ++ later))
unfolding poll_new
poll_split state rows later rising =
    let last = rowid_of state in
    let top = max_rowid last (filter (is_inbound last) rows) in
    let up = max_rowid-ge last (filter (is_inbound last) rows) in
    let small =
      max_rowid-filter (is_inbound last) last 0 (max last (max_rowid 0 rows)) rows (omega arith)
        (omega arith) in
    let rest =
      same-Above last top (max_rowid 0 rows) later up small (Rising-Above 0 rows later rising) in
    let gone = none_left last last top rows up (omega arith) in
    let seen = seen_top (record { state = state; database = some rows }) top up in
    rw
      (
        seen,
        filter-append (is_inbound last) rows later,
        filter-append (is_inbound top) rows later,
        gone,
        rest,
      )
      refl

-- The messages of the turns that no exception ended.
abbrev pub completed : List Batch → List Message
completed [] = []
completed (b ∷ bs) = let rest = completed bs in if b.aborted then rest else b.posted ++ rest

-- The second list goes on from the first.
abbrev pub Prefix : List Message → List Message → Type 0
Prefix xs ys = (zs : List Message) × (ys ≡ xs ++ zs)

-- What a turn posts before an exception ends it comes again, from its first message on: it is what the
-- later turns complete first, or what still waits.
abbrev pub ComesAgain : List Batch → List Message → Type 0
ComesAgain [] waiting = Unit
ComesAgain (b ∷ bs) waiting =
    ((b.aborted ≡ false) ⊎ Prefix b.posted (completed bs ++ waiting)) × ComesAgain bs waiting

abbrev is_broken : Post → Bool
is_broken accepted = false
is_broken refused = false
is_broken broken = true

forward-Prefix :
    (post : Message → Post) (msgs : List Message)
    → (zs : List Message) × (msgs ≡ (forward_inbound post msgs).0 ++ zs)
unfolding forward_inbound
forward-Prefix post [] = ([], refl)
forward-Prefix post (m ∷ ms) =
    let (zs, e) = forward-Prefix post ms in
    elim (Bool-cases (is_broken (post m))) [
      | inl b ↦ (ms, ground (arith, b))
      | inr f ↦ (zs, ground (arith, e, f))
    ]

forward-all :
    (post : Message → Post) (msgs : List Message)
    → (forward_inbound post msgs).1 ≡ true
    → (forward_inbound post msgs).0 ≡ msgs
unfolding forward_inbound
forward-all post [] e = refl
forward-all post (m ∷ ms) e = ground (arith, e, forward-all post ms)

-- A turn that ends posts what the poll yields; one that an exception ends posts a first part of it and
-- leaves the cursor.
turn_lem :
    (turn : Turn) (c : Cursor)
    → (let (batch, c') = inbound_turn turn c in
        ((batch.aborted ≡ false) × (batch.posted ≡ (poll_new c).0) × (c' ≡ (poll_new c).1))
        ⊎ ((batch.aborted ≡ true) × Prefix batch.posted (poll_new c).0 × (c' ≡ c)))
unfolding inbound_turn
turn_lem turn c =
    let msgs = (poll_new c).0 in
    elim (Bool-cases (inbound_turn turn c).0.aborted) [
      | inl a ↦ inr (a, forward-Prefix turn.post msgs, rw (a, inbound_turn) refl)
      | inr f ↦ inl (f, forward-all turn.post msgs (ground (arith, f)), rw (f, inbound_turn) refl)
    ]

-- However the turns of the loop fall, while the ROWIDs rise: the messages of the turns that no exception
-- ended, followed by those that wait above the last state, are exactly the inbound messages with a text
-- above the first state, each once and in order. A turn that finds the database locked loses none, and a
-- post that the bridge refuses with a `BridgeClientError` is not made again. A turn that another exception
-- ends, in a post or in the write of the state file, has posted the first messages of what waits: they
-- are posted again. A state file that is missing or cannot be read counts as 0.
pub inbound_loop_lem :
    (state : State) (rows : List Message) (cs : List Change)
    → Rising 0 (rows ++ added cs)
    → (let (batches, last) = inbound_loop state rows cs in
        let all = rows ++ added cs in
        let waiting = filter (is_inbound (rowid_of last)) all in
        (filter (is_inbound (rowid_of state)) all ≡ completed batches ++ waiting)
        × ComesAgain batches waiting)
unfolding inbound_loop
inbound_loop_lem state rows [] rising = (refl, tt)
inbound_loop_lem state rows (grows new turn ∷ cs) rising =
    let assoc = append_assoc rows new (added cs) in
    let rising' : Rising 0 ((rows ++ new) ++ added cs) = rw (assoc) rising in
    let c : Cursor = record { state = state; database = some (rows ++ new) } in
    let step = poll_split state (rows ++ new) (added cs) rising' in
    let msgs = (poll_new c).0 in
    elim (turn_lem turn c) [
      | inl (ended, posts, moved) ↦
          let (rest, again) = inbound_loop_lem (poll_new c).1.state (rows ++ new) cs rising' in
          rw (← assoc, ended, posts)
            (
              step ∙ ap (λ (l : List Message). msgs ++ l) rest ∙ sym (append_assoc msgs _ _),
              (inl refl, again),
            )
      | inr (aborted, (zs, first), stays) ↦
          let (rest, again) = inbound_loop_lem state (rows ++ new) cs rising' in
          let waits =
            filter (is_inbound (read_last_seen (poll_new c).1)) ((rows ++ new) ++ added cs) in
          let batch = (inbound_turn turn c).0 in
          rw (← assoc, aborted)
            (
              rest,
              (
                inr (
                  zs ++ waits,
                  sym rest
                      ∙ step
                      ∙ ap (λ (l : List Message). l ++ waits) first
                      ∙ append_assoc batch.posted zs waits,
                ),
                again,
              ),
            )
    ]
inbound_loop_lem state rows (locked ∷ cs) rising =
    let (rest, again) = inbound_loop_lem state rows cs rising in (rest, (inl refl, again))
