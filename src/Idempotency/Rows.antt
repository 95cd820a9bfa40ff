-- ===== src/Idempotency/Rows.antt =====
-- The table of cached answers: what a call of the middleware leaves of it.
use open_claw_bridge.Prelude.{
  ℕ, ◌+◌, ◌≤◌, String, ◌≡◌, ◌≢◌, inl, inr, true, not, Option, none, some, List, [], ◌∷◌, ◌++◌,
  arith, str_eq, eq_iff, Bool-cases, Option-cases, concat, get_or, filter, All,
}
use open_claw_bridge.Asgi.{replayer, Incoming, Library, Application, drain_body, Header}
use open_claw_bridge.Idempotency.{
  no_reply, Row, Call, World, call, keyed, forward, run_and_store, remember, select, prune_expired,
  store, capture, ttl_seconds, idempotency_key, fresh, has_key,
}

-- The row of a key.
abbrev pub row : {S : Type 0} → String → World S → Option Row
row k w = elim w.conn [ none ↦ none | some rows ↦ select k rows ]

pub select-prune :
    (k : String) (now : ℕ) (r : Row) (rows : List Row)
    → select k rows ≡ some r
    → fresh now r ≡ true
    → select k (prune_expired now rows) ≡ some r
unfolding prune_expired
select-prune k now r [] e f = ground arith
select-prune k now r (x ∷ rows) e f = ground (arith, select-prune k now r rows)

select_others :
    (j k : String) (r : Row) (rows new : List Row)
    → j ≢ k
    → select k rows ≡ some r
    → select k (filter (λ x. not (has_key j x)) rows ++ new) ≡ some r
select_others j k r [] new ne e = ground arith
select_others j k r (x ∷ rows) new ne e =
    ground (arith, select_others j k r rows new ne, eq_iff x.key j, eq_iff x.key k)

select-store :
    (lib : Library) (j k hash b : String) (status time : ℕ) (headers : List Header) (r : Row)
    (rows : List Row)
    → j ≢ k
    → select k rows ≡ some r
    → select k (store lib j hash status headers b time rows) ≡ some r
unfolding store
select-store lib j k hash b status time headers r rows ne e = select_others j k r rows _ ne e

-- A row that was just stored is found.
pub find_last :
    (k : String) (r : Row) (rows : List Row)
    → r.key ≡ k
    → select k (filter (λ x. not (has_key k x)) rows ++ r ∷ []) ≡ some r
find_last k r [] e = ground (arith, eq_iff r.key k)
find_last k r (x ∷ rows) e = ground (arith, find_last k r rows e)

module _ {S : Type 0} (lib : Library) (app : Application S) where
  run-keeps :
      (c : Call) (j k b : String) (extras : List Incoming) (w : World S) (r : Row) (rows : List Row)
      → j ≢ k
      → select k rows ≡ some r
      → row k (run_and_store lib app c j b extras w rows).1 ≡ some r
  unfolding run_and_store remember
  run-keeps c j k b extras w r rows ne e =
      let ran = app c.scope (replayer b extras) w.inner in
      let got = capture no_reply ran.sent in
      ground (
        arith,
        select-store lib j k (lib.sha256 b) (concat got.body_chunks) (get_or got.status 0) c.time
            got.headers r rows ne e,
      )

  keyed-keeps :
      (c : Call) (j k b : String) (extras : List Incoming) (w : World S) (r : Row)
      → row k w ≡ some r
      → fresh c.now r ≡ true
      → row k (keyed lib app c j b extras w).1 ≡ some r
  unfolding keyed
  keyed-keeps c j k b extras w r e f = elim (Option-cases w.conn) [
    | inl n ↦ ground (arith, n)
    | inr (rows, m) ↦
        let e' : select k rows ≡ some r = ground (arith, m) in
        let p = select-prune k c.now r rows e' f in
        elim (Bool-cases (str_eq j k)) [
          | inl same ↦ ground (arith, eq_iff j k, m, p)
          | inr other ↦ ground (
            arith,
            m,
            p,
            run-keeps c j k b extras w r (prune_expired c.now rows) (ground (arith, eq_iff j k)) p,
          )
        ]
  ]

  -- What a call leaves; a call that waits for its body changes nothing.
  unfoldable pub after_call : Call → World S → World S
  after_call c w = elim (call lib app c w) [ none ↦ w | some (reply, w') ↦ w' ]

  unfoldable pub after_calls : List Call → World S → World S
  after_calls [] w = w
  after_calls (c ∷ cs) w = after_calls cs (after_call c w)

  pub call-keeps :
      (c : Call) (k : String) (w : World S) (r : Row)
      → row k w ≡ some r
      → c.now ≤ r.created_at + ttl_seconds
      → row k (after_call c w) ≡ some r
  unfolding after_call call forward
  call-keeps c k w r e le = elim (Option-cases (idempotency_key c.scope)) [
    | inl n ↦ ground (arith, n)
    | inr (j, m) ↦ elim (Option-cases (drain_body c.input)) [
      | inl n ↦ ground (arith, m, n)
      | inr (d, n) ↦ ground (arith, m, n, keyed-keeps c j k d.0 d.1 w r e (ground arith))
    ]
  ]

  -- A row stays through any calls before it expires, whatever they ask and whatever the application
  -- does: no answer overwrites it.
  pub calls-keep :
      (cs : List Call) (k : String) (w : World S) (r : Row)
      → row k w ≡ some r
      → All (λ c. c.now ≤ r.created_at + ttl_seconds) cs
      → row k (after_calls cs w) ≡ some r
  unfolding after_calls
  calls-keep [] k w r e a = e
  calls-keep (c ∷ cs) k w r e a = calls-keep cs k (after_call c w) r (call-keeps c k w r e a.0) a.1
