-- ===== src/Idempotency/Replay.antt =====
-- What `IdempotencyMiddleware.__call__` answers to a request with a key, and what it runs.
use open_claw_bridge.Prelude.{
  ℕ, ◌+◌, ◌≤◌, String, text_length, ◌≡◌, refl, ◌∙◌, ◌≢◌, inl, inr, true, false, none, some, List,
  [], ◌∷◌, ◌++◌, arith, eq_iff, eq_refl, Bool-cases, Option-cases, concat, get_or, filter, All,
}
use open_claw_bridge.Asgi.{
  body, start, Incoming, Library, Application, drain_body, Header, replayer,
}
use open_claw_bridge.Idempotency.{
  Row, Call, World, call, keyed, run_and_store, remember, answer_cached, send_cached, send_error,
  no_reply, select, prune_expired, store, capture, ttl_seconds, is_post, idempotency_key, kept,
  is_success,
}
use open_claw_bridge.Idempotency.Rows.{
  row, after_call, after_calls, calls-keep, find_last, select-prune,
}

-- A POST request with this key and this body.
pub record Asks (c : Call) (k b : String) (extras : List Incoming) : Type 0 where
  pub post : is_post c.scope ≡ true
  pub key : idempotency_key c.scope ≡ some k
  pub drained : drain_body c.input ≡ some (b, extras)

pub prune-none :
    (k : String) (now : ℕ) (rows : List Row)
    → select k rows ≡ none
    → select k (prune_expired now rows) ≡ none
unfolding prune_expired
prune-none k now [] e = refl
prune-none k now (x ∷ rows) e = ground (arith, prune-none k now rows)

module _ {S : Type 0} (lib : Library) (app : Application S) where
  pub call-hit :
      (c : Call) (k b : String) (extras : List Incoming) (w : World S) (r : Row)
      → Asks c k b extras
      → row k w ≡ some r
      → c.now ≤ r.created_at + ttl_seconds
      → call lib app c w
        ≡ some (
          record { sent = answer_cached lib app c.scope b r; raised = none },
          record w { conn = some (prune_expired c.now (get_or w.conn [])) },
        )
  unfolding call keyed
  call-hit c k b extras w r a e le = elim (Option-cases w.conn) [
    | inl n ↦ ground (arith, n)
    | inr (rows, m) ↦
        let e' : select k rows ≡ some r = ground (arith, m) in
        let p = select-prune k c.now r rows e' (ground arith) in
        ground (arith, a.post, a.key, a.drained, m, p)
  ]

  pub call-miss :
      (c : Call) (k b : String) (extras : List Incoming) (w : World S) (rows : List Row)
      → Asks c k b extras
      → w.conn ≡ some rows
      → select k (prune_expired c.now rows) ≡ none
      → call lib app c w ≡ some (run_and_store lib app c k b extras w (prune_expired c.now rows))
  unfolding call keyed
  call-miss c k b extras w rows a m e = ground (arith, a.post, a.key, a.drained, m, e)

  -- The row that a successful miss stores.
  abbrev pub new_row : Call → String → String → List Incoming → World S → Row
  new_row c k b extras w =
      let got = capture no_reply (app c.scope (replayer b extras) w.inner).sent in
      record {
        key = k;
        body_hash = lib.sha256 b;
        status = get_or got.status 0;
        headers = lib.dumps (filter (kept lib) got.headers);
        body = concat got.body_chunks;
        created_at = c.time;
      }

  -- The application, on this request, answers with a status from 200 to 299 and does not raise.
  pub record Succeeds (c : Call) (b : String) (extras : List Incoming) (w : World S) : Type 0 where
    pub quiet : (app c.scope (replayer b extras) w.inner).raised ≡ none
    pub success :
        is_success (capture no_reply (app c.scope (replayer b extras) w.inner).sent).status ≡ true

  pub stores :
      (c : Call) (k b : String) (extras : List Incoming) (w : World S) (rows : List Row)
      → Asks c k b extras
      → Succeeds c b extras w
      → w.conn ≡ some rows
      → w.store_fault ≡ false
      → select k (prune_expired c.now rows) ≡ none
      → row k (after_call lib app c w) ≡ some (new_row c k b extras w)
  unfolding after_call run_and_store remember store
  stores c k b extras w rows a s m f e = ground (
    arith,
    call-miss c k b extras w rows a m e,
    s.quiet,
    s.success,
    f,
    find_last k (new_row c k b extras w) (prune_expired c.now rows) refl,
  )

  -- A request that succeeds with a key of no row is answered again, to the same key and the same body
  -- and until the row expires, with its status, its headers less those stripped, and its body, marked
  -- as a replay, whatever calls come between. The application does not run again. The path, the other
  -- headers and the sender of the second request play no part. If the table is there, its INSERT works
  -- and `loads` undoes `dumps`.
  pub replay_later :
      (w : World S) (first second : Call) (between : List Call) (k b : String)
      (extras extras' : List Incoming) (rows : List Row)
      → ((hs : List Header) → lib.loads (lib.dumps hs) ≡ hs)
      → Asks first k b extras
      → Asks second k b extras'
      → Succeeds first b extras w
      → w.conn ≡ some rows
      → w.store_fault ≡ false
      → select k (prune_expired first.now rows) ≡ none
      → All (λ c. c.now ≤ first.time + ttl_seconds) between
      → second.now ≤ first.time + ttl_seconds
      → (let got = capture no_reply (app first.scope (replayer b extras) w.inner).sent in
          let w' = after_calls lib app between (after_call lib app first w) in
          call lib app second w'
          ≡ some (
            record {
              sent =
                  start (get_or got.status 0) (
                    filter (kept lib) got.headers
                    ++ ("x-idempotency-replay", "true")
                      ∷ ("content-length", lib.decimal (text_length (concat got.body_chunks)))
                      ∷ [])
                  ∷ body (concat got.body_chunks)
                  ∷ [];
              raised = none;
            },
            record w' { conn = some (prune_expired second.now (get_or w'.conn [])) },
          ))
  unfolding answer_cached send_cached
  replay_later w first second between k b extras extras' rows undo a a' s m f e all le =
      let r = new_row first k b extras w in
      let kept_row =
        calls-keep lib app between k (after_call lib app first w) r
          (stores first k b extras w rows a s m f e) all in
      call-hit second k b extras' (after_calls lib app between (after_call lib app first w)) r a'
        kept_row le
      ∙ rw
          (
            undo (
                filter (kept lib)
                  (capture no_reply (app first.scope (replayer b extras) w.inner).sent).headers),
            eq_refl (lib.sha256 b),
          )
          refl

  -- After a request that succeeded with a key of no row, the answer to the same key and another body is
  -- 409 until the row expires, whatever calls come between, and the application does not run: if the
  -- hashes of the two bodies differ, the table is there and its INSERT works.
  pub conflict_later :
      (w : World S) (first second : Call) (between : List Call) (k b b' : String)
      (extras extras' : List Incoming) (rows : List Row)
      → lib.sha256 b ≢ lib.sha256 b'
      → Asks first k b extras
      → Asks second k b' extras'
      → Succeeds first b extras w
      → w.conn ≡ some rows
      → w.store_fault ≡ false
      → select k (prune_expired first.now rows) ≡ none
      → All (λ c. c.now ≤ first.time + ttl_seconds) between
      → second.now ≤ first.time + ttl_seconds
      → (let w' = after_calls lib app between (after_call lib app first w) in
          call lib app second w'
          ≡ some (
            record {
              sent =
                  send_error lib 409 "idempotency_replay"
                    "Same Idempotency-Key was used with a different request body."
                    second.scope.request_id;
              raised = none;
            },
            record w' { conn = some (prune_expired second.now (get_or w'.conn [])) },
          ))
  unfolding answer_cached
  conflict_later w first second between k b b' extras extras' rows ne a a' s m f e all le =
      let r = new_row first k b extras w in
      let kept_row =
        calls-keep lib app between k (after_call lib app first w) r
          (stores first k b extras w rows a s m f e) all in
      call-hit second k b' extras' (after_calls lib app between (after_call lib app first w)) r a'
        kept_row le
      ∙ ground (arith, eq_iff (lib.sha256 b) (lib.sha256 b'))

  -- An answer outside 200 to 299, or an exception, to a request with a key of no row is
  -- not kept: the next request with the key and body runs the application again.
  pub failure_runs_again :
      (w : World S) (first second : Call) (k b : String) (extras extras' : List Incoming)
      (rows : List Row)
      → Asks first k b extras
      → Asks second k b extras'
      → ¬ Succeeds first b extras w
      → w.conn ≡ some rows
      → select k (prune_expired first.now rows) ≡ none
      → (let w' = after_call lib app first w in
          call lib app second w'
          ≡ some (
              run_and_store lib app second k b extras' w'
                (prune_expired second.now (get_or w'.conn []))))
  unfolding after_call run_and_store remember
  failure_runs_again w first second k b extras extras' rows a a' never m e =
      let ran = app first.scope (replayer b extras) w.inner in
      let rows' = prune_expired first.now rows in
      let gone = prune-none k second.now rows' e in
      let w' : World S = record w { inner = ran.state; conn = some rows' } in
      let again = call-miss second k b extras' w' rows' a' refl gone in
      let first_call = call-miss first k b extras w rows a m e in
      elim (Option-cases ran.raised) [
        | inl q ↦ elim (Bool-cases (is_success (capture no_reply ran.sent).status)) [
          | inl u ↦ elim (never (record { quiet = q; success = u })) [ ]
          | inr u ↦ ground (arith, first_call, again, q, u)
        ]
        | inr q ↦ ground (arith, first_call, again, q.1)
      ]
