-- ===== src/Client/Once.antt =====
-- The client of an agent in front of the bridge's idempotency middleware: a POST under a pinned key.
use mathlib.Core.Path.{subst}
use open_claw_bridge.Prelude.{
  ℕ, zero, suc, ◌+◌, ◌≤◌, String, text_length, ◌≡◌, refl, sym, ap, ◌∙◌, inl, inr, true, false,
  Option, none, some, List, [], ◌∷◌, ◌++◌, arith, str_eq, eq_refl, concat, concat_one, is_empty,
  length, get_or,
}
use open_claw_bridge.Asgi.{replayer, Header, Library, Application}
use open_claw_bridge.Idempotency.{
  ttl_seconds, send_cached, answer_cached, remember, is_success, World, Reply, call, no_reply,
  capture, select, prune_expired, run_and_store, Row,
}
use open_claw_bridge.Idempotency.Rows.{row, after_call}
use open_claw_bridge.Idempotency.Replay.{call-hit, stores, new_row, prune-none, call-miss}
use open_claw_bridge.Client.{
  max_429_retries, retry_after_cap, handle_async_request, Request, Response, Answer, response,
  Float, returned, Ran, attempts, stamp_idempotency_key,
}
use open_claw_bridge.Client.Bridge.{
  call_of, bridge, Carries, stamped-body, stamped-Carries, Carries-Asks, answer_of-response,
  last_try, first_answer, one_try,
}

module _ {S : Type 0} (lib : Library) (app : Application S) (clock : ℕ → ℕ × ℕ) (k : String) where
  -- The table is there and works, and has no row of the key.
  pub record IsFresh (w : World S) : Type 0 where
    pub rows : List Row
    pub conn : w.conn ≡ some rows
    pub absent : select k rows ≡ none
    pub works : w.store_fault ≡ false

  -- The key's row has this body's hash and this response, and was stored by some call.
  pub record Holds (b : String) (resp : Response) (w : World S) : Type 0 where
    pub kept : Row
    pub found : row k w ≡ some kept
    pub hash : kept.body_hash ≡ lib.sha256 b
    pub status : kept.status ≡ resp.status
    pub text : kept.body ≡ resp.body
    pub call_number : ℕ
    pub created : kept.created_at ≡ (clock call_number).1

  module _ (r : Request) (carries : Carries r k) (w : World S) (n : ℕ) (fresh : IsFresh w) where
    abbrev miss : Reply × World S
    miss =
        run_and_store lib app (call_of r (clock n)) k r.body [] w
          (prune_expired (clock n).0 fresh.rows)

    missed : call lib app (call_of r (clock n)) w ≡ some miss
    missed =
        call-miss lib app (call_of r (clock n)) k r.body [] w fresh.rows
          (Carries-Asks r k (clock n) carries) fresh.conn
          (prune-none k (clock n).0 fresh.rows fresh.absent)

    -- What a response says of the application's run.
    answered :
        {resp : Response}
        → (bridge lib app clock r (w, n)).0 ≡ response resp
        → (let got = app (call_of r (clock n)).scope (replayer r.body []) w.inner in
            (got.raised ≡ none)
            × ((capture no_reply got.sent).status ≡ some resp.status)
            × (concat (capture no_reply got.sent).body_chunks ≡ resp.body))
    unfolding bridge run_and_store
    answered e = answer_of-response miss.0 miss.1 (rw missed at e)

    -- An answer of the application that is no success leaves the key without a row.
    failed-IsFresh :
        {resp : Response}
        → (bridge lib app clock r (w, n)).0 ≡ response resp
        → is_success (some resp.status) ≡ false
        → IsFresh (bridge lib app clock r (w, n)).1.0
    unfolding bridge run_and_store prune_expired
    failed-IsFresh e f = record {
      rows = prune_expired (clock n).0 fresh.rows;
      conn =
          rw
            (bridge, after_call, missed, run_and_store, remember, (answered e).0, (answered e).1, f)
            refl;
      absent = prune-none k (clock n).0 fresh.rows fresh.absent;
      works = rw (bridge, after_call, missed, run_and_store) fresh.works;
    }

    done-Holds :
        {resp : Response}
        → (bridge lib app clock r (w, n)).0 ≡ response resp
        → is_success (some resp.status) ≡ true
        → Holds r.body resp (bridge lib app clock r (w, n)).1.0
    unfolding bridge
    done-Holds {resp} e f = record {
      kept = new_row lib app (call_of r (clock n)) k r.body [] w;
      found =
          stores lib app (call_of r (clock n)) k r.body [] w fresh.rows
            (Carries-Asks r k (clock n) carries)
            (record { quiet = (answered e).0; success = rw (answered e).1 f }) fresh.conn
            fresh.works (prune-none k (clock n).0 fresh.rows fresh.absent);
      hash = refl;
      status = rw (answered e).1 refl;
      text = (answered e).2;
      call_number = n;
      created = refl;
    }

  module _ (float : String → Option Float) (cap : ℕ) (r : Request) (carries : Carries r k) where
    abbrev tried : ℕ → ℕ → World S × ℕ → Ran (World S × ℕ)
    tried left attempt wn = attempts cap float (bridge lib app clock) left attempt r wn

    -- A run that returns a success has left the key's row with the response that it returns.
    attempts-Holds :
        (left attempt n : ℕ) (w : World S) (resp : Response)
        → IsFresh w
        → (tried left attempt (w, n)).outcome ≡ returned resp
        → is_success (some resp.status) ≡ true
        → Holds r.body resp (tried left attempt (w, n)).world.0
    unfolding bridge
    attempts-Holds zero attempt n w resp fresh e s =
        let (a, v) = last_try cap float (bridge lib app clock) attempt r (w, n) e in
        rw v (done-Holds r carries w n fresh a s)
    attempts-Holds (suc left) attempt n w resp fresh e s =
        elim (one_try cap float (bridge lib app clock) left attempt r (w, n) e) [
          | inl (a, v) ↦ rw v (done-Holds r carries w n fresh a s)
          | inr (resp', a, f, e', v) ↦ rw v (
              attempts-Holds left (suc attempt) (suc n) (bridge lib app clock r (w, n)).1.0 resp
                (failed-IsFresh r carries w n fresh a (ground (arith, f))) e' s)
        ]

    bridge_hit :
        (n : ℕ) (w : World S) (resp : Response) (h : Holds r.body resp w)
        → (clock n).0 ≤ h.kept.created_at + ttl_seconds
        → bridge lib app clock r (w, n) ≡ (
          response (record {
            status = resp.status;
            headers =
                lib.loads h.kept.headers
                ++ ("x-idempotency-replay", "true")
                  ∷ ("content-length", lib.decimal (text_length h.kept.body))
                  ∷ [];
            body = resp.body;
          }),
          (record w { conn = some (prune_expired (clock n).0 (get_or w.conn [])) }, suc n),
        )
    unfolding bridge answer_cached send_cached capture
    bridge_hit n w resp h le =
        rw
          (
            bridge,
            after_call,
            call-hit lib app (call_of r (clock n)) k r.body [] w h.kept
                (Carries-Asks r k (clock n) carries) h.found le,
            answer_cached,
            h.hash,
            eq_refl (lib.sha256 r.body),
            h.status,
            concat_one h.kept.body,
            h.text,
          )
          refl

    -- A call after that, before the row expires: one request, the stored response and no run.
    attempts-replayed :
        (left attempt n : ℕ) (w : World S) (resp : Response) (h : Holds r.body resp w)
        → (clock n).0 ≤ h.kept.created_at + ttl_seconds
        → is_success (some resp.status) ≡ true
        → (hs : List Header) × ((tried left attempt (w, n)).outcome
            ≡ returned (record { status = resp.status; headers = hs; body = resp.body }))
          × ((tried left attempt (w, n)).requests ≡ r ∷ [])
          × ((tried left attempt (w, n)).world.0.inner ≡ w.inner)
    attempts-replayed left attempt n w resp h le s =
        let hit = bridge_hit n w resp h le in
        let e =
          first_answer cap float (bridge lib app clock) left attempt r (w, n)
            (ap (λ (x : Answer × (World S × ℕ)). x.0) hit) (ground (arith, s)) in
        (
          _,
          ap (λ (x : Ran (World S × ℕ)). x.outcome) e,
          ap (λ (x : Ran (World S × ℕ)). x.requests) e,
          rw (e, hit) refl,
        )

-- A POST under a pinned key that the client returned as a success, after any answers of 429, is answered
-- at once when it is posted again with the same body, from this process or another: by the same status
-- and body, in one request, with no run of the application. It holds if the key had no row at first,
-- the table is there and its INSERT works, and all calls lie within 24 hours.
pub handle-once :
    {S : Type 0} (lib : Library) (app : Application S) (clock : ℕ → ℕ × ℕ)
    (float : String → Option Float) (k uuid uuid' : String) (r r' : Request) (w : World S) (n : ℕ)
    (resp : Response)
    → is_empty k ≡ false
    → str_eq r.method "POST" ≡ true
    → str_eq r'.method "POST" ≡ true
    → r'.body ≡ r.body
    → IsFresh lib app clock k w
    → ((i j : ℕ) → (clock i).0 ≤ (clock j).1 + ttl_seconds)
    → (handle_async_request float (bridge lib app clock) (some k) uuid r (w, n)).outcome
      ≡ returned resp
    → is_success (some resp.status) ≡ true
    → (let first = handle_async_request float (bridge lib app clock) (some k) uuid r (w, n) in
        let second =
          handle_async_request float (bridge lib app clock) (some k) uuid' r' first.world in
        (hs : List Header) × (second.outcome
          ≡ returned (record { status = resp.status; headers = hs; body = resp.body }))
        × (length second.requests ≡ 1)
        × (second.world.0.inner ≡ first.world.0.inner))
unfolding handle_async_request
handle-once lib app clock float k uuid uuid' r r' w n resp given post post' same fresh within e s =
    let sent = stamp_idempotency_key (some k) uuid r in
    let sent' = stamp_idempotency_key (some k) uuid' r' in
    let first =
      attempts retry_after_cap float (bridge lib app clock) max_429_retries 0 sent (w, n) in
    let h =
      attempts-Holds lib app clock k float retry_after_cap sent
        (stamped-Carries k uuid r post given) max_429_retries 0 n w resp fresh e s in
    let bodies : sent.body ≡ sent'.body =
      stamped-body (some k) uuid r ∙ sym same ∙ sym (stamped-body (some k) uuid' r') in
    let h' : Holds lib app clock k sent'.body resp first.world.0 =
      subst (λ b. Holds lib app clock k b resp first.world.0) bodies h in
    let again =
      attempts-replayed lib app clock k float retry_after_cap sent'
        (stamped-Carries k uuid' r' post' given) max_429_retries 0 first.world.1 first.world.0 resp
        h' (rw (h'.created) (within first.world.1 h'.call_number)) s in
    (again.0, again.1, ap length again.2, again.3)
