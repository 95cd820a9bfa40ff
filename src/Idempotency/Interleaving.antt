-- ===== src/Idempotency/Interleaving.antt =====
-- Requests that overlap: `__call__` awaits the application between `_lookup` and `_store`, so that other
-- requests come in between.
use open_claw_bridge.Prelude.{
  ℕ, String, ◌≡◌, refl, sym, inl, inr, Bool, not, Option, none, some, List, [], ◌∷◌, ◌++◌, arith,
  Bool-cases, Option-cases, filter, All,
}
use mathlib.Core.Path.{subst}
use open_claw_bridge.Asgi.{drain_body, Library, Application, Incoming, replayer}
use open_claw_bridge.Idempotency.{
  idempotency_key, forward, fresh, is_post, keyed, Row, Call, World, Reply, call, run_and_store,
  remember, no_reply, select, prune_expired, store, capture, has_key, is_success,
}
use open_claw_bridge.Idempotency.Replay.{Asks, Succeeds, new_row}

-- A POST with a key behind its `_lookup` that found nothing.
pub record Miss : Type 0 where
  pub call : Call
  pub key : String
  pub body : String
  pub extras : List Incoming
  pub asks : Asks call key body extras

-- The bridge with the requests whose application has not answered yet.
pub record Flight (S : Type 0) : Type 0 where
  pub world : World S
  pub pending : List Miss

module _ {S : Type 0} (lib : Library) (app : Application S) where
  -- A request is answered at once, or it misses and waits for the application, or the application answers
  -- one that waits.
  pub data Step : Flight S → Flight S → Type 0 where
    answer :
        (c : Call) (w w' : World S) (reply : Reply) (ms : List Miss)
        → call lib app c w ≡ some (reply, w')
        → Step (record { world = w; pending = ms }) (record { world = w'; pending = ms })
    enter :
        (m : Miss) (w : World S) (rows : List Row) (ms : List Miss)
        → w.conn ≡ some rows
        → select m.key (prune_expired m.call.now rows) ≡ none
        → Step
            (record { world = w; pending = ms })
            (record {
              world = record w { conn = some (prune_expired m.call.now rows) };
              pending = ms ++ m ∷ [];
            })
    leave :
        (m : Miss) (w : World S) (rows : List Row) (before after : List Miss)
        → w.conn ≡ some rows
        → Step
            (record { world = w; pending = before ++ m ∷ after })
            (record {
              world = (run_and_store lib app m.call m.key m.body m.extras w rows).1;
              pending = before ++ after;
            })

  pub data Steps : Flight S → Flight S → Type 0 where
    done : (f : Flight S) → Steps f f
    step : (f g h : Flight S) → Step f g → Steps g h → Steps f h

  -- A row is what the application answered, with success, to a POST that carried the row's key and whose
  -- body has its hash.
  pub record Justified (r : Row) : Type 0 where
    pub call : Call
    pub body : String
    pub extras : List Incoming
    pub world : World S
    pub asks : Asks call r.key body extras
    pub succeeds : Succeeds lib app call body extras world
    pub row : r ≡ new_row lib app call r.key body extras world

  abbrev pub AllJustified : Option (List Row) → Type 0
  AllJustified none = Unit
  AllJustified (some rows) = All Justified rows

  All-filter :
      (p : Row → Bool) (rows : List Row) → All Justified rows → All Justified (filter p rows)
  All-filter p [] a = tt
  All-filter p (r ∷ rows) a = elim (Bool-cases (p r)) [
    | inl e ↦ rw (e) (a.0, All-filter p rows a.1)
    | inr e ↦ rw (e) (All-filter p rows a.1)
  ]

  All-snoc :
      (r : Row) (rows : List Row)
      → All Justified rows
      → Justified r
      → All Justified (rows ++ r ∷ [])
  All-snoc r [] a j = (j, tt)
  All-snoc r (x ∷ rows) a j = (a.0, All-snoc r rows a.1 j)

  remember-Justified :
      (c : Call) (k b : String) (extras : List Incoming) (w : World S) (rows : List Row)
      → Asks c k b extras
      → All Justified rows
      → AllJustified (run_and_store lib app c k b extras w rows).1.conn
  unfolding run_and_store remember store
  remember-Justified c k b extras w rows asks a =
      let ran = app c.scope (replayer b extras) w.inner in
      elim (Option-cases ran.raised) [
        | inr (x, e) ↦ rw (e) a
        | inl e ↦ elim (Bool-cases (is_success (capture no_reply ran.sent).status)) [
          | inr f ↦ rw (e, f) a
          | inl f ↦ elim (Bool-cases w.store_fault) [
            | inl g ↦ rw (e, f, g) a
            | inr g ↦
                rw (e, f, g)
                  (All-snoc (new_row lib app c k b extras w) (filter (λ x. not (has_key k x)) rows)
                    (All-filter (λ x. not (has_key k x)) rows a)
                    (record {
                      call = c;
                      body = b;
                      extras = extras;
                      world = w;
                      asks = asks;
                      succeeds = record { quiet = e; success = f };
                      row = refl;
                    }))
          ]
        ]
      ]

  pruned-Justified :
      (now : ℕ) (rows : List Row) → All Justified rows → All Justified (prune_expired now rows)
  unfolding prune_expired
  pruned-Justified now rows a = All-filter (fresh now) rows a

  stuck : (x : Reply × World S) → none ≡ some x → ⊥
  stuck x e = ground (arith, e)

  passed :
      (c : Call) (w w' : World S) (reply : Reply)
      → some (forward lib app c.scope c.input w) ≡ some (reply, w')
      → w'.conn ≡ w.conn
  unfolding forward
  passed c w w' reply e = ground (arith, e)

  keyed-Justified :
      (c : Call) (k b : String) (extras : List Incoming) (w : World S)
      → Asks c k b extras
      → AllJustified w.conn
      → AllJustified (keyed lib app c k b extras w).1.conn
  unfolding keyed forward
  keyed-Justified c k b extras w asks a =
      let after = (keyed lib app c k b extras w).1 in
      elim (Option-cases w.conn) [
        | inl n ↦
            let same : after.conn ≡ w.conn = ground (arith, n) in subst AllJustified (sym same) a
        | inr (rows, m) ↦
            let now = prune_expired c.now rows in
            let pruned : All Justified now = pruned-Justified c.now rows (subst AllJustified m a) in
            elim (Option-cases (select k now)) [
              | inl e ↦
                  let ran : after ≡ (run_and_store lib app c k b extras w now).1 =
                    ground (arith, m, e) in
                  subst (λ (x : World S). AllJustified x.conn) (sym ran)
                    (remember-Justified c k b extras w now asks pruned)
              | inr (r, e) ↦
                  let hit : after.conn ≡ some now = ground (arith, m, e) in
                  subst AllJustified (sym hit) pruned
            ]
      ]

  call-Justified :
      (c : Call) (w w' : World S) (reply : Reply)
      → AllJustified w.conn
      → call lib app c w ≡ some (reply, w')
      → AllJustified w'.conn
  unfolding call
  call-Justified c w w' reply a e = elim (Bool-cases (is_post c.scope)) [
    | inr f ↦ subst AllJustified (sym (passed c w w' reply (ground (arith, e, f)))) a
    | inl f ↦ elim (Option-cases (idempotency_key c.scope)) [
      | inl g ↦ subst AllJustified (sym (passed c w w' reply (ground (arith, e, f, g)))) a
      | inr (k, g) ↦ elim (Option-cases (drain_body c.input)) [
        | inl h ↦ elim (stuck (reply, w') (ground (arith, e, f, g, h))) [ ]
        | inr ((b, extras), h) ↦
            let same : w' ≡ (keyed lib app c k b extras w).1 = ground (arith, e, f, g, h) in
            rw (same) (keyed-Justified c k b extras w (record { post = f; key = g; drained = h }) a)
      ]
    ]
  ]

  Step-Justified :
      (f g : Flight S) → Step f g → AllJustified f.world.conn → AllJustified g.world.conn
  Step-Justified _ _ (answer c w w' reply ms e) a = call-Justified c w w' reply a e
  Step-Justified _ _ (enter m w rows ms e n) a =
      pruned-Justified m.call.now rows (subst AllJustified e a)
  Step-Justified _ _ (leave m w rows before after e) a =
      remember-Justified m.call m.key m.body m.extras w rows m.asks (subst AllJustified e a)

  -- However requests overlap, every row that is stored stays honest: from a table of such rows, as the
  -- empty one is, each row of a later table is the successful answer of the application to some POST
  -- that carried the row's key and whose body has the row's hash. So no replay invents or mixes answers, also where two
  -- requests with one key both miss and both run.
  pub Steps-Justified :
      (f g : Flight S) → Steps f g → AllJustified f.world.conn → AllJustified g.world.conn
  Steps-Justified _ _ (done f) a = a
  Steps-Justified _ _ (step f g h s ss) a = Steps-Justified g h ss (Step-Justified f g s a)
