-- ===== src/Tests/Overlap.antt =====
-- Two requests with one key that overlap: both miss, both run, and the row of the second replaces that of
-- the first.
use open_claw_bridge.Prelude.{ℕ, ◌≡◌, refl, some, List, [], ◌∷◌, get_or}
use open_claw_bridge.Idempotency.{World, Row, prune_expired, run_and_store}
use open_claw_bridge.Idempotency.Interleaving.{
  Miss, Flight, Steps, enter, leave, done, step, AllJustified, Steps-Justified,
}
use open_claw_bridge.Tests.Services.{library, counter, empty_store, post, Asks-a}

abbrev miss : Miss
miss = record { call = post "/drafts" "a" 100; key = "k1"; body = "a"; extras = []; asks = Asks-a }

abbrev rows : List Row
rows = prune_expired 100 []

abbrev seen_once : World ℕ
seen_once = record empty_store { conn = some rows }

abbrev seen_twice : World ℕ
seen_twice = record empty_store { conn = some (prune_expired 100 rows) }

abbrev ran : World ℕ → List Row → World ℕ
ran w rs = (run_and_store library counter (post "/drafts" "a" 100) "k1" "a" [] w rs).1

abbrev flight : World ℕ → List Miss → Flight ℕ
flight w ms = record { world = w; pending = ms }

abbrev stored : List Row
stored = get_or (ran seen_twice (prune_expired 100 rows)).conn []

overlap :
    Steps library counter
      (flight empty_store [])
      (flight (ran (ran seen_twice (prune_expired 100 rows)) stored) [])
unfolding prune_expired run_and_store
overlap = step _ _ _ (enter miss empty_store [] [] refl refl) (
    step _ _ _ (enter miss seen_once rows (miss ∷ []) refl refl) (
      step _ _ _ (leave miss seen_twice (prune_expired 100 rows) [] (miss ∷ []) refl) (
        step _ _ _ (leave miss (ran seen_twice (prune_expired 100 rows)) stored [] [] refl)
          (done _))))

-- The application ran twice.
overlap-inner : (ran (ran seen_twice (prune_expired 100 rows)) stored).inner ≡ 2
unfolding run_and_store
overlap-inner = refl

Steps-Justified_example :
    AllJustified library counter (ran (ran seen_twice (prune_expired 100 rows)) stored).conn
Steps-Justified_example =
    Steps-Justified library counter (flight empty_store [])
      (flight (ran (ran seen_twice (prune_expired 100 rows)) stored) []) overlap tt
