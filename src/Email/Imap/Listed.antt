-- ===== src/Email/Imap/Listed.antt =====
-- What the list of threads shows of a response to THREAD.
use open_claw_bridge.Prelude.{
  ℕ, zero, suc, ◌≤◌, String, ◌≡◌, refl, sym, ap, ◌∙◌, inl, inr, true, Option, none, some, List, [],
  ◌∷◌, ◌++◌, map, arith, Bool-cases, Option-cases, length, get_or, reverse,
}
use open_claw_bridge.Errors.{Result, ok, err}
use open_claw_bridge.Server.{Exec, pure, ◌>>=◌}
use open_claw_bridge.Email.Parse.{Text, ℤ}
use open_claw_bridge.Email.Tree.{Items, print_response, IsResponse, flatten}
use open_claw_bridge.Email.Threads.{parse-print}
use open_claw_bridge.Email.Imap.{
  connect, login, select_inbox, build_search_criteria, send, with_connect, finally, log_in,
  with_query, thread, answered, ImapServer, EmailMessage, ThreadSummary, Log, fetched,
  fetch_message, last, same_int, collect_participants, seen_also,
}
use open_claw_bridge.Email.Imap.Threads.{
  on_threads, list_block, list_threads, take_threads, Provider, summary, cons_some, summarised,
  build_summary, summaries,
}

value-bind :
    {A B : Type 0} {a : A} (m : Exec Log A) (f : A → Exec Log B) (log : Log)
    → (m log).0 ≡ ok a
    → ((m >>= f) log).0 ≡ (f a (m log).1).0
value-bind {A} {B} {a} m f log e =
    let k : Result A → Result B × Log =
      λ r. elim r [ ok a ↦ f a (m log).1 | err e ↦ (err e, (m log).1) ] in
    ap (λ (r : Result A). (k r).0) e

with_connect-value :
    {A : Type 0} (server : ImapServer) (account : String) (block : Exec Log A) (log : Log)
    → server.connect_fault ≡ none
    → server.login ≡ answered "OK" tt
    → (with_connect server account block log).0 ≡ (block ((log ++ connect ∷ []) ++ login ∷ [])).0
unfolding with_connect finally log_in
with_connect-value server account block log c l = simp (c, l)

select-value :
    (server : ImapServer) (log : Log)
    → server.select ≡ answered "OK" tt
    → (select_inbox server log).0 ≡ ok tt
unfolding select_inbox
select-value server log s = simp s

module _ (p : Provider) where
  -- The message with a number, if the server gives it.
  abbrev pub message : ℤ → Option EmailMessage
  message n = fetched p.parse n (p.server.fetch n)

  -- A thread by its first and last message; the last stands in by the first if it cannot be fetched.
  unfoldable pub shown_of : ℤ → List ℤ → Option EmailMessage → Option ThreadSummary
  unfolding summary seen_also
  shown_of x xs none = none
  shown_of x xs (some root) =
      let latest = message (last x xs) in
      some (
        summary p root (get_or latest root) (seen_also latest (seen_also (message x) []))
          (suc (length xs)))

  -- The summaries of the threads that have a message, and whose first can be fetched, in their order.
  unfoldable pub shown : List (List ℤ) → List ThreadSummary
  unfolding shown_of
  shown [] = []
  shown ([] ∷ threads) = shown threads
  shown ((x ∷ xs) ∷ threads) = cons_some p (shown_of x xs (message x)) (shown threads)

  same_int-eq : (m n : ℤ) → same_int m n ≡ true → m ≡ n
  same_int-eq m n h = ground arith

  -- With the message of the first number.
  summarised_lem :
      (x : ℤ) (xs : List ℤ) (m : Option EmailMessage) (log : Log)
      → message x ≡ m
      → (summarised p x xs m log).0 ≡ ok (shown_of x xs m)
  unfolding summarised shown_of fetch_message collect_participants
  summarised_lem x xs none log e = refl
  summarised_lem x xs (some root) log e = elim (Bool-cases (same_int (last x xs) x)) [
    | inl s ↦
        let latest : get_or (message (last x xs)) root ≡ root =
          ap (λ (n : ℤ). get_or (message n) root) (same_int-eq (last x xs) x s)
          ∙ ap (λ (m : Option EmailMessage). get_or m root) e in
        rw s (
          ap
            (λ (m : EmailMessage). ok (
              some (
                summary p root m (seen_also (message (last x xs)) (seen_also (message x) []))
                  (suc (length xs)))))
            (sym latest))
    | inr s ↦ rw s refl
  ]

  build_summary_lem :
      (x : ℤ) (xs : List ℤ) (log : Log)
      → (build_summary p x xs log).0 ≡ ok (shown_of x xs (message x))
  unfolding build_summary fetch_message
  build_summary_lem x xs log = summarised_lem x xs (message x) _ refl

  summaries_lem :
      (threads : List (List ℤ)) (log : Log) → (summaries p threads log).0 ≡ ok (shown threads)
  unfolding summaries shown
  summaries_lem [] log = refl
  summaries_lem ([] ∷ threads) log = summaries_lem threads log
  summaries_lem ((x ∷ xs) ∷ threads) log =
      let finish =
        λ (s : Option ThreadSummary) (rest : List ThreadSummary). pure (cons_some p s rest) in
      let more = λ (s : Option ThreadSummary). summaries p threads >>= finish s in
      let s = shown_of x xs (message x) in
      let log' = (build_summary p x xs log).1 in
      value-bind (build_summary p x xs) more log (build_summary_lem x xs log)
      ∙ value-bind (summaries p threads) (finish s) log' (summaries_lem threads log')

  shown-length : (threads : List (List ℤ)) → length (shown threads) ≤ length threads
  unfolding shown
  shown-length [] = omega arith
  shown-length ([] ∷ threads) = omega (arith, shown-length threads)
  shown-length ((x ∷ xs) ∷ threads) =
      let s = shown_of x xs (message x) in ground (arith, Option-cases s, shown-length threads)

  take-length : (n : ℕ) (ts : List (List ℤ)) → length (take_threads p n ts) ≤ n
  take-length zero ts = omega arith
  take-length (suc n) [] = omega arith
  take-length (suc n) (t ∷ ts) = omega (arith, take-length n ts)

  on_threads-value :
      (limit : ℕ) (log : Log) (r : Items × Text) (rs : List (Items × Text))
      → IsResponse (r ∷ rs)
      → (on_threads p limit (answered "OK" (some (print_response (r ∷ rs)))) log).0
        ≡ ok (shown (take_threads p limit (reverse (map (λ t. flatten t.0) (r ∷ rs)))))
  unfolding on_threads print_response
  on_threads-value limit log r rs w =
      rw (parse-print (r ∷ rs) w)
        (summaries_lem (take_threads p limit (reverse (map (λ t. flatten t.0) (r ∷ rs)))) log)

  list-value :
      (query : Option String) (limit : ℕ) (log : Log) (r : Items × Text) (rs : List (Items × Text))
      → IsResponse (r ∷ rs)
      → p.server.connect_fault ≡ none
      → p.server.login ≡ answered "OK" tt
      → p.server.select ≡ answered "OK" tt
      → p.server.thread (with_query query []) ≡ answered "OK" (some (print_response (r ∷ rs)))
      → (list_threads p query limit none log).0
        ≡ ok (shown (take_threads p limit (reverse (map (λ t. flatten t.0) (r ∷ rs)))))
  unfolding list_threads list_block build_search_criteria
  list-value query limit log r rs w c l s t =
      let ask = λ (criteria : List String).
        send (thread criteria) >>= λ u. on_threads p limit (p.server.thread criteria) in
      let rest = λ (u : Unit {0}). build_search_criteria p.imap_date query none >>= ask in
      let log' = (log ++ connect ∷ []) ++ login ∷ [] in
      with_connect-value p.server p.account (list_block p query limit none) log c l
      ∙ value-bind (select_inbox p.server) rest log' (select-value p.server log' s)
      ∙ rw t (on_threads-value limit _ r rs w)

  -- Listing threads on a server that lets in, where `before` is left out and the response to THREAD is one
  -- or more top-level brackets, with brackets nested in them in any way: the answer is the summaries of the last `limit`
  -- of the brackets, the last bracket first, each of the numbers in its bracket. A bracket that has no number or whose first message cannot be
  -- fetched has none. There are at most `limit`.
  pub list_threads_lem :
      (query : Option String) (limit : ℕ) (log : Log) (r : Items × Text) (rs : List (Items × Text))
      → IsResponse (r ∷ rs)
      → p.server.connect_fault ≡ none
      → p.server.login ≡ answered "OK" tt
      → p.server.select ≡ answered "OK" tt
      → p.server.thread (with_query query []) ≡ answered "OK" (some (print_response (r ∷ rs)))
      → (let newest = take_threads p limit (reverse (map (λ t. flatten t.0) (r ∷ rs))) in
          ((list_threads p query limit none log).0 ≡ ok (shown newest))
          × (length (shown newest) ≤ limit))
  list_threads_lem query limit log r rs w c l s t =
      let newest = take_threads p limit (reverse (map (λ t. flatten t.0) (r ∷ rs))) in
      (
        list-value query limit log r rs w c l s t,
        omega (
          arith,
          shown-length newest,
          take-length limit (reverse (map (λ t. flatten t.0) (r ∷ rs))),
        ),
      )
