-- ===== src/Email/Imap/Session.antt =====
-- The commands that an operation sends: every connection that is opened is logged out of.
use open_claw_bridge.Prelude.{
  ℕ, suc, String, ◌≡◌, refl, sym, ap, ◌∙◌, ◌⊎◌, inl, inr, Bool, true, false, ◌&&◌, Option, none,
  some, List, [], ◌∷◌, ◌++◌, append-nil, append_assoc, arith, if◌then◌else◌, Option-cases, length,
  get_or, is_some, any, reverse,
}
use open_claw_bridge.Errors.{Result, ok, err, BridgeError, Result-cases}
use open_claw_bridge.Server.{◌>>◌, Exec, pure, raise, ◌>>=◌}
use open_claw_bridge.Email.Parse.{Text, ℤ}
use open_claw_bridge.Email.Imap.{
  parse_thread_response, is_given, on_date, with_query, EmailMessage, ThreadSummary, is_ok,
  is_filled, Reply, raised, answered, ImapServer, Command, connect, login, select, noop, logout,
  thread, search, fetch, Log, send, log_in, finally, with_connect, select_inbox, Dated, dated,
  invalid, build_search_criteria, Parse, fetched, fetch_message, last, same_int,
  collect_participants, seen_also,
}
use open_claw_bridge.Email.Imap.Threads.{
  Provider, summary, cons_some, cons_message, detail, list_block, get_block, noop_block, health_of,
  summarised, build_summary, summaries, take_threads, on_threads, on_search, list_threads,
  fetch_all, on_uids, uids_of, get_thread, sync_healthcheck, healthcheck,
}

-- Opens or closes the connection.
abbrev pub is_outer : Command → Bool
is_outer connect = true
is_outer logout = true
is_outer _ = false

-- Whatever it returns or raises, a block sends further commands, none of which opens or closes.
pub record Inside {A : Type 0} (m : Exec Log A) : Type 0 where
  pub sends : (log : Log) → (mid : Log) × ((m log).1 ≡ log ++ mid) × (any is_outer mid ≡ false)

any-append :
    (xs ys : Log)
    → any is_outer xs ≡ false
    → any is_outer ys ≡ false
    → any is_outer (xs ++ ys) ≡ false
any-append [] ys a b = b
any-append (x ∷ xs) ys a b = ground (arith, any-append xs ys)

pure-Inside : {A : Type 0} (a : A) → Inside (pure a)
pure-Inside a = record { sends = λ log. ([], sym (append-nil log), refl) }

raise-Inside : {A : Type 0} (e : BridgeError) → Inside {A = A} (raise e)
raise-Inside e = record { sends = λ log. ([], sym (append-nil log), refl) }

send-Inside : (c : Command) → is_outer c ≡ false → Inside (send c)
send-Inside c h = record { sends = λ log. (c ∷ [], refl, rw h refl) }

-- What follows a first part that ended so.
abbrev next : {A B : Type 0} → (A → Exec Log B) → Result A × Log → Result B × Log
next f r = elim r.0 [ ok a ↦ f a r.1 | err e ↦ (err e, r.1) ]

next-Inside :
    {A B : Type 0} (f : A → Exec Log B) (r : Result A) (log log' mid : Log)
    → ((a : A) → Inside (f a))
    → log' ≡ log ++ mid
    → any is_outer mid ≡ false
    → (mid' : Log) × ((next f (r, log')).1 ≡ log ++ mid') × (any is_outer mid' ≡ false)
next-Inside f (err e) log log' mid q h k = (mid, h, k)
next-Inside f (ok a) log log' mid q h k =
    let (more, h', k') = (q a).sends log' in
    (mid ++ more, h' ∙ rw (h, append_assoc) refl, any-append mid more k k')

-- Where the first part raises, the second does not run.
pub bind-Inside :
    {A B : Type 0} (m : Exec Log A) (f : A → Exec Log B)
    → Inside m
    → ((a : A) → Inside (f a))
    → Inside (m >>= f)
bind-Inside m f p q = record {
  sends = λ log. let (mid, h, k) = p.sends log in next-Inside f (m log).0 log (m log).1 mid q h k;
}

if-Inside :
    {A : Type 0} (b : Bool) (m n : Exec Log A) → Inside m → Inside n → Inside (if b then m else n)
if-Inside true m n p q = p
if-Inside false m n p q = q

Reply-cases :
    {A : Type 0} (r : Reply A)
    → ((e : String) × (r ≡ raised e)) ⊎ ((typ : String) × (a : A) × (r ≡ answered typ a))
Reply-cases (raised e) = inl (e, refl)
Reply-cases (answered typ a) = inr (typ, a, refl)

log_in-Inside : (server : ImapServer) (account : String) → Inside (log_in server account)
unfolding log_in
log_in-Inside server account = record {
  sends = λ log. elim (Reply-cases server.login) [
    | inl (e, h) ↦ (login ∷ [], ground (arith, h), refl)
    | inr (typ, a, h) ↦ (login ∷ [], ground (arith, h), refl)
  ];
}

select_inbox-Inside : (server : ImapServer) → Inside (select_inbox server)
unfolding select_inbox
select_inbox-Inside server = record {
  sends = λ log. elim (Reply-cases server.select) [
    | inl (e, h) ↦ (select ∷ [], ground (arith, h), refl)
    | inr (typ, a, h) ↦ (select ∷ [], ground (arith, h), refl)
  ];
}

date-Inside : (before : String) (d : Dated) → Inside (on_date before d)
unfolding on_date
date-Inside before (dated d) = pure-Inside ("BEFORE" ∷ d ∷ [])
date-Inside before (invalid e) = raise-Inside _

criteria-Inside :
    (imap_date : String → Dated) (query before : Option String)
    → Inside (build_search_criteria imap_date query before)
unfolding build_search_criteria
criteria-Inside imap_date query before =
    let b = get_or before "" in
    bind-Inside (if is_given before then on_date b (imap_date b) else pure [])
      (λ parts. pure (with_query query parts))
      (if-Inside (is_given before) _ _ (date-Inside b (imap_date b)) (pure-Inside []))
      (λ parts. pure-Inside (with_query query parts))

fetch_message-Inside :
    (parse : Parse) (server : ImapServer) (uid : ℤ) → Inside (fetch_message parse server uid)
unfolding fetch_message
fetch_message-Inside parse server uid =
    bind-Inside (send (fetch uid)) (λ t. pure (fetched parse uid (server.fetch uid)))
      (send-Inside (fetch uid) refl) (λ t. pure-Inside (fetched parse uid (server.fetch uid)))

collect-Inside :
    (parse : Parse) (server : ImapServer) (x : ℤ) (xs : List ℤ)
    → Inside (collect_participants parse server x xs)
unfolding collect_participants
collect-Inside parse server x xs =
    let finish =
      λ (root latest : Option EmailMessage). pure (seen_also latest (seen_also root [])) in
    let second =
      λ (root : Option EmailMessage). fetch_message parse server (last x xs) >>= finish root in
    bind-Inside (fetch_message parse server x) second (fetch_message-Inside parse server x) (λ root.
      bind-Inside (fetch_message parse server (last x xs)) (finish root)
        (fetch_message-Inside parse server (last x xs))
        (λ latest. pure-Inside (seen_also latest (seen_also root []))))

regroup :
    (log mid : Log)
    → ((log ++ connect ∷ []) ++ mid) ++ logout ∷ [] ≡ log ++ connect ∷ (mid ++ logout ∷ [])
regroup log mid = simp append_assoc

closes :
    (b : Bool) (log mid : Log) {log' : Log}
    → log' ≡ (log ++ connect ∷ []) ++ mid
    → (if b then log ++ connect ∷ [] else log' ++ logout ∷ [])
      ≡ log ++ connect ∷ (if b then [] else mid ++ logout ∷ [])
closes true log mid e = refl
closes false log mid e = ap (λ (x : Log). x ++ logout ∷ []) e ∙ regroup log mid

-- What a session sends: the connection, and if that works also what is between and the logout.
abbrev pub Sends : ImapServer → Log → Log → Type 0
Sends server log log' =
    (mid : Log) × (log'
      ≡ log ++ connect ∷ (if is_some server.connect_fault then [] else mid ++ logout ∷ []))
    × (any is_outer mid ≡ false)

with_connect-log :
    {A : Type 0} (server : ImapServer) (account : String) (block : Exec Log A) (log : Log)
    → (with_connect server account block log).1 ≡ (
        if is_some server.connect_fault
        then log ++ connect ∷ []
        else ((log_in server account >> block) (log ++ connect ∷ [])).1 ++ logout ∷ [])
unfolding with_connect finally
with_connect-log server account block log = elim (Option-cases server.connect_fault) [
  | inl n ↦ simp n
  | inr (f, n) ↦ simp n
]

with_connect-Sends :
    {A : Type 0} (server : ImapServer) (account : String) (block : Exec Log A) (log : Log)
    → Inside block
    → Sends server log (with_connect server account block log).1
with_connect-Sends server account block log h =
    let both =
      bind-Inside (log_in server account) (λ t. block) (log_in-Inside server account) (λ t. h) in
    let (mid, e, k) = both.sends (log ++ connect ∷ []) in
    (
      mid,
      with_connect-log server account block log ∙ closes (is_some server.connect_fault) log mid e,
      k,
    )

module _ (p : Provider) where
  summarised-Inside : (x : ℤ) (xs : List ℤ) (m : Option EmailMessage) → Inside (summarised p x xs m)
  unfolding summarised
  summarised-Inside x xs none = pure-Inside none
  summarised-Inside x xs (some root_msg) =
      let latest_of =
        if same_int (last x xs) x
        then pure (some root_msg)
        else fetch_message p.parse p.server (last x xs) in
      let finish = λ (latest : Option EmailMessage) (participants : List Text).
        pure (some (summary p root_msg (get_or latest root_msg) participants (suc (length xs)))) in
      let who = λ (latest : Option EmailMessage).
        collect_participants p.parse p.server x xs >>= finish latest in
      bind-Inside latest_of who
        (if-Inside (same_int (last x xs) x) (pure (some root_msg))
          (fetch_message p.parse p.server (last x xs)) (pure-Inside (some root_msg))
          (fetch_message-Inside p.parse p.server (last x xs)))
        (λ latest.
          bind-Inside (collect_participants p.parse p.server x xs) (finish latest)
            (collect-Inside p.parse p.server x xs) (λ participants. pure-Inside _))

  summaries-Inside : (threads : List (List ℤ)) → Inside (summaries p threads)
  unfolding summaries build_summary
  summaries-Inside [] = pure-Inside []
  summaries-Inside ([] ∷ threads) = summaries-Inside threads
  summaries-Inside ((x ∷ xs) ∷ threads) =
      let ih = summaries-Inside threads in
      let finish =
        λ (s : Option ThreadSummary) (rest : List ThreadSummary). pure (cons_some p s rest) in
      let more = λ (s : Option ThreadSummary). summaries p threads >>= finish s in
      bind-Inside (build_summary p x xs) more
        (bind-Inside (fetch_message p.parse p.server x) (summarised p x xs)
          (fetch_message-Inside p.parse p.server x) (summarised-Inside x xs))
        (λ s. bind-Inside (summaries p threads) (finish s) ih (λ rest. pure-Inside _))

  fetch_all-Inside : (uids : List ℤ) → Inside (fetch_all p uids)
  unfolding fetch_all
  fetch_all-Inside [] = pure-Inside []
  fetch_all-Inside (uid ∷ uids) =
      let ih = fetch_all-Inside uids in
      let finish =
        λ (m : Option EmailMessage) (rest : List EmailMessage). pure (cons_message p m rest) in
      let more = λ (m : Option EmailMessage). fetch_all p uids >>= finish m in
      bind-Inside (fetch_message p.parse p.server uid) more
        (fetch_message-Inside p.parse p.server uid)
        (λ m.
          bind-Inside (fetch_all p uids) (finish m) ih
            (λ rest. pure-Inside (cons_message p m rest)))

  on_uids-Inside : (root : String) (uids : List ℤ) → Inside (on_uids p root uids)
  unfolding on_uids
  on_uids-Inside root [] = raise-Inside _
  on_uids-Inside root (uid ∷ uids) =
      bind-Inside (fetch_all p (uid ∷ uids)) (λ messages. pure (detail p root messages))
        (fetch_all-Inside (uid ∷ uids)) (λ messages. pure-Inside (detail p root messages))

  on_search-Inside : (root : String) (r : Reply (List Text)) → Inside (on_search p root r)
  unfolding on_search
  on_search-Inside root (raised e) = raise-Inside _
  on_search-Inside root (answered typ toks) =
      if-Inside (is_ok typ) (on_uids p root (uids_of p toks)) _
        (on_uids-Inside root (uids_of p toks)) (raise-Inside _)

  on_threads-Inside : (limit : ℕ) (r : Reply (Option Text)) → Inside (on_threads p limit r)
  unfolding on_threads
  on_threads-Inside limit (raised e) = raise-Inside _
  on_threads-Inside limit (answered typ none) = pure-Inside []
  on_threads-Inside limit (answered typ (some line)) =
      if-Inside (is_ok typ && is_filled line)
        (summaries p (take_threads p limit (reverse (parse_thread_response line)))) (pure [])
        (summaries-Inside (take_threads p limit (reverse (parse_thread_response line))))
        (pure-Inside [])

  list-Inside :
      (query before : Option String) (limit : ℕ) → Inside (list_block p query limit before)
  unfolding list_block
  list-Inside query before limit =
      let ask = λ (criteria : List String).
        send (thread criteria) >>= λ t. on_threads p limit (p.server.thread criteria) in
      let criteria_of = build_search_criteria p.imap_date query before in
      bind-Inside (select_inbox p.server) (λ t. criteria_of >>= ask) (select_inbox-Inside p.server)
        (λ t. bind-Inside criteria_of ask (criteria-Inside p.imap_date query before) (λ criteria.
          bind-Inside (send (thread criteria)) (λ t. on_threads p limit (p.server.thread criteria))
            (send-Inside (thread criteria) refl)
            (λ t. on_threads-Inside limit (p.server.thread criteria))))

  get-Inside : (root : String) → Inside (get_block p root)
  unfolding get_block
  get-Inside root =
      let reply = on_search p root (p.server.search root) in
      bind-Inside (select_inbox p.server) (λ t. send (search root) >>= λ u. reply)
        (select_inbox-Inside p.server)
        (λ t.
          bind-Inside (send (search root)) (λ u. reply) (send-Inside (search root) refl)
            (λ u. on_search-Inside root (p.server.search root)))

  noop-Inside : Inside (noop_block p)
  unfolding noop_block
  noop-Inside =
      bind-Inside (send noop) (λ t. pure (health_of p p.server.noop)) (send-Inside noop refl)
        (λ t. pure-Inside (health_of p p.server.noop))

  health-log : (log : Log) → (healthcheck p log).1 ≡ (sync_healthcheck p log).1
  unfolding healthcheck
  health-log log = elim (Result-cases (sync_healthcheck p log).0) [
    | inl (e, h) ↦ rw (h, healthcheck) refl
    | inr (a, h) ↦ rw (h, healthcheck) refl
  ]

  -- Whatever the mail server replies to any command, and whatever an operation returns or raises: listing
  -- threads, reading a thread and the health check each open one connection. If that works, they close it
  -- by one logout at their end, and between the two they neither open nor close; if not, they send no more.
  pub sessions_lem :
      (query before : Option String) (limit : ℕ) (root : String) (log : Log)
      → Sends p.server log (list_threads p query limit before log).1
        × Sends p.server log (get_thread p root log).1
        × Sends p.server log (healthcheck p log).1
  unfolding list_threads get_thread sync_healthcheck
  sessions_lem query before limit root log = (
    with_connect-Sends p.server p.account _ log (list-Inside query before limit),
    with_connect-Sends p.server p.account _ log (get-Inside root),
    rw (health-log log) (with_connect-Sends p.server p.account _ log noop-Inside),
  )
