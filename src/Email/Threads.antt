-- ===== src/Email/Threads.antt =====
-- What the parser reads of the text of a response.
use open_claw_bridge.Prelude.{
  ℕ, suc, ◌+◌, ◌-◌, ◌*◌, ◌≡◌, refl, sym, ap, ◌∙◌, ◌⊎◌, inl, inr, Bool, true, false, some, List, [],
  ◌∷◌, ◌++◌, map, append-nil, append_assoc, arith, is_space, All,
}
use open_claw_bridge.Email.Parse.{
  Text, ℤ, pos, is_digit, digits, increment, decrement, int, Parser, flush_token, opened, closed,
  step, loop, parse_thread_response,
}
use open_claw_bridge.Email.Tree.{
  Items, done, number, space, branch, print, value, flatten, IsNumber, IsSpaced, print_response,
  IsResponse,
}

digits-value :
    (acc : ℕ) (after : Bool) (c : ℕ) (s : Text)
    → All (λ d. is_digit d ≡ true) (c ∷ s)
    → digits acc after (c ∷ s) ≡ some (value acc (c ∷ s))
unfolding digits value
digits-value acc after c [] a = ground (arith, a.0)
digits-value acc after c (d ∷ s) a =
    ground (arith, a.0, digits-value (acc * 10 + (c - 48)) true d s a.1)

int-value : (ds : Text) → IsNumber ds → int ds ≡ some (pos (value 0 ds))
unfolding int
int-value [] n = absurd {0} (n.0 refl)
int-value (c ∷ s) n = ground (arith, n.1.0, digits-value 0 false c s n.1)

loop-append : (s t : Text) (p : Parser) → loop (s ++ t) p ≡ loop t (loop s p)
unfolding loop
loop-append [] t p = refl
loop-append (c ∷ s) t p = loop-append s t (step c p)

step-digit :
    (c : ℕ) (p : Parser)
    → is_digit c ≡ true
    → step c p ≡ record p { cur_token = p.cur_token ++ c ∷ [] }
unfolding step is_space
step-digit c p d = ground arith

step-space : (c : ℕ) (p : Parser) → is_space c ≡ true → step c p ≡ flush_token p
unfolding step is_space
step-space c p d = ground arith

loop-digits :
    (ds : Text) (p : Parser)
    → All (λ d. is_digit d ≡ true) ds
    → loop ds p ≡ record p { cur_token = p.cur_token ++ ds }
unfolding loop
loop-digits [] p a = rw append-nil refl
loop-digits (c ∷ ds) p a = rw (step-digit c p a.0) (
    loop-digits ds (record p { cur_token = p.cur_token ++ c ∷ [] }) a.1
    ∙ rw (append_assoc p.cur_token (c ∷ []) ds) refl)

flush_token-none : (p : Parser) → (flush_token p).cur_token ≡ []
unfolding flush_token
flush_token-none p = ground arith

flush_token-empty : (p : Parser) → p.cur_token ≡ [] → flush_token p ≡ p
unfolding flush_token
flush_token-empty p e = ground arith

flush_token-depth : (p : Parser) → (flush_token p).depth ≡ p.depth
unfolding flush_token
flush_token-depth p = ground arith

flush_token-number :
    (p : Parser) (ds : Text)
    → p.cur_token ≡ []
    → IsNumber ds
    → flush_token (record p { cur_token = p.cur_token ++ ds })
      ≡ record p { cur_thread = p.cur_thread ++ pos (value 0 ds) ∷ [] }
unfolding flush_token
flush_token-number p [] e n = absurd {0} (n.0 refl)
flush_token-number p (c ∷ s) e n = ground (arith, int-value (c ∷ s) n)

-- The parser with more numbers in its thread.
abbrev extended : Parser → List ℤ → Parser
extended p ns = record p { cur_thread = p.cur_thread ++ ns }

extended-append :
    (p : Parser) (ms ns : List ℤ) → extended (extended p ms) ns ≡ extended p (ms ++ ns)
extended-append p ms ns = rw (append_assoc p.cur_thread ms ns) refl

opened-inner :
    (p : Parser) (d : ℕ) → p.depth ≡ pos (suc d) → opened p ≡ record p { depth = pos (suc (suc d)) }
unfolding opened increment
opened-inner p d e = ground arith

closed-inner :
    (p : Parser) (d : ℕ) → p.depth ≡ pos (suc (suc d)) → closed p ≡ record p { depth = pos (suc d) }
unfolding closed decrement
closed-inner p d e = ground arith

-- What stands in a bracket adds its numbers to the thread, once the last of them is flushed.
loop-print :
    (items : Items) (p : Parser) (after : Bool) (d : ℕ)
    → IsSpaced after items
    → (after ≡ true) ⊎ (p.cur_token ≡ [])
    → p.depth ≡ pos (suc d)
    → flush_token (loop (print items) p) ≡ extended (flush_token p) (flatten items)
unfolding print flatten loop step
loop-print done p after d w t e = rw append-nil refl
loop-print (number ds rest) p after d w t e =
    let none_before : p.cur_token ≡ [] = elim t [ inl f ↦ absurd {0} (cc (f, w.0)) | inr f ↦ f ] in
    ap flush_token (loop-append ds (print rest) p)
    ∙ ap (λ q. flush_token (loop (print rest) q)) (loop-digits ds p w.1.1)
    ∙ loop-print rest (record p { cur_token = p.cur_token ++ ds }) true d w.2 (inl refl) e
    ∙ ap (λ q. extended q (flatten rest)) (flush_token-number p ds none_before w.1)
    ∙ extended-append p (pos (value 0 ds) ∷ []) (flatten rest)
    ∙ ap (λ q. extended q (flatten (number ds rest))) (sym (flush_token-empty p none_before))
loop-print (space c rest) p after d w t e =
    ap (λ q. flush_token (loop (print rest) q)) (step-space c p w.0)
    ∙ loop-print rest (flush_token p) false d w.1 (inr (flush_token-none p))
        (flush_token-depth p ∙ e)
    ∙ ap (λ q. extended q (flatten rest)) (flush_token-empty (flush_token p) (flush_token-none p))
loop-print (branch inner rest) p after d w t e =
    let f = flush_token p in
    let ns = flatten inner in
    let depth : f.depth ≡ pos (suc d) = flush_token-depth p ∙ e in
    let deep : Parser = record f { depth = pos (suc (suc d)) } in
    let f' = extended f ns in
    ap flush_token (loop-append (print inner) (41 ∷ print rest) (opened f))
    ∙ ap (λ q. flush_token (loop (print rest) (closed (flush_token (loop (print inner) q)))))
        (opened-inner f d depth)
    ∙ ap (λ q. flush_token (loop (print rest) (closed q)))
        (loop-print inner deep false (suc d) w.0 (inr (flush_token-none p)) refl
          ∙ ap (λ q. extended q ns) (flush_token-empty deep (flush_token-none p)))
    ∙ ap (λ q. flush_token (loop (print rest) q))
        (closed-inner (extended deep ns) d refl ∙ ap (λ n. record f' { depth = n }) (sym depth))
    ∙ loop-print rest f' false d w.1 (inr (flush_token-none p)) depth
    ∙ ap (λ q. extended q (flatten rest)) (flush_token-empty f' (flush_token-none p))
    ∙ extended-append f ns (flatten rest)

loop-gap :
    (gap : Text) (p : Parser) → All (λ c. is_space c ≡ true) gap → p.cur_token ≡ [] → loop gap p ≡ p
unfolding loop
loop-gap [] p a e = refl
loop-gap (c ∷ gap) p a e =
    ap (loop gap) (step-space c p a.0 ∙ flush_token-empty p e) ∙ loop-gap gap p a.1 e

-- One top-level bracket adds a thread.
loop-top :
    (items : Items) (ts : List (List ℤ)) (old : List ℤ)
    → IsSpaced false items
    → closed (
        flush_token (
          loop
            (print items)
            (opened (record { threads = ts; depth = pos 0; cur_token = []; cur_thread = old }))))
      ≡ record {
        threads = ts ++ flatten items ∷ [];
        depth = pos 0;
        cur_token = [];
        cur_thread = [];
      }
unfolding opened closed increment decrement
loop-top items ts old w =
    let inside : Parser = record { threads = ts; depth = pos 1; cur_token = []; cur_thread = [] } in
    ap closed (
      loop-print items inside false 0 w (inr refl) refl
      ∙ ap (λ q. extended q (flatten items)) (flush_token-empty inside refl))

loop-print_response :
    (rs : List (Items × Text)) (ts : List (List ℤ)) (old : List ℤ)
    → IsResponse rs
    → (loop
        (print_response rs)
        (record { threads = ts; depth = pos 0; cur_token = []; cur_thread = old })).threads
      ≡ ts ++ map (λ r. flatten r.0) rs
unfolding print_response loop step
loop-print_response [] ts old w = sym (append-nil ts)
loop-print_response ((items, gap) ∷ rs) ts old w =
    let p : Parser = record { threads = ts; depth = pos 0; cur_token = []; cur_thread = old } in
    let q : Parser = record {
      threads = ts ++ flatten items ∷ [];
      depth = pos 0;
      cur_token = [];
      cur_thread = [];
    } in
    ap (λ x. (loop (print items ++ 41 ∷ (gap ++ print_response rs)) (opened x)).threads)
      (flush_token-empty p refl)
    ∙ ap (λ (x : Parser). x.threads)
        (loop-append (print items) (41 ∷ (gap ++ print_response rs)) (opened p)
          ∙ ap (loop (gap ++ print_response rs)) (loop-top items ts old w.0.0)
          ∙ loop-append gap (print_response rs) q
          ∙ ap (loop (print_response rs)) (loop-gap gap q w.0.1 refl))
    ∙ loop-print_response rs (ts ++ flatten items ∷ []) [] w.1
    ∙ append_assoc ts (flatten items ∷ []) (map (λ r. flatten r.0) rs)

-- Of a response of top-level brackets with spaces between them, in which brackets are nested in any way
-- and numbers of decimal digits do not touch, the parser returns for each top-level bracket the numbers
-- in it, in their order.
pub parse-print :
    (rs : List (Items × Text))
    → IsResponse rs
    → parse_thread_response (print_response rs) ≡ map (λ r. flatten r.0) rs
unfolding parse_thread_response
parse-print rs w = loop-print_response rs [] [] w
