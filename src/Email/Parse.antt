-- ===== src/Email/Parse.antt =====
-- `parse_thread_response` of bridge/src/bridge/providers/email/threading.py, on code points.
use open_claw_bridge.Prelude.{
  ℕ, zero, suc, ◌+◌, ◌-◌, ◌*◌, Bool, false, ◌&&◌, ◌||◌, Option, none, some, List, [], ◌∷◌, ◌++◌,
  leb, ◌==◌, if◌then◌else◌, is_space,
}

abbrev pub Text : Type 0
Text = List ℕ

-- Python's `int`s: the depth of the brackets falls below 0 where they do not match.
pub data ℤ : Type 0 where
  pos : ℕ → ℤ
  negsuc : ℕ → ℤ

unfoldable pub increment : ℤ → ℤ
increment (pos n) = pos (suc n)
increment (negsuc zero) = pos zero
increment (negsuc (suc n)) = negsuc n

unfoldable pub decrement : ℤ → ℤ
decrement (pos zero) = negsuc zero
decrement (pos (suc n)) = pos n
decrement (negsuc n) = negsuc (suc n)

-- `depth == n`
abbrev pub is_int : ℕ → ℤ → Bool
is_int n (pos m) = m == n
is_int n (negsuc m) = false

abbrev pub is_digit : ℕ → Bool
is_digit c = leb 48 c && leb c 57

-- Digits with single underscores between them, after `acc`; `after` says whether the last was a digit.
unfoldable pub digits : ℕ → Bool → Text → Option ℕ
digits acc after [] = if after then some acc else none
digits acc after (c ∷ s) =
    let rest = digits (if is_digit c then acc * 10 + (c - 48) else acc) (is_digit c) s in
    if is_digit c || c == 95 && after then rest else none

abbrev pub negated : ℕ → ℤ
negated zero = pos zero
negated (suc n) = negsuc n

abbrev pub signed : (ℕ → ℤ) → Option ℕ → Option ℤ
signed f none = none
signed f (some n) = some (f n)

-- `int(token)` on ASCII without spaces; `none` is a `ValueError`.
unfoldable pub int : Text → Option ℤ
unfolding digits
int [] = none
int (c ∷ s) =
    if c == 43
    then signed pos (digits 0 false s)
    else if c == 45
    then signed negated (digits 0 false s)
    else signed pos (digits 0 false (c ∷ s))

-- The variables of the loop.
pub record Parser : Type 0 where
  pub threads : List (List ℤ)
  pub depth : ℤ
  pub cur_token : Text
  pub cur_thread : List ℤ

-- `flush_token`. No character of a token is a space, so `strip` changes nothing.
unfoldable pub flush_token : Parser → Parser
unfolding int
flush_token p = elim p.cur_token [
  | [] ↦ p
  | c ∷ s ↦ record p {
    cur_token = [];
    cur_thread = elim (int (c ∷ s)) [ none ↦ p.cur_thread | some n ↦ p.cur_thread ++ n ∷ [] ];
  }
]

-- After the flush at an opening bracket.
unfoldable pub opened : Parser → Parser
unfolding increment
opened p =
    let deeper = increment p.depth in
    record p { depth = deeper; cur_thread = if is_int 1 deeper then [] else p.cur_thread }

-- After the flush at a closing bracket.
unfoldable pub closed : Parser → Parser
unfolding decrement
closed p =
    let higher = decrement p.depth in
    if is_int 0 higher
    then record p { depth = higher; threads = p.threads ++ p.cur_thread ∷ []; cur_thread = [] }
    else record p { depth = higher }

-- One character.
unfoldable pub step : ℕ → Parser → Parser
unfolding flush_token opened closed is_space
step c p =
    if c == 40
    then opened (flush_token p)
    else if c == 41
    then closed (flush_token p)
    else if is_space c
    then flush_token p
    else record p { cur_token = p.cur_token ++ c ∷ [] }

unfoldable pub loop : Text → Parser → Parser
unfolding step
loop [] p = p
loop (c ∷ s) p = loop s (step c p)

abbrev pub start : Parser
start = record { threads = []; depth = pos 0; cur_token = []; cur_thread = [] }

unfoldable pub parse_thread_response : Text → List (List ℤ)
unfolding loop
parse_thread_response raw = (loop raw start).threads
