-- ===== src/Email/Tree.antt =====
-- Responses of THREAD as trees, their text, and the numbers in them.
use open_claw_bridge.Prelude.{
  ℕ, ◌+◌, ◌-◌, ◌*◌, ◌≡◌, ◌≢◌, Bool, true, false, List, [], ◌∷◌, ◌++◌, is_space, All,
}
use open_claw_bridge.Email.Parse.{Text, ℤ, pos, is_digit}

-- What stands in a bracket: numbers, by their digits, spaces, and brackets.
pub data Items : Type 0 where
  done : Items
  number : (digits : Text) → Items → Items
  space : (c : ℕ) → Items → Items
  branch : Items → Items → Items

unfoldable pub print : Items → Text
print done = []
print (number ds rest) = ds ++ print rest
print (space c rest) = c ∷ print rest
print (branch inner rest) = 40 ∷ (print inner ++ 41 ∷ print rest)

-- The number that digits stand for, after `acc`.
unfoldable pub value : ℕ → Text → ℕ
value acc [] = acc
value acc (c ∷ s) = value (acc * 10 + (c - 48)) s

-- The numbers in their order, without the nesting.
unfoldable pub flatten : Items → List ℤ
unfolding value
flatten done = []
flatten (number ds rest) = pos (value 0 ds) ∷ flatten rest
flatten (space c rest) = flatten rest
flatten (branch inner rest) = flatten inner ++ flatten rest

abbrev pub IsNumber : Text → Type 0
IsNumber ds = (ds ≢ []) × All (λ c. is_digit c ≡ true) ds

-- No number stands next to another; `after` says whether one stands before.
abbrev pub IsSpaced : Bool → Items → Type 0
IsSpaced after done = Unit
IsSpaced after (number ds rest) = (after ≡ false) × IsNumber ds × IsSpaced true rest
IsSpaced after (space c rest) = (is_space c ≡ true) × IsSpaced false rest
IsSpaced after (branch inner rest) = IsSpaced false inner × IsSpaced false rest

-- A response: the top-level brackets, each with the spaces behind it.
unfoldable pub print_response : List (Items × Text) → Text
unfolding print
print_response [] = []
print_response ((items, gap) ∷ rest) = 40 ∷ (print items ++ 41 ∷ (gap ++ print_response rest))

abbrev pub IsResponse : List (Items × Text) → Type 0
IsResponse ts = All (λ t. IsSpaced false t.0 × All (λ c. is_space c ≡ true) t.1) ts
