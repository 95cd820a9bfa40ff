-- ===== src/Apple/Contacts/Limit.antt =====
-- The number that the search script has for its limit: the fuel of `decimal` is enough.
use open_claw_bridge.Prelude.{
  ℕ, zero, suc, ◌+◌, ◌-◌, ◌*◌, ◌/◌, ◌%◌, ◌<◌, ◌≡◌, refl, ◌∙◌, inl, inr, [], ◌∷◌, ◌++◌, arith, ltb,
  Bool-cases,
}
use open_claw_bridge.Apple.Runner.{Text}
use open_claw_bridge.Apple.Script.{decimal, decimal_on}

-- What a numeral says.
value : ℕ → Text → ℕ
value acc [] = acc
value acc (c ∷ s) = value (acc * 10 + (c - 48)) s

value-append : (acc : ℕ) (s : Text) (c : ℕ) → value acc (s ++ c ∷ []) ≡ value acc s * 10 + (c - 48)
unfolding value
value-append acc [] c = refl
value-append acc (d ∷ s) c = value-append (acc * 10 + (d - 48)) s c

value-decimal_on : (f n : ℕ) → n < f → value 0 (decimal_on f n) ≡ n
unfolding decimal_on
value-decimal_on zero n h = elim h [ ]
value-decimal_on (suc f) n h = elim (Bool-cases (ltb n 10)) [
  | inl e ↦ rw e (unfold value in ground arith)
  | inr e ↦
      let ih = value-decimal_on f (n / 10) (ground arith) in
      rw e (value-append 0 (decimal_on f (n / 10)) (48 + n % 10) ∙ rw ih (omega arith))
]

value-decimal : (n : ℕ) → value 0 (decimal n) ≡ n
unfolding decimal
value-decimal n = value-decimal_on (suc n) n (omega arith)
