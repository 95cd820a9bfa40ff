-- ===== src/Apple/Tsv/Cut.antt =====
-- How `split` and `strip` take apart a text that was put together.
use open_claw_bridge.Prelude.{
  ℕ, ◌≡◌, refl, Bool, true, false, not, [], ◌∷◌, ◌++◌, arith, ◌==◌, is_space, any,
}
use open_claw_bridge.Apple.Runner.{Text, lstrip, rstrip}
use open_claw_bridge.Apple.Tsv.{onto, split, is_filled}

abbrev pub Lacks : ℕ → Text → Type 0
Lacks sep t = any (λ c. c == sep) t ≡ false

pub append-Lacks : (sep : ℕ) (a b : Text) → Lacks sep a → Lacks sep b → Lacks sep (a ++ b)
append-Lacks sep [] b h k = k
append-Lacks sep (c ∷ a) b h k = ground (arith, append-Lacks sep a b)

pub split-append :
    (sep : ℕ) (a rest : Text) → Lacks sep a → split sep (a ++ sep ∷ rest) ≡ a ∷ split sep rest
unfolding split
split-append sep [] rest h = ground arith
split-append sep (c ∷ a) rest h = unfold onto in ground (arith, split-append sep a rest)

pub split-Lacks : (sep : ℕ) (a : Text) → Lacks sep a → split sep a ≡ a ∷ []
unfolding split onto
split-Lacks sep [] h = refl
split-Lacks sep (c ∷ a) h = ground (arith, split-Lacks sep a)

-- The text ends, and begins, with a character that is not white space.
unfoldable pub is_inked : Text → Bool
unfolding is_space
is_inked [] = false
is_inked (c ∷ []) = not (is_space c)
is_inked (c ∷ d ∷ s) = is_inked (d ∷ s)

unfoldable pub begins_inked : Text → Bool
unfolding is_space
begins_inked [] = false
begins_inked (c ∷ s) = not (is_space c)

pub append-is_inked : (a b : Text) → is_inked b ≡ true → is_inked (a ++ b) ≡ true
unfolding is_inked
append-is_inked [] b h = h
append-is_inked (c ∷ []) [] h = absurd {0} (cc)
append-is_inked (c ∷ []) (d ∷ b) h = h
append-is_inked (c ∷ d ∷ a) b h = append-is_inked (d ∷ a) b h

pub lstrip_inked : (s : Text) → begins_inked s ≡ true → lstrip s ≡ s
unfolding lstrip begins_inked
lstrip_inked [] h = refl
lstrip_inked (c ∷ s) h = ground arith

rstrip_blank : (b : Text) → any (λ c. not (is_space c)) b ≡ false → rstrip b ≡ []
unfolding rstrip
rstrip_blank [] h = refl
rstrip_blank (c ∷ b) h = ground (arith, rstrip_blank b)

-- Blanks behind a text that ends with no blank are stripped, and nothing else.
pub rstrip-append :
    (a b : Text) → is_inked a ≡ true → any (λ c. not (is_space c)) b ≡ false → rstrip (a ++ b) ≡ a
unfolding rstrip is_inked
rstrip-append [] b h k = absurd {0} (cc)
rstrip-append (c ∷ []) b h k = ground (arith, rstrip_blank b k)
rstrip-append (c ∷ d ∷ a) b h k = ground (arith, rstrip-append (d ∷ a) b h k)

rstrip_step : (c : ℕ) (s t : Text) → rstrip s ≡ t → is_filled t ≡ true → rstrip (c ∷ s) ≡ c ∷ t
unfolding rstrip
rstrip_step c s [] e h = absurd {0} (cc)
rstrip_step c s (d ∷ t) e h = rw e refl

append-is_filled : (a t : Text) → is_filled t ≡ true → is_filled (a ++ t) ≡ true
append-is_filled [] t h = h
append-is_filled (c ∷ a) t h = refl

-- What is in front of a text that does not vanish stays.
pub rstrip_behind : (a b : Text) → is_filled (rstrip b) ≡ true → rstrip (a ++ b) ≡ a ++ rstrip b
rstrip_behind [] b h = refl
rstrip_behind (c ∷ a) b h =
    rstrip_step c (a ++ b) (a ++ rstrip b) (rstrip_behind a b h) (append-is_filled a (rstrip b) h)
