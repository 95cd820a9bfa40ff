-- ===== src/Events/Regex.antt =====
-- Regular expressions on code points as Python's `re` reads them: what a pattern matches, and a matcher
-- by derivatives that decides it.
use mathlib.Core.Path.{subst}
use open_claw_bridge.Prelude.{
  ℕ, ◌≡◌, refl, sym, ap, ◌∙◌, ◌↔◌, ◌⊎◌, inl, inr, Bool, true, false, ◌&&◌, ◌||◌, List, [], ◌∷◌,
  ◌++◌, arith, if◌then◌else◌, Bool-cases,
}

abbrev pub Text : Type 0
Text = List ℕ

pub data Regex : Type 0 where
  nothing : Regex
  blank : Regex
  one_of : (ℕ → Bool) → Regex
  seq : Regex → Regex → Regex
  alt : Regex → Regex → Regex
  star : Regex → Regex

-- `r+` and `r?`
abbrev pub plus : Regex → Regex
plus r = seq r (star r)

abbrev pub optional : Regex → Regex
optional r = alt blank r

-- Some texts of `P` after one another.
pub data Star (P : Text → Type 0) : Text → Type 0 where
  stop : {s : Text} → s ≡ [] → Star P s
  more : {s : Text} (a b : Text) → P a → Star P b → s ≡ a ++ b → Star P s

-- The texts that a pattern describes, whole.
abbrev pub Matches : Regex → Text → Type 0
Matches nothing s = ⊥
Matches blank s = s ≡ []
Matches (one_of f) s = (c : ℕ) × (f c ≡ true) × (s ≡ c ∷ [])
Matches (seq r q) s = (a : Text) × (b : Text) × Matches r a × Matches q b × (s ≡ a ++ b)
Matches (alt r q) s = Matches r s ⊎ Matches q s
Matches (star r) s = Star (Matches r) s

unfoldable pub nullable : Regex → Bool
nullable nothing = false
nullable blank = true
nullable (one_of f) = false
nullable (seq r q) = nullable r && nullable q
nullable (alt r q) = nullable r || nullable q
nullable (star r) = true

-- What may follow a first character.
unfoldable pub derivative : ℕ → Regex → Regex
unfolding nullable
derivative c nothing = nothing
derivative c blank = nothing
derivative c (one_of f) = if f c then blank else nothing
derivative c (seq r q) =
    let rest = derivative c q in alt (seq (derivative c r) q) (if nullable r then rest else nothing)
derivative c (alt r q) = alt (derivative c r) (derivative c q)
derivative c (star r) = seq (derivative c r) (star r)

unfoldable pub matches : Regex → Text → Bool
unfolding derivative nullable
matches r [] = nullable r
matches r (c ∷ s) = matches (derivative c r) s

append-eq-nil : (a b : Text) → [] ≡ a ++ b → (a ≡ []) × (b ≡ [])
append-eq-nil [] b e = (refl, sym e)
append-eq-nil (x ∷ a) b e = cc

nullable-Matches : (r : Regex) → nullable r ≡ true → Matches r []
unfolding nullable
nullable-Matches nothing e = cc
nullable-Matches blank e = refl
nullable-Matches (one_of f) e = cc
nullable-Matches (seq r q) e =
    ([], [], nullable-Matches r (ground arith), nullable-Matches q (ground arith), refl)
nullable-Matches (alt r q) e = elim (Bool-cases (nullable r)) [
  | inl f ↦ inl (nullable-Matches r f)
  | inr f ↦ inr (nullable-Matches q (ground arith))
]
nullable-Matches (star r) e = stop refl

Matches-nullable : (r : Regex) (s : Text) → Matches r s → s ≡ [] → nullable r ≡ true
unfolding nullable
Matches-nullable nothing s m e = elim m [ ]
Matches-nullable blank s m e = refl
Matches-nullable (one_of f) s m e = cc (m.2)
Matches-nullable (seq r q) s (a, b, m, n, d) e =
    let parts = append-eq-nil a b (sym e ∙ d) in
    ground (arith, Matches-nullable r a m parts.0, Matches-nullable q b n parts.1)
Matches-nullable (alt r q) s (inl m) e = ground (arith, Matches-nullable r s m e)
Matches-nullable (alt r q) s (inr m) e = ground (arith, Matches-nullable q s m e)
Matches-nullable (star r) s m e = refl

derivative-Matches : (c : ℕ) (r : Regex) (s : Text) → Matches (derivative c r) s → Matches r (c ∷ s)
unfolding derivative
derivative-Matches c nothing s m = elim m [ ]
derivative-Matches c blank s m = elim m [ ]
derivative-Matches c (one_of f) s m = elim (Bool-cases (f c)) [
  | inl e ↦ (c, e, ap (λ t. c ∷ t) (subst (λ b. Matches (if b then blank else nothing) s) e m))
  | inr e ↦ absurd {0} (subst (λ b. Matches (if b then blank else nothing) s) e m)
]
derivative-Matches c (seq r q) s (inl (a, b, m, n, d)) =
    (c ∷ a, b, derivative-Matches c r a m, n, ap (λ t. c ∷ t) d)
derivative-Matches c (seq r q) s (inr m) = elim (Bool-cases (nullable r)) [
  | inl e ↦ (
    [],
    c ∷ s,
    nullable-Matches r e,
    derivative-Matches c q s (subst (λ b. Matches (if b then derivative c q else nothing) s) e m),
    refl,
  )
  | inr e ↦ absurd {0} (subst (λ b. Matches (if b then derivative c q else nothing) s) e m)
]
derivative-Matches c (alt r q) s (inl m) = inl (derivative-Matches c r s m)
derivative-Matches c (alt r q) s (inr m) = inr (derivative-Matches c q s m)
derivative-Matches c (star r) s (a, b, m, n, d) =
    more (c ∷ a) b (derivative-Matches c r a m) n (ap (λ t. c ∷ t) d)

-- A first character of texts after one another is the first of one of them.
Star_first :
    (P : Text → Type 0) (c : ℕ) (s u : Text)
    → Star P u
    → u ≡ c ∷ s
    → (a : Text) × (b : Text) × P (c ∷ a) × Star P b × (s ≡ a ++ b)
Star_first P c s u (stop d) e = absurd {0} (cc (sym d ∙ e))
Star_first P c s u (more [] b p m d) e = Star_first P c s b m (sym d ∙ e)
Star_first P c s u (more (x ∷ a) b p m d) e =
    (a, b, subst (λ y. P (y ∷ a)) (cc (sym d ∙ e)) p, m, cc (sym d ∙ e))

Matches-derivative :
    (c : ℕ) (r : Regex) (s u : Text) → Matches r u → u ≡ c ∷ s → Matches (derivative c r) s
unfolding derivative
Matches-derivative c nothing s u m e = m
Matches-derivative c blank s u m e = absurd {0} (cc (sym m ∙ e))
Matches-derivative c (one_of f) s u (x, m, d) e =
    let taken : true ≡ f c = cc (sym d ∙ e) in
    subst (λ b. Matches (if b then blank else nothing) s) taken (cc (sym d ∙ e))
Matches-derivative c (seq r q) s u ([], b, m, n, d) e = inr (
    subst (λ t. Matches (if t then derivative c q else nothing) s)
      (sym (Matches-nullable r [] m refl)) (Matches-derivative c q s b n (sym d ∙ e)))
Matches-derivative c (seq r q) s u (x ∷ a, b, m, n, d) e =
    inl (a, b, Matches-derivative c r a (x ∷ a) m (cc (sym d ∙ e)), n, cc (sym d ∙ e))
Matches-derivative c (alt r q) s u (inl m) e = inl (Matches-derivative c r s u m e)
Matches-derivative c (alt r q) s u (inr m) e = inr (Matches-derivative c q s u m e)
Matches-derivative c (star r) s u m e =
    let (a, b, p, n, d) = Star_first (Matches r) c s u m e in
    (a, b, Matches-derivative c r a (c ∷ a) p refl, n, d)

-- The matcher decides what the pattern describes.
pub matches-Matches : (r : Regex) (s : Text) → (matches r s ≡ true) ↔ Matches r s
unfolding matches
matches-Matches r [] = (nullable-Matches r, λ m. Matches-nullable r [] m refl)
matches-Matches r (c ∷ s) =
    let rest = matches-Matches (derivative c r) s in
    (
      λ e. derivative-Matches c r s (rest.0 e),
      λ m. rest.1 (Matches-derivative c r s (c ∷ s) m refl),
    )
