-- ===== src/Vault/Paths.antt =====
-- Paths of Vault/Files: equality, directories above, and what lies under the root.
use mathlib.Core.Path.{subst}
use open_claw_bridge.Prelude.{
  String, ◌≡◌, refl, sym, inl, inr, Bool, true, false, ◌&&◌, List, [], ◌∷◌, map, arith, str_eq,
  eq_iff, Bool-cases, All,
}
use open_claw_bridge.Vault.Files.{FilePath, path_eq, path_mem, parents, is_under}

pub path_eq→eq : (p q : FilePath) → path_eq p q ≡ true → p ≡ q
unfolding path_eq
path_eq→eq [] [] e = refl
path_eq→eq [] (y ∷ q) e = cc
path_eq→eq (x ∷ p) [] e = cc
path_eq→eq (x ∷ p) (y ∷ q) e = ground (arith, path_eq→eq p q, eq_iff x y)

pub path_eq_refl : (p : FilePath) → path_eq p p ≡ true
unfolding path_eq
path_eq_refl [] = refl
path_eq_refl (x ∷ p) = ground (arith, path_eq_refl p, eq_iff x x)

pub is_under_refl : (p : FilePath) → is_under p p ≡ true
unfolding is_under
is_under_refl [] = refl
is_under_refl (x ∷ p) = ground (arith, is_under_refl p, eq_iff x x)

path_mem-map-cons :
    (x y : String) (q : FilePath) (ps : List FilePath)
    → path_mem (y ∷ q) (map (λ p. x ∷ p) ps) ≡ str_eq y x && path_mem q ps
unfolding path_mem path_eq
path_mem-map-cons x y q [] = ground arith
path_mem-map-cons x y q (p ∷ ps) = ground (arith, path_mem-map-cons x y q ps)

path_mem-map-nil : (x : String) (ps : List FilePath) → path_mem [] (map (λ p. x ∷ p) ps) ≡ false
unfolding path_mem path_eq
path_mem-map-nil x [] = refl
path_mem-map-nil x (p ∷ ps) = path_mem-map-nil x ps

-- Whether `q` is one of the parents of `p`, segment by segment.
pub parents-cons :
    (x y : String) (q p : FilePath)
    → path_mem (y ∷ q) (parents (x ∷ p)) ≡ str_eq y x && path_mem q (parents p)
unfolding parents path_mem path_eq
parents-cons x y q p = path_mem-map-cons x y q (parents p)

-- A directory above a path under the root is under the root or above it.
pub parents_under :
    (root p q : FilePath)
    → is_under root p ≡ true
    → path_mem q (parents p) ≡ true
    → is_under root q ≡ false
    → path_mem q (parents root) ≡ true
unfolding is_under
parents_under [] p q u m o = cc
parents_under (x ∷ root) [] q u m o = cc
parents_under (x ∷ root) (y ∷ p) [] u m o = unfold parents path_mem path_eq in refl
parents_under (x ∷ root) (y ∷ p) (z ∷ q) u m o = ground (
  arith,
  parents-cons y z q p,
  parents-cons x z q root,
  eq_iff x y,
  eq_iff x z,
  eq_iff z y,
  eq_iff z x,
  parents_under root p q,
)

-- What is in a list passes a test that all of the list pass.
pub All-path_mem :
    (test : FilePath → Bool) (q : FilePath) (ps : List FilePath)
    → All (λ p. test p ≡ true) ps
    → path_mem q ps ≡ true
    → test q ≡ true
unfolding path_mem
All-path_mem test q [] a m = cc
All-path_mem test q (p ∷ ps) a m = elim (Bool-cases (path_eq q p)) [
  | inl e ↦ subst (λ r. test r ≡ true) (sym (path_eq→eq q p e)) a.0
  | inr e ↦ All-path_mem test q ps a.1 (ground (arith, e))
]
