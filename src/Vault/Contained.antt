-- ===== src/Vault/Contained.antt =====
-- Nothing that the vault does reaches outside of its root.
use mathlib.Core.Path.{subst}
use open_claw_bridge.Prelude.{
  String, ◌≡◌, refl, ◌∙◌, inl, inr, true, false, some, arith, Bool-cases, Option-cases, any, All,
}
use open_claw_bridge.Errors.{ok, Details, Result-cases}
use open_claw_bridge.Server.{◌>>◌, ◌>>=◌}
use open_claw_bridge.Vault.Files.{
  is_file, FilePath, FileSystem, Node, file, path_eq, path_mem, parents, is_under, with_parents,
  exists, put_node, mkdir_parent,
}
use open_claw_bridge.Vault.Provider.{
  Library, WriteRequest, resolve, write, write_text, check_mode, new_text,
}
use open_claw_bridge.Vault.Paths.{path_eq→eq, parents_under, All-path_mem}

pub resolve-is_under :
    (lib : Library) (root target : FilePath) (path : String)
    → lib.root ≡ some root
    → resolve lib path ≡ ok target
    → is_under root target ≡ true
unfolding resolve
resolve-is_under lib root target path c e = ground arith

module _ (root target q : FilePath) (fs : FileSystem) (inside : is_under root target ≡ true)
    (outside : is_under root q ≡ false) (above : All (λ p. exists p fs ≡ true) (parents root)) where
  with_parents-outside : with_parents target fs q ≡ fs q
  unfolding with_parents
  with_parents-outside = elim (Bool-cases (path_mem q (parents target))) [
    | inl m ↦ ground (
      arith,
      m,
      All-path_mem (λ p. exists p fs) q (parents root) above
          (parents_under root target q inside m outside),
    )
    | inr m ↦ ground (arith, m)
  ]

  put_node-outside : (n : Node) (fs' : FileSystem) → put_node target n fs' q ≡ fs' q
  put_node-outside n fs' = elim (Bool-cases (path_eq target q)) [
    | inl e ↦
        absurd {0}
          (cc (subst (λ p. is_under root p ≡ true) (path_eq→eq target q e) inside, outside))
    | inr e ↦ rw e refl
  ]

  mkdir_parent-outside : (mkdir_parent target fs).1 q ≡ fs q
  unfolding mkdir_parent
  mkdir_parent-outside = ground (arith, with_parents-outside)

  write_text-outside :
      (dumps : String → Details → String) (r : WriteRequest) (fs' : FileSystem)
      → (write_text dumps r target fs').1 q ≡ fs' q
  unfolding write_text
  write_text-outside dumps r fs' = elim (Option-cases (new_text dumps r (fs' target))) [
    | inl e ↦ rw (write_text, e) refl
    | inr (t, e) ↦ rw (write_text, e) (put_node-outside (file t) fs')
  ]

  make_and_write-outside :
      (dumps : String → Details → String) (r : WriteRequest)
      → ((mkdir_parent target >> write_text dumps r target) fs).1 q ≡ fs q
  unfolding mkdir_parent
  make_and_write-outside dumps r = elim (Bool-cases (any (λ p. is_file (fs p)) (parents target))) [
    | inl e ↦ rw (mkdir_parent, ◌>>◌, ◌>>=◌, e) mkdir_parent-outside
    | inr e ↦
        rw (mkdir_parent, ◌>>◌, ◌>>=◌, e)
          (write_text-outside dumps r (mkdir_parent target fs).1 ∙ mkdir_parent-outside)
  ]

-- A write leaves every path outside of the vault's root as it was, whatever the requested path (with
-- `..`, absolute, or by a symbolic link), the mode and the outcome are: if the directories above the
-- root are there.
pub write-outside :
    (lib : Library) (root q : FilePath) (r : WriteRequest) (fs : FileSystem)
    → lib.root ≡ some root
    → All (λ p. exists p fs ≡ true) (parents root)
    → is_under root q ≡ false
    → (write lib r fs).1 q ≡ fs q
unfolding write
write-outside lib root q r fs c above outside = elim (Result-cases (resolve lib r.path)) [
  | inl (e, p) ↦ rw (write, p) refl
  | inr (target, p) ↦ elim (Option-cases (check_mode lib r (exists target fs))) [
    | inr (e, m) ↦ rw (write, p, m) refl
    | inl m ↦
        rw (write, p, m)
          (make_and_write-outside root target q fs (resolve-is_under lib root target r.path c p)
            outside above lib.dumps r)
  ]
]
