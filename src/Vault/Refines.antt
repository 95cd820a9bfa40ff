-- ===== src/Vault/Refines.antt =====
-- The vault refines the map of its notes. Notes have names by which they differ from directories, such
-- as an ending in `.md`; the map forgets the directories, which a write makes on its way.
use mathlib.Core.Path.{subst, fun_ext}
use open_claw_bridge.Prelude.{
  String, utf8_length, ◌≡◌, refl, ap, ◌≢◌, ◌⊎◌, inl, inr, Bool, true, false, not, ◌&&◌, Option,
  none, some, List, [], ◌∷◌, arith, eq_iff, Bool-cases, Option-cases, concat, concat_one,
  concat_nil, is_empty, any, All,
}
use open_claw_bridge.Errors.{BridgeError, ok, err, Result-cases}
use open_claw_bridge.Server.{◌>>◌, ◌>>=◌}
use open_claw_bridge.Vault.Files.{
  FilePath, FileSystem, Node, file, directory, is_file, ends_with_newline, path_eq, path_mem,
  parents, with_parents, exists, put_node, mkdir_parent, os_error,
}
use open_claw_bridge.Vault.Provider.{
  appended, Library, WriteRequest, resolve, read, write, write_text, check_mode, new_text,
}
use open_claw_bridge.Vault.Paths.{path_eq→eq, path_eq_refl, parents-cons}
use open_claw_bridge.Vault.Notes.{
  joined, notes, put_note, Request, reading, writing, contents, written, serve, run, note_after,
  revise, consult, replay_one, replay,
}

module _ (named : String → Bool) where
  -- The last segment is a note's name, and no segment before it is.
  abbrev pub is_note : FilePath → Bool
  is_note [] = false
  is_note (x ∷ []) = named x
  is_note (x ∷ y ∷ p) = not (named x) && is_note (y ∷ p)

  abbrev pub fits : Bool → Option Node → Bool
  fits b none = true
  fits b (some directory) = not b
  fits b (some (file t)) = b

  -- Files stand at notes' paths, and directories at others.
  pub record IsTidy (fs : FileSystem) : Type 0 where
    pub kinds : (p : FilePath) → fits (is_note p) (fs p) ≡ true

  -- A request to write goes to a note's path, or is refused for its path.
  abbrev pub is_noted : Library → Request → Bool
  is_noted lib (reading path) = true
  is_noted lib (writing r) = elim (resolve lib r.path) [ err e ↦ true | ok p ↦ is_note p ]

  parents_not_note :
      (p q : FilePath) → is_note p ≡ true → path_mem q (parents p) ≡ true → is_note q ≡ false
  parents_not_note p [] n m = refl
  parents_not_note [] (y ∷ q) n m = cc
  parents_not_note (x ∷ []) (y ∷ []) n m =
      unfold parents path_mem in ground (arith, parents-cons x y [] [])
  parents_not_note (x ∷ []) (y ∷ w ∷ q) n m =
      unfold parents path_mem in ground (arith, parents-cons x y (w ∷ q) [])
  parents_not_note (x ∷ z ∷ p) (y ∷ []) n m =
      ground (arith, parents-cons x y [] (z ∷ p), eq_iff y x)
  parents_not_note (x ∷ z ∷ p) (y ∷ w ∷ q) n m =
      ground (arith, parents-cons x y (w ∷ q) (z ∷ p), parents_not_note (z ∷ p) (w ∷ q))

  appended-joined : (old content : String) → appended old content ≡ joined old content
  unfolding appended joined
  appended-joined old content = elim (Bool-cases (is_empty old)) [
    | inl e ↦
        rw (appended, joined, e, concat_one (concat ("" ∷ content ∷ [])), concat_nil content [])
          refl
    | inr e ↦ elim (Bool-cases (ends_with_newline old)) [
      | inl f ↦
          rw
            (appended, joined, e, f, concat_one (concat ("" ∷ content ∷ [])), concat_nil content [])
            refl
      | inr f ↦ rw (appended, joined, e, f, concat_one (concat ("\n" ∷ content ∷ []))) refl
    ]
  ]

  none_blocks :
      (fs : FileSystem) (ps : List FilePath)
      → IsTidy fs
      → ((q : FilePath) → path_mem q ps ≡ true → is_note q ≡ false)
      → any (λ q. is_file (fs q)) ps ≡ false
  unfolding path_mem is_file
  none_blocks fs [] tidy apart = refl
  none_blocks fs (p ∷ ps) tidy apart = ground (
    arith,
    tidy.kinds p,
    apart p,
    path_eq_refl p,
    none_blocks fs ps tidy (λ q m. apart q (ground (arith, m))),
  )

  module _ (p : FilePath) (fs : FileSystem) (noted : is_note p ≡ true) (tidy : IsTidy fs) where
    no_parent : path_mem p (parents p) ≡ false
    no_parent = ground (arith, parents_not_note p p)

    mkdir_parent-note : mkdir_parent p fs ≡ (ok tt, with_parents p fs)
    unfolding mkdir_parent
    mkdir_parent-note =
        ground (arith, none_blocks fs (parents p) tidy (λ q m. parents_not_note p q noted m))

    with_parents-note : with_parents p fs p ≡ fs p
    unfolding with_parents
    with_parents-note = ground (arith, no_parent)

    notes-with_parents : (q : FilePath) → notes (with_parents p fs) q ≡ notes fs q
    unfolding with_parents
    notes-with_parents q = ground arith

    with_parents-fits : (q : FilePath) → fits (is_note q) (with_parents p fs q) ≡ true
    unfolding with_parents
    with_parents-fits q = ground (arith, tidy.kinds q, parents_not_note p q)

    -- The file system after a note is written.
    abbrev noted_fs : String → FileSystem
    noted_fs t = put_node p (file t) (with_parents p fs)

    noted_fs-IsTidy : (t : String) → IsTidy (noted_fs t)
    noted_fs-IsTidy t = record {
      kinds = λ q. elim (Bool-cases (path_eq p q)) [
        | inl e ↦ rw e (subst (λ r. is_note r ≡ true) (path_eq→eq p q e) noted)
        | inr e ↦ rw e (with_parents-fits q)
      ];
    }

    notes-noted_fs : (t : String) → notes (noted_fs t) ≡ put_note p t (notes fs)
    notes-noted_fs t = fun_ext (λ q. elim (Bool-cases (path_eq p q)) [
      | inl e ↦ rw e refl
      | inr e ↦ rw e (notes-with_parents q)
    ])

    not_directory : (fs p ≡ none) ⊎ ((t : String) × (fs p ≡ some (file t)))
    not_directory = elim (Option-cases (fs p)) [
      | inl e ↦ inl e
      | inr (directory, e) ↦ absurd (ground (arith, e, tidy.kinds p))
      | inr (file t, e) ↦ inr (t, e)
    ]

    module _ (lib : Library) (r : WriteRequest) (found : resolve lib r.path ≡ ok p) where
      write-refused :
          {e : BridgeError} → check_mode lib r (exists p fs) ≡ some e → write lib r fs ≡ (err e, fs)
      unfolding write
      write-refused c = rw (write, found, c) refl

      write-done :
          {t : String}
          → check_mode lib r (exists p fs) ≡ none
          → new_text lib.dumps r (fs p) ≡ some t
          → write lib r fs ≡ (
            ok (record { path = r.path; size = utf8_length t; written_at = r.now; op = r.mode }),
            noted_fs t,
          )
      unfolding write write_text
      write-done c t =
          rw (write, found, c, ◌>>◌, ◌>>=◌, mkdir_parent-note)
            (rw (mkdir_parent-note, write_text, with_parents-note, t) (rw mkdir_parent-note refl))

      has_text : new_text lib.dumps r (fs p) ≢ none
      unfolding new_text
      has_text = elim not_directory [ inl e ↦ ground (arith, e) | inr (t, e) ↦ ground (arith, e) ]

      -- The guards and the new text, read off the note.
      note_after-Mode :
          note_after lib r.mode r (notes fs p) ≡ elim (check_mode lib r (exists p fs)) [
            | some e ↦ err e
            | none ↦ elim (new_text lib.dumps r (fs p)) [ none ↦ err os_error | some t ↦ ok t ]
          ]
      unfolding check_mode new_text note_after
      note_after-Mode = elim not_directory [
        | inl e ↦ ground (arith, e)
        | inr (t, e) ↦ ground (arith, e, appended-joined t r.content)
      ]

      revise_lem :
          ((write lib r fs).0 ≡ (revise lib r p (notes fs)).0)
          × (notes (write lib r fs).1 ≡ (revise lib r p (notes fs)).1)
          × IsTidy (write lib r fs).1
      unfolding revise
      revise_lem = elim (Option-cases (check_mode lib r (exists p fs))) [
        | inr (e, c) ↦ rw (write-refused c) (rw (revise, note_after-Mode, c) (refl, refl, tidy))
        | inl c ↦ elim (Option-cases (new_text lib.dumps r (fs p))) [
          | inl t ↦ absurd (has_text t)
          | inr (t, d) ↦
              rw (write-done c d, revise, note_after-Mode, c, d)
                (refl, notes-noted_fs t, noted_fs-IsTidy t)
        ]
      ]

  module _ (lib : Library) where
    read-consult :
        (path : String) (p : FilePath) (fs : FileSystem)
        → resolve lib path ≡ ok p
        → read lib path fs ≡ consult lib path (notes fs p)
    unfolding read consult
    read-consult path p fs f = elim (Option-cases (fs p)) [
      | inl e ↦ rw (read, f, e) refl
      | inr (directory, e) ↦ rw (read, f, e) refl
      | inr (file t, e) ↦ rw (read, f, e) refl
    ]

    serve-replay_one :
        (q : Request) (fs : FileSystem)
        → is_noted lib q ≡ true
        → IsTidy fs
        → ((serve lib q fs).0 ≡ (replay_one lib q (notes fs)).0)
          × (notes (serve lib q fs).1 ≡ (replay_one lib q (notes fs)).1)
          × IsTidy (serve lib q fs).1
    unfolding serve replay_one
    serve-replay_one (reading path) fs noted tidy = elim (Result-cases (resolve lib path)) [
      | inl (e, f) ↦ rw (read, replay_one, f) (refl, refl, tidy)
      | inr (p, f) ↦ rw (replay_one, f) (ap contents (read-consult path p fs f), refl, tidy)
    ]
    serve-replay_one (writing r) fs noted tidy = elim (Result-cases (resolve lib r.path)) [
      | inl (e, f) ↦ rw (write, replay_one, f) (refl, refl, tidy)
      | inr (p, f) ↦
          let noted' : is_note p ≡ true = rw (is_noted, f) at noted in
          let step = revise_lem p fs noted' tidy lib r f in
          rw (replay_one, f) (ap written step.0, step.1, step.2)
    ]

    -- Over any sequence of reads and writes the vault answers as the map of its notes does, and its notes
    -- end up as that map: if files stand at the paths of notes and directories at others, which stays so,
    -- and every write whose path is accepted goes to the path of a note.
    pub run-replay :
        (qs : List Request) (fs : FileSystem)
        → All (λ q. is_noted lib q ≡ true) qs
        → IsTidy fs
        → ((run lib qs fs).0 ≡ (replay lib qs (notes fs)).0)
          × (notes (run lib qs fs).1 ≡ (replay lib qs (notes fs)).1)
          × IsTidy (run lib qs fs).1
    unfolding run replay
    run-replay [] fs all tidy = (refl, refl, tidy)
    run-replay (q ∷ qs) fs all tidy =
        let step = serve-replay_one q fs all.0 tidy in
        let rest = run-replay qs (serve lib q fs).1 all.1 step.2 in
        rw (← step.0, ← step.1) (ap (λ l. (serve lib q fs).0 ∷ l) rest.0, rest.1, rest.2)
