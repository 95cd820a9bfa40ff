-- ===== src/Auth/Staleness.antt =====
-- How old an answer of `TokenStore.lookup` can be.
use open_claw_bridge.Prelude.{
  ℕ, ◌+◌, ◌≤◌, String, ◌≡◌, refl, ap, ◌∙◌, ◌≢◌, inl, inr, Bool, true, false, not, ◌&&◌, ◌||◌,
  Option, none, some, List, [], ◌∷◌, arith, str_eq, Bool-cases, Option-cases, is_empty, get_or,
  is_some, any,
}
use open_claw_bridge.Errors.{ok}
use open_claw_bridge.Auth.{
  Credential, TokenRecord, TokenStore, refresh_ttl, active_previous, is_provider, get,
  index_credential, index_all, refresh, lookup, require_auth, is_stale,
}

module _ (sha256 : String → String) (keychain : ℕ → List Credential) where
  -- The store holds what the Keychain held when it was loaded.
  pub record IsLoaded (now : ℕ) (s : TokenStore) : Type 0 where
    pub past : get_or s.loaded_at now ≤ now
    pub loaded : (t : ℕ) → s.loaded_at ≡ some t → s ≡ refresh sha256 t (keychain t)

  -- Whether a credential lets a digest in at this time.
  abbrev pub grants : ℕ → String → Credential → Bool
  grants now d c =
      not (is_provider c)
      && (str_eq (sha256 c.token) d
          || elim (active_previous now c) [ none ↦ false | some t ↦ str_eq (sha256 t) d ])

  get-credential :
      (now : ℕ) (d : String) (c : Credential) (rs : List (String × TokenRecord))
      → grants now d c ≡ false
      → get d (index_credential sha256 now c rs) ≡ get d rs
  unfolding index_credential
  get-credential now d c rs e = ground (arith, e)

  pub get-index_all :
      (now : ℕ) (d : String) (cs : List Credential) (rs : List (String × TokenRecord))
      → any (grants now d) cs ≡ false
      → get d (index_all sha256 now cs rs) ≡ get d rs
  unfolding index_all
  get-index_all now d [] rs e = refl
  get-index_all now d (c ∷ cs) rs e =
      get-index_all now d cs (index_credential sha256 now c rs) (ground (arith, e))
      ∙ get-credential now d c rs (ground (arith, e))

  indexed-keeps :
      (now : ℕ) (d : String) (cs : List Credential) (rs : List (String × TokenRecord))
      → is_some (get d rs) ≡ true
      → is_some (get d (index_all sha256 now cs rs)) ≡ true
  unfolding index_all index_credential
  indexed-keeps now d [] rs e = e
  indexed-keeps now d (c ∷ cs) rs e =
      indexed-keeps now d cs (index_credential sha256 now c rs) (ground (arith, e))

  indexed :
      (now : ℕ) (d : String) (cs : List Credential) (rs : List (String × TokenRecord))
      → any (grants now d) cs ≡ true
      → is_some (get d (index_all sha256 now cs rs)) ≡ true
  unfolding index_all index_credential
  indexed now d [] rs e = ground arith
  indexed now d (c ∷ cs) rs e = elim (Bool-cases (grants now d c)) [
    | inl g ↦ indexed-keeps now d cs (index_credential sha256 now c rs) (ground (arith, g))
    | inr g ↦ indexed now d cs (index_credential sha256 now c rs) (ground (arith, g, e))
  ]

  missing : (o p : Option TokenRecord) → o ≡ none → o ≡ p → is_some p ≡ true → ⊥
  missing o p n e m = ground (arith, n, e, m)

  now-IsLoaded : (now : ℕ) → IsLoaded now (refresh sha256 now (keychain now))
  unfolding refresh
  now-IsLoaded now = record { past = omega arith; loaded = λ t e. ground (arith, e) }

  -- A lookup keeps the store loaded, and answers from the Keychain of at most a minute ago.
  pub lookup-IsLoaded :
      (now : ℕ) (token : String) (s : TokenStore)
      → IsLoaded now s
      → (let (found, s') = lookup sha256 now (keychain now) token s in
          IsLoaded now s'
          × ((t : ℕ) × (t ≤ now)
              × (now ≤ t + refresh_ttl)
              × (found ≡ get (sha256 token) (index_all sha256 t (keychain t) []))))
  unfolding lookup refresh
  lookup-IsLoaded now token s v = elim (Option-cases s.loaded_at) [
    | inl n ↦
        let new : is_stale sha256 now s ≡ true = ground (arith, n) in
        rw (new) (now-IsLoaded now, (now, omega arith, omega arith, refl))
    | inr (t, m) ↦ elim (Bool-cases (is_stale sha256 now s)) [
      | inl old ↦ rw (old) (now-IsLoaded now, (now, omega arith, omega arith, refl))
      | inr young ↦
          let same = ap (λ (x : TokenStore). get (sha256 token) x.records) (v.loaded t m) in
          rw (young) (v, (t, ground (arith, m, v.past), ground (arith, m, young, v.past), same))
    ]
  ]

  -- A token that no credential has granted since some time is refused once a minute more has gone by:
  -- one that was revoked, replaced, or whose grace has ended. By any store that was loaded from the
  -- Keychain, or not yet.
  pub require_auth-revoked :
      (since now : ℕ) (token : String) (s : TokenStore) (r : TokenRecord)
      → IsLoaded now s
      → ((t : ℕ) → since ≤ t → any (grants t (sha256 token)) (keychain t) ≡ false)
      → since + refresh_ttl ≤ now
      → (require_auth sha256 now (keychain now) (some token) s).0 ≢ ok r
  unfolding require_auth
  require_auth-revoked since now token s r v gone late =
      let (loaded, (t, le, recent, found)) = lookup-IsLoaded now token s v in
      let nothing =
        get-index_all t (sha256 token) (keychain t) [] (gone t (omega (arith, late, recent))) in
      ground (arith, found, nothing)

  -- A token that some credential has granted since some time is accepted once a minute more has gone by.
  pub require_auth-minted :
      (since now : ℕ) (token : String) (s : TokenStore)
      → IsLoaded now s
      → ((t : ℕ) → since ≤ t → any (grants t (sha256 token)) (keychain t) ≡ true)
      → since + refresh_ttl ≤ now
      → is_empty token ≡ false
      → (r : TokenRecord) × ((require_auth sha256 now (keychain now) (some token) s).0 ≡ ok r)
  unfolding require_auth
  require_auth-minted since now token s v there late full =
      let (loaded, (t, le, recent, found)) = lookup-IsLoaded now token s v in
      let some_record =
        indexed t (sha256 token) (keychain t) [] (there t (omega (arith, late, recent))) in
      elim (Option-cases (lookup sha256 now (keychain now) token s).0) [
        | inl n ↦
            elim (missing (lookup sha256 now (keychain now) token s).0
              (get (sha256 token) (index_all sha256 t (keychain t) [])) n found some_record) [ ]
        | inr (r, m) ↦ (r, ground (arith, m, full))
      ]
