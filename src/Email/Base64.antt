-- ===== src/Email/Base64.antt =====
-- Python's `base64.urlsafe_b64encode` and `urlsafe_b64decode`, on bytes.
use open_claw_bridge.Prelude.{
  ℕ, zero, suc, ◌+◌, ◌-◌, ◌*◌, ◌/◌, ◌%◌, ◌<◌, ◌≡◌, refl, ap, ◌∙◌, ◌≢◌, ◌&&◌, ◌||◌, Option, none,
  some, List, [], ◌∷◌, ◌++◌, arith, ltb, leb, ◌==◌, if◌then◌else◌, length, All,
}

abbrev pub Bytes : Type 0
Bytes = List ℕ

-- The character of a digit from 0 to 63.
unfoldable pub character : ℕ → ℕ
character n =
    if ltb n 26
    then 65 + n
    else if ltb n 52
    then 71 + n
    else if ltb n 62
    then n - 4
    else if n == 62
    then 45
    else 95

-- The digit of a character; the alphabet that is not URL-safe is read too.
unfoldable pub digit : ℕ → Option ℕ
digit c =
    if leb 65 c && leb c 90
    then some (c - 65)
    else if leb 97 c && leb c 122
    then some (c - 71)
    else if leb 48 c && leb c 57
    then some (c + 4)
    else if c == 45 || c == 43
    then some 62
    else if c == 95 || c == 47
    then some 63
    else none

-- `urlsafe_b64encode`: three bytes make four characters, and `=` fills the last four.
unfoldable pub b64encode : Bytes → List ℕ
unfolding character
b64encode [] = []
b64encode (a ∷ []) = character (a / 4) ∷ character (a % 4 * 16) ∷ 61 ∷ 61 ∷ []
b64encode (a ∷ b ∷ []) =
    character (a / 4) ∷ character (a % 4 * 16 + b / 16) ∷ character (b % 16 * 4) ∷ 61 ∷ []
b64encode (a ∷ b ∷ c ∷ rest) =
    character (a / 4)
    ∷ character (a % 4 * 16 + b / 16)
    ∷ character (b % 16 * 4 + c / 64)
    ∷ character (c % 64)
    ∷ b64encode rest

abbrev pub before : ℕ → Option Bytes → Option Bytes
before b none = none
before b (some bs) = some (b ∷ bs)

-- `binascii.a2b_base64` where it is not strict: other characters are skipped, and a padding that fills
-- the group of four ends the data. `place` is the place in the group, `left` what is left of the last
-- digit, and `pads` counts the padding.
unfoldable pub a2b : (place left pads : ℕ) → List ℕ → Option Bytes
unfolding digit
a2b place left pads [] = if place == 0 then some [] else none
a2b place left pads (c ∷ s) =
    let padded = a2b place left (if leb 2 place then pads + 1 else pads) s in
    let skipped = a2b place left pads s in
    let first = λ (d : ℕ). a2b 1 d 0 s in
    let second = λ (d : ℕ). before (left * 4 + d / 16) (a2b 2 (d % 16) 0 s) in
    let third = λ (d : ℕ). before (left * 16 + d / 4) (a2b 3 (d % 4) 0 s) in
    let fourth = λ (d : ℕ). before (left * 64 + d) (a2b 0 0 0 s) in
    if c == 61
    then (if leb 2 place && leb 4 (place + pads + 1) then some [] else padded)
    else elim (digit c) [
      | none ↦ skipped
      | some d ↦
          if place == 0
          then first d
          else if place == 1
          then second d
          else if place == 2
          then third d
          else fourth d
    ]

abbrev pub b64decode : List ℕ → Option Bytes
b64decode s = a2b 0 0 0 s

digit-character : (n : ℕ) → n < 64 → digit (character n) ≡ some n
unfolding digit character
digit-character n l = ground arith

character-ne : (n : ℕ) → n < 64 → character n ≢ 61
unfolding character
character-ne n l = ground arith

abbrev pub IsBytes : Bytes → Type 0
IsBytes bs = All (λ b. b < 256) bs

-- A digit at each place of the group.
module _ (n : ℕ) (l : n < 64) (left pads : ℕ) (s : List ℕ) where
  at_first : a2b 0 left pads (character n ∷ s) ≡ a2b 1 n 0 s
  unfolding a2b
  at_first = ground (arith, digit-character n l, character-ne n l)

  at_second : a2b 1 left pads (character n ∷ s) ≡ before (left * 4 + n / 16) (a2b 2 (n % 16) 0 s)
  unfolding a2b
  at_second = ground (arith, digit-character n l, character-ne n l)

  at_third : a2b 2 left pads (character n ∷ s) ≡ before (left * 16 + n / 4) (a2b 3 (n % 4) 0 s)
  unfolding a2b
  at_third = ground (arith, digit-character n l, character-ne n l)

  at_fourth : a2b 3 left pads (character n ∷ s) ≡ before (left * 64 + n) (a2b 0 0 0 s)
  unfolding a2b
  at_fourth = ground (arith, digit-character n l, character-ne n l)

two_pads : (left : ℕ) → a2b 2 left 0 (61 ∷ 61 ∷ []) ≡ some []
unfolding a2b
two_pads left = refl

one_pad : (left : ℕ) → a2b 3 left 0 (61 ∷ []) ≡ some []
unfolding a2b
one_pad left = refl

pub b64decode-b64encode : (bs : Bytes) → IsBytes bs → b64decode (b64encode bs) ≡ some bs
unfolding b64encode
b64decode-b64encode [] w = unfold a2b in refl
b64decode-b64encode (a ∷ []) w =
    let e : a / 4 * 4 + a % 4 * 16 / 16 ≡ a = omega arith in
    rw
      (
        at_first (a / 4) (omega (arith, w.0)) 0 0 _,
        at_second (a % 4 * 16) (omega arith) (a / 4) 0 _,
        two_pads (a % 4 * 16 % 16),
      )
      (ap (λ x. some (x ∷ [])) e)
b64decode-b64encode (a ∷ b ∷ []) w =
    let e : a / 4 * 4 + (a % 4 * 16 + b / 16) / 16 ≡ a = omega (arith, w.1.0) in
    let f : (a % 4 * 16 + b / 16) % 16 * 16 + b % 16 * 4 / 4 ≡ b = omega (arith, w.1.0) in
    rw
      (
        at_first (a / 4) (omega (arith, w.0)) 0 0 _,
        at_second (a % 4 * 16 + b / 16) (omega (arith, w.1.0)) (a / 4) 0 _,
        at_third (b % 16 * 4) (omega arith) ((a % 4 * 16 + b / 16) % 16) 0 _,
        one_pad (b % 16 * 4 % 4),
      )
      (λ i. some (e i ∷ f i ∷ []))
b64decode-b64encode (a ∷ b ∷ c ∷ rest) w =
    let ih = b64decode-b64encode rest w.1.1.1 in
    let e : a / 4 * 4 + (a % 4 * 16 + b / 16) / 16 ≡ a = omega (arith, w.1.0) in
    let f : (a % 4 * 16 + b / 16) % 16 * 16 + (b % 16 * 4 + c / 64) / 4 ≡ b =
      omega (arith, w.1.0, w.1.1.0) in
    let g : (b % 16 * 4 + c / 64) % 4 * 64 + c % 64 ≡ c = omega (arith, w.1.1.0) in
    rw
      (
        at_first (a / 4) (omega (arith, w.0)) 0 0 _,
        at_second (a % 4 * 16 + b / 16) (omega (arith, w.1.0)) (a / 4) 0 _,
        at_third (b % 16 * 4 + c / 64) (omega (arith, w.1.1.0)) ((a % 4 * 16 + b / 16) % 16) 0 _,
        at_fourth (c % 64) (omega arith) ((b % 16 * 4 + c / 64) % 4) 0 _,
        ih,
      )
      (λ i. some (e i ∷ f i ∷ g i ∷ rest))

-- `s.rstrip(c)`
unfoldable pub rstrip : ℕ → List ℕ → List ℕ
rstrip c [] = []
rstrip c (x ∷ s) = elim (rstrip c s) [ [] ↦ if x == c then [] else x ∷ [] | y ∷ r ↦ x ∷ y ∷ r ]

abbrev pub repeat : ℕ → ℕ → List ℕ
repeat zero c = []
repeat (suc n) c = c ∷ repeat n c

-- `(4 - len(token) % 4) % 4`
abbrev pub missing : ℕ → ℕ
missing n = (4 - n % 4) % 4

rstrip-cons : (c x : ℕ) (s : List ℕ) → x ≢ c → rstrip c (x ∷ s) ≡ x ∷ rstrip c s
unfolding rstrip
rstrip-cons c x s ne = ground arith

-- The padding that was stripped is put back.
pub pad-rstrip :
    (bs : Bytes)
    → IsBytes bs
    → (let token = rstrip 61 (b64encode bs) in token ++ repeat (missing (length token)) 61)
      ≡ b64encode bs
unfolding b64encode
pad-rstrip [] w = unfold rstrip in refl
pad-rstrip (a ∷ []) w =
    let r : rstrip 61 (61 ∷ 61 ∷ []) ≡ [] = unfold rstrip in refl in
    rw
      (
        rstrip-cons 61 (character (a / 4)) (character (a % 4 * 16) ∷ 61 ∷ 61 ∷ [])
            (character-ne (a / 4) (omega (arith, w.0))),
        rstrip-cons 61 (character (a % 4 * 16)) (61 ∷ 61 ∷ [])
            (character-ne (a % 4 * 16) (omega arith)),
        r,
      )
      refl
pad-rstrip (a ∷ b ∷ []) w =
    let r : rstrip 61 (61 ∷ []) ≡ [] = unfold rstrip in refl in
    rw
      (
        rstrip-cons 61 (character (a / 4)) _ (character-ne (a / 4) (omega (arith, w.0))),
        rstrip-cons 61 (character (a % 4 * 16 + b / 16)) _
            (character-ne (a % 4 * 16 + b / 16) (omega (arith, w.1.0))),
        rstrip-cons 61 (character (b % 16 * 4)) _ (character-ne (b % 16 * 4) (omega arith)),
        r,
      )
      refl
pad-rstrip (a ∷ b ∷ c ∷ rest) w =
    let token = rstrip 61 (b64encode rest) in
    let same : missing (4 + length token) ≡ missing (length token) = omega arith in
    rw
      (
        rstrip-cons 61 (character (a / 4)) _ (character-ne (a / 4) (omega (arith, w.0))),
        rstrip-cons 61 (character (a % 4 * 16 + b / 16)) _
            (character-ne (a % 4 * 16 + b / 16) (omega (arith, w.1.0))),
        rstrip-cons 61 (character (b % 16 * 4 + c / 64)) _
            (character-ne (b % 16 * 4 + c / 64) (omega (arith, w.1.1.0))),
        rstrip-cons 61 (character (c % 64)) _ (character-ne (c % 64) (omega arith)),
      )
      (ap
          (λ n.
            character (a / 4)
            ∷ character (a % 4 * 16 + b / 16)
            ∷ character (b % 16 * 4 + c / 64)
            ∷ character (c % 64)
            ∷ (token ++ repeat n 61))
          (ground (arith, same))
        ∙ ap
            (λ t.
              character (a / 4)
              ∷ character (a % 4 * 16 + b / 16)
              ∷ character (b % 16 * 4 + c / 64)
              ∷ character (c % 64)
              ∷ t)
            (pad-rstrip rest w.1.1.1))
