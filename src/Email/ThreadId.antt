-- ===== src/Email/ThreadId.antt =====
-- `encode_thread_id` and `decode_thread_id` of bridge/src/bridge/providers/email/threading.py, on code
-- points. UTF-8 is a parameter.
use open_claw_bridge.Prelude.{
  ℕ, ◌+◌, ◌*◌, ◌/◌, ◌%◌, ◌<◌, ◌≡◌, refl, Bool, true, false, ◌||◌, Option, none, some, [], ◌∷◌, ◌++◌,
  arith, leb, ◌==◌, if◌then◌else◌, is_space, length, any,
}
use open_claw_bridge.Email.Parse.{Text}
use open_claw_bridge.Email.Base64.{
  Bytes, IsBytes, character, b64encode, b64decode, b64decode-b64encode, rstrip, repeat, missing,
  pad-rstrip,
}

-- `str.encode` and `bytes.decode`, which is none where it raises.
pub record Utf8 : Type 0 where
  pub encode : Text → Bytes
  pub decode : Bytes → Option Text

unfoldable pub lstrip_if : (ℕ → Bool) → Text → Text
lstrip_if p [] = []
lstrip_if p (c ∷ s) = if p c then lstrip_if p s else c ∷ s

unfoldable pub rstrip_if : (ℕ → Bool) → Text → Text
rstrip_if p [] = []
rstrip_if p (c ∷ s) = elim (rstrip_if p s) [ [] ↦ if p c then [] else c ∷ [] | d ∷ r ↦ c ∷ d ∷ r ]

-- `message_id.strip().lstrip("<").rstrip(">")`
unfoldable pub cleaned : Text → Text
unfolding lstrip_if rstrip_if rstrip is_space
cleaned message_id =
    rstrip 62 (lstrip_if (λ c. c == 60) (rstrip_if is_space (lstrip_if is_space message_id)))

unfoldable pub encode_thread_id : Utf8 → Text → Text → Text
unfolding cleaned b64encode rstrip
encode_thread_id utf8 account message_id =
    rstrip 61 (b64encode (utf8.encode (account ++ 58 ∷ cleaned message_id)))

-- `text.split(":", 1)`; none if there is no colon.
unfoldable pub split_colon : Text → Option (Text × Text)
split_colon [] = none
split_colon (c ∷ s) =
    if c == 58
    then some ([], s)
    else elim (split_colon s) [ none ↦ none | some (a, b) ↦ some (c ∷ a, b) ]

-- The three messages of `BadRequest`.
pub data Malformed : Type 0 where
  malformed : Malformed
  missing_separator : Malformed
  empty_component : Malformed

pub data Decoded : Type 0 where
  thread : (account message_id : Text) → Decoded
  bad_request : Malformed → Decoded

abbrev pub is_nothing : Text → Bool
is_nothing [] = true
is_nothing (c ∷ s) = false

-- From the text of the payload on.
unfoldable pub decode_text : Text → Decoded
unfolding split_colon
decode_text s = elim (split_colon s) [
  | none ↦ bad_request missing_separator
  | some (account, message_id) ↦
      if is_nothing account || is_nothing message_id
      then bad_request empty_component
      else thread account (60 ∷ (message_id ++ 62 ∷ []))
]

unfoldable pub decode_thread_id : Utf8 → Text → Decoded
unfolding decode_text
decode_thread_id utf8 token =
    if any (λ c. leb 128 c) token
    then bad_request malformed
    else elim (b64decode (token ++ repeat (missing (length token)) 61)) [
      | none ↦ bad_request malformed
      | some payload ↦ elim (utf8.decode payload) [
        | none ↦ bad_request malformed
        | some s ↦ decode_text s
      ]
    ]

any-rstrip : (p : ℕ → Bool) (c : ℕ) (s : Text) → any p s ≡ false → any p (rstrip c s) ≡ false
unfolding rstrip
any-rstrip p c [] e = refl
any-rstrip p c (x ∷ s) e = ground (arith, any-rstrip p c s)

character_ascii : (n : ℕ) → n < 64 → leb 128 (character n) ≡ false
unfolding character
character_ascii n l = ground arith

b64encode_ascii : (bs : Bytes) → IsBytes bs → any (λ c. leb 128 c) (b64encode bs) ≡ false
unfolding b64encode
b64encode_ascii [] w = refl
b64encode_ascii (a ∷ []) w =
    rw (character_ascii (a / 4) (omega (arith, w.0)), character_ascii (a % 4 * 16) (omega arith))
      refl
b64encode_ascii (a ∷ b ∷ []) w =
    rw
      (
        character_ascii (a / 4) (omega (arith, w.0)),
        character_ascii (a % 4 * 16 + b / 16) (omega (arith, w.1.0)),
        character_ascii (b % 16 * 4) (omega arith),
      )
      refl
b64encode_ascii (a ∷ b ∷ c ∷ rest) w =
    rw
      (
        character_ascii (a / 4) (omega (arith, w.0)),
        character_ascii (a % 4 * 16 + b / 16) (omega (arith, w.1.0)),
        character_ascii (b % 16 * 4 + c / 64) (omega (arith, w.1.1.0)),
        character_ascii (c % 64) (omega arith),
      )
      (b64encode_ascii rest w.1.1.1)

split_colon-append :
    (a b : Text) → any (λ c. c == 58) a ≡ false → split_colon (a ++ 58 ∷ b) ≡ some (a, b)
unfolding split_colon
split_colon-append [] b e = refl
split_colon-append (c ∷ a) b e = ground (arith, split_colon-append a b)

-- A thread id is read back as the account and the message id, less the spaces around it and the angle
-- brackets, in brackets: if the account is not empty and has no colon, and the message id has more than
-- spaces and brackets, and UTF-8 writes the account, a colon and that id in bytes and reads them back.
pub decode-encode :
    (utf8 : Utf8) (account message_id : Text)
    → utf8.decode (utf8.encode (account ++ 58 ∷ cleaned message_id))
      ≡ some (account ++ 58 ∷ cleaned message_id)
    → IsBytes (utf8.encode (account ++ 58 ∷ cleaned message_id))
    → is_nothing account ≡ false
    → any (λ c. c == 58) account ≡ false
    → is_nothing (cleaned message_id) ≡ false
    → decode_thread_id utf8 (encode_thread_id utf8 account message_id)
      ≡ thread account (60 ∷ (cleaned message_id ++ 62 ∷ []))
unfolding decode_thread_id encode_thread_id decode_text
decode-encode utf8 account message_id undo bytes full plain some_id =
    let text = account ++ 58 ∷ cleaned message_id in
    let payload = utf8.encode text in
    rw
      (
        any-rstrip (λ c. leb 128 c) 61 (b64encode payload) (b64encode_ascii payload bytes),
        pad-rstrip payload bytes,
        b64decode-b64encode payload bytes,
        undo,
        decode_text,
        split_colon-append account (cleaned message_id) plain,
        full,
        some_id,
      )
      refl
