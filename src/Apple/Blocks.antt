-- ===== src/Apple/Blocks.antt =====
-- The blocks that a script's properties or setters are put together from: what the code's blocks are,
-- next to those that the arguments mean.
use open_claw_bridge.Prelude.{
  String, ◌≡◌, refl, ap, ◌∙◌, inl, inr, Bool, true, false, ◌&&◌, Option, none, some, List, [], ◌∷◌,
  ◌++◌, map, arith, is_some, All,
}
use open_claw_bridge.Server.{Exec, pure}
use open_claw_bridge.Relay.Outbound.{codes}
use open_claw_bridge.Apple.Script.{
  Log, Part, raw, chars, quoted, join, escaped, is_clean, escape, Reformat, format_dt, text_block,
  date_block,
}
use open_claw_bridge.Apple.Read.{escape_all, is_plain, has_quote}
use open_claw_bridge.Apple.Checks.{
  block_of, Checks, PrintsPlain, bind-Checks, pure-Checks, escape-Checks, format_dt-Checks, date_of,
}

abbrev pub text_says : (before : String) → String → List Part
text_says before v = raw before ∷ quoted (codes v) ∷ []

abbrev pub date_says : Reformat → (before : String) → String → List Part
date_says reformat before v = raw before ∷ quoted (date_of reformat v) ∷ raw ")" ∷ []

and_true : {A : Type 0} {c : Bool} {a : A} {m : Exec Log A} → Checks (c && true) a m → Checks c a m
and_true {A} {c} {a} {m} h log = elim (h log) [
  | inl (x, e) ↦ inl (ground arith, e)
  | inr (x, r) ↦ inr (ground arith, r)
]

pub text_block-Checks :
    (before v : String)
    → Checks (is_clean v) (escape_all (text_says before v)) (text_block before v)
unfolding text_block escape_all
text_block-Checks before v = and_true (
    bind-Checks (escape v) (λ v_e. pure (raw before ∷ quoted v_e ∷ [])) (escape-Checks v)
      (pure-Checks _))

pub date_block-Checks :
    (reformat : Reformat) (before v : String)
    → PrintsPlain reformat
    → Checks
        (is_some (reformat v))
        (escape_all (date_says reformat before v))
        (date_block reformat before v)
unfolding date_block escape_all
date_block-Checks reformat before v plain = and_true (
    bind-Checks (format_dt reformat v) (λ d. pure (raw before ∷ quoted d ∷ raw ")" ∷ []))
      (format_dt-Checks reformat v plain) (pure-Checks _))

pub escape_all-append : (a b : List Part) → escape_all (a ++ b) ≡ escape_all a ++ escape_all b
unfolding escape_all
escape_all-append [] b = refl
escape_all-append (raw s ∷ a) b = ap (λ x. raw s ∷ x) (escape_all-append a b)
escape_all-append (chars t ∷ a) b = ap (λ x. chars t ∷ x) (escape_all-append a b)
escape_all-append (quoted v ∷ a) b = ap (λ x. quoted (escaped v) ∷ x) (escape_all-append a b)

escape_all_raw :
    (s : String) (ps : List Part) {qs : List Part}
    → escape_all ps ≡ qs
    → escape_all (raw s ∷ ps) ≡ raw s ∷ qs
unfolding escape_all
escape_all_raw s ps e = ap (λ x. raw s ∷ x) e

pub escape_all-join :
    (sep : String) (bs : List (List Part)) → escape_all (join sep bs) ≡ join sep (map escape_all bs)
unfolding join
escape_all-join sep [] = unfold escape_all in refl
escape_all-join sep (b ∷ []) = refl
escape_all-join sep (b ∷ c ∷ bs) =
    escape_all-append b (raw sep ∷ join sep (c ∷ bs))
    ∙ ap (λ x. escape_all b ++ x)
        (escape_all_raw sep (join sep (c ∷ bs)) (escape_all-join sep (c ∷ bs)))

pub is_plain-append :
    (a b : List Part) → is_plain a ≡ true → is_plain b ≡ true → is_plain (a ++ b) ≡ true
unfolding is_plain
is_plain-append [] b h k = k
is_plain-append (raw s ∷ a) b h k = ground (arith, is_plain-append a b)
is_plain-append (chars t ∷ a) b h k = ground (arith, is_plain-append a b)
is_plain-append (quoted v ∷ a) b h k = is_plain-append a b h k

is_plain_raw :
    (s : String) (ps : List Part)
    → has_quote (codes s) ≡ false
    → is_plain ps ≡ true
    → is_plain (raw s ∷ ps) ≡ true
unfolding is_plain
is_plain_raw s ps n h = ground arith

pub is_plain-join :
    (sep : String) (bs : List (List Part))
    → has_quote (codes sep) ≡ false
    → All (λ b. is_plain b ≡ true) bs
    → is_plain (join sep bs) ≡ true
unfolding join
is_plain-join sep [] n h = unfold is_plain in refl
is_plain-join sep (b ∷ []) n (h, k) = h
is_plain-join sep (b ∷ c ∷ bs) n (h, k) =
    is_plain-append b (raw sep ∷ join sep (c ∷ bs)) h
      (is_plain_raw sep (join sep (c ∷ bs)) n (is_plain-join sep (c ∷ bs) n k))

pub map-block_of :
    {A : Type 0} (f : A → List Part) (v : Option A)
    → map escape_all (block_of f v) ≡ block_of (λ x. escape_all (f x)) v
map-block_of f none = refl
map-block_of f (some a) = refl

-- Every block that is there is plain.
pub block_of-plain :
    {A : Type 0} (f : A → List Part) (v : Option A) (bs : List (List Part))
    → ((a : A) → is_plain (f a) ≡ true)
    → All (λ b. is_plain b ≡ true) bs
    → All (λ b. is_plain b ≡ true) (block_of f v ++ bs)
block_of-plain f none bs h k = k
block_of-plain f (some a) bs h k = (h a, k)

pub last-plain :
    {A : Type 0} (f : A → List Part) (v : Option A)
    → ((a : A) → is_plain (f a) ≡ true)
    → All (λ b. is_plain b ≡ true) (block_of f v)
last-plain f none h = tt
last-plain f (some a) h = (h a, tt)

pub map_onto :
    {A : Type 0} (f : A → List Part) (v : Option A) (bs cs : List (List Part))
    → map escape_all bs ≡ cs
    → map escape_all (block_of f v ++ bs) ≡ block_of (λ x. escape_all (f x)) v ++ cs
map_onto f none bs cs e = e
map_onto f (some a) bs cs e = ap (λ x. escape_all (f a) ∷ x) e
