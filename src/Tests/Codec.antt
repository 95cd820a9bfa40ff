-- ===== src/Tests/Codec.antt =====
-- A concrete text for a list of headers, which reads back as it was written.
use Prim.Native.Char.{Char, char, code}
use open_claw_bridge.Prelude.{String, ◌≡◌, refl, ap, ◌∙◌, List, [], ◌∷◌, ◌==◌, if◌then◌else◌}
use open_claw_bridge.Asgi.{Header}

abbrev stop : Char
stop = char 48 tt

abbrev more : Char
more = char 49 tt

-- Each character behind a `1`, and a `0` at the end.
abbrev write : String → String → String
write String.[] rest = String.◌∷◌ stop rest
write (String.◌∷◌ c s) rest = String.◌∷◌ more (String.◌∷◌ c (write s rest))

abbrev on_head : Char → List String → List String
on_head c [] = String.◌∷◌ c String.[] ∷ []
on_head c (s ∷ ss) = String.◌∷◌ c s ∷ ss

abbrev read : String → List String
read String.[] = []
read (String.◌∷◌ m String.[]) = "" ∷ []
read (String.◌∷◌ m (String.◌∷◌ c s)) =
    let next = read (String.◌∷◌ c s) in
    let rest = read s in if code m == 48 then "" ∷ next else on_head c rest

abbrev pairs : List String → List Header
pairs [] = []
pairs (n ∷ []) = []
pairs (n ∷ v ∷ rest) = (n, v) ∷ pairs rest

abbrev pub dumps : List Header → String
dumps [] = ""
dumps ((n, v) ∷ hs) = write n (write v (dumps hs))

abbrev pub loads : String → List Header
loads s = pairs (read s)

read-stop : (rest : String) → read (String.◌∷◌ stop rest) ≡ "" ∷ read rest
read-stop String.[] = refl
read-stop (String.◌∷◌ c s) = refl

read-write : (s rest : String) → read (write s rest) ≡ s ∷ read rest
read-write String.[] rest = read-stop rest
read-write (String.◌∷◌ c s) rest = ap (on_head c) (read-write s rest)

pub loads-dumps : (hs : List Header) → loads (dumps hs) ≡ hs
loads-dumps [] = refl
loads-dumps ((n, v) ∷ hs) =
    ap pairs (
      read-write n (write v (dumps hs)) ∙ ap (λ (l : List String). n ∷ l) (read-write v (dumps hs)))
    ∙ ap (λ (l : List Header). (n, v) ∷ l) (loads-dumps hs)
