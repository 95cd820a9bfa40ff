-- ===== src/Events/Grammar.antt =====
-- What the patterns of Events/Topics accept, in terms of segments and dots.
use mathlib.Core.Path.{subst}
use open_claw_bridge.Prelude.{
  ℕ, ◌≤◌, String, ◌≡◌, refl, sym, ap, ◌∙◌, ◌≢◌, ◌↔◌, ◌⊎◌, inl, inr, Bool, true, false, List, [],
  ◌∷◌, ◌++◌, append-nil, append_assoc, arith, Bool-cases, length, All,
}
use open_claw_bridge.Errors.{Result, ok, err}
use open_claw_bridge.Relay.Outbound.{codes}
use open_claw_bridge.Events.Regex.{
  Text, Regex, one_of, seq, optional, Star, stop, more, Matches, matches, matches-Matches,
}
use open_claw_bridge.Events.Topics.{
  newline, is_word, character, dotted, segment, wild_segment, publish_topic_re,
  subscribe_pattern_re, validate_publish_topic, validate_subscribe_pattern,
}

-- Each segment after a dot.
abbrev pub dots : List Text → Text
dots [] = []
dots (s ∷ rest) = 46 ∷ (s ++ dots rest)

-- Segments with dots between them.
abbrev pub joined : List Text → Text
joined [] = []
joined (s ∷ rest) = s ++ dots rest

-- The grammar: two to four segments, and at the end nothing or a newline.
pub record IsDotted (IsSegment : Text → Type 0) (s : Text) : Type 0 where
  pub segments : List Text
  pub each : All IsSegment segments
  pub at_least : 2 ≤ length segments
  pub at_most : length segments ≤ 4
  pub end : Text
  pub at_end : (end ≡ []) ⊎ (end ≡ newline ∷ [])
  pub whole : s ≡ joined segments ++ end

-- A segment: one or more word characters, or an asterisk.
abbrev pub IsWord : Text → Type 0
IsWord s = (s ≢ []) × All (λ c. is_word c ≡ true) s

abbrev pub IsWordOrStar : Text → Type 0
IsWordOrStar s = (s ≡ 42 ∷ []) ⊎ IsWord s

module _ (S : Regex) where
  abbrev next : Regex
  next = seq (character 46) S

  next-Matches : (b : Text) → Matches next b → (t : Text) × Matches S t × (b ≡ 46 ∷ t)
  next-Matches b (d, t, (x, e, f), m, g) = (t, m, ground arith)

  Matches-next : (t : Text) → Matches S t → Matches next (46 ∷ t)
  Matches-next t m = (46 ∷ [], t, (46, refl, refl), m, refl)

  end-Matches :
      (e : Text) → Matches (optional (character newline)) e → (e ≡ []) ⊎ (e ≡ newline ∷ [])
  end-Matches e (inl f) = inl f
  end-Matches e (inr (x, f, g)) = inr (ground arith)

  Matches-end :
      (e : Text) → (e ≡ []) ⊎ (e ≡ newline ∷ []) → Matches (optional (character newline)) e
  Matches-end e (inl f) = inl f
  Matches-end e (inr g) = inr (newline, refl, g)

  -- The part of the pattern behind its second segment.
  some_more :
      (c : Text)
      → Matches (optional (seq next (optional next))) c
      → (ts : List Text) × All (Matches S) ts × (length ts ≤ 2) × (c ≡ dots ts)
  some_more c (inl e) = ([], tt, omega arith, e)
  some_more c (inr (b, o, m, inl e, d)) =
      let (t, n, f) = next-Matches b m in (t ∷ [], (n, tt), omega arith, d ∙ rw (f, e) refl)
  some_more c (inr (b, o, m, inr n, d)) =
      let (t, mt, f) = next-Matches b m in
      let (u, mu, g) = next-Matches o n in
      (t ∷ u ∷ [], (mt, (mu, tt)), omega arith, d ∙ rw (f, g, append-nil u) refl)

  more_some :
      (ts : List Text)
      → All (Matches S) ts
      → length ts ≤ 2
      → Matches (optional (seq next (optional next))) (dots ts)
  more_some [] a le = inl refl
  more_some (t ∷ []) a le = inr (46 ∷ t, [], Matches-next t a.0, inl refl, refl)
  more_some (t ∷ u ∷ []) a le =
      inr (46 ∷ t, 46 ∷ u, Matches-next t a.0, inr (Matches-next u a.1.0), rw (append-nil u) refl)
  more_some (t ∷ u ∷ v ∷ ts) a le = absurd {0} (omega arith)

  dotted-IsDotted : (s : Text) → Matches (dotted S) s → IsDotted (Matches S) s
  unfolding dotted
  dotted-IsDotted s (a, r, ma, (b, q, mb, (c, e, mc, me, d3), d2), d1) =
      let (t, mt, f) = next-Matches b mb in
      let (ts, mts, le, g) = some_more c mc in
      record {
        segments = a ∷ t ∷ ts;
        each = (ma, (mt, mts));
        at_least = omega arith;
        at_most = omega arith;
        end = e;
        at_end = end-Matches e me;
        whole = d1 ∙ rw (d2, d3, f, g) (simp append_assoc);
      }

  IsDotted-dotted : (s : Text) → IsDotted (Matches S) s → Matches (dotted S) s
  unfolding dotted
  IsDotted-dotted s d = split d.segments d.each d.at_least d.at_most d.whole
    where
      split :
          (segs : List Text)
          → All (Matches S) segs
          → 2 ≤ length segs
          → length segs ≤ 4
          → s ≡ joined segs ++ d.end
          → Matches
              (seq S (
                seq next
                  (seq (optional (seq next (optional next))) (optional (character newline)))))
              s
      split [] a l m w = absurd {0} (omega arith)
      split (x ∷ []) a l m w = absurd {0} (omega arith)
      split (x ∷ t ∷ ts) a l m w = (
        x,
        46 ∷ t ++ (dots ts ++ d.end),
        a.0,
        (
          46 ∷ t,
          dots ts ++ d.end,
          Matches-next t a.1.0,
          (dots ts, d.end, more_some ts a.1.1 (omega arith), Matches-end d.end d.at_end, refl),
          refl,
        ),
        w ∙ simp append_assoc,
      )

Star-All : (f : ℕ → Bool) (s : Text) → Star (Matches (one_of f)) s → All (λ c. f c ≡ true) s
Star-All f s (stop e) = rw e tt
Star-All f s (more a b (x, t, g) m e) =
    subst (All (λ c. f c ≡ true)) (sym (e ∙ ap (λ l. l ++ b) g)) (t, Star-All f b m)

All-Star : (f : ℕ → Bool) (s : Text) → All (λ c. f c ≡ true) s → Star (Matches (one_of f)) s
All-Star f [] a = stop refl
All-Star f (c ∷ s) a = more (c ∷ []) s (c, a.0, refl) (All-Star f s a.1) refl

segment_lem : (s : Text) → Matches segment s ↔ IsWord s
segment_lem s = (to s, from s)
  where
    to : (s : Text) → Matches segment s → IsWord s
    to s (a, b, (x, t, g), m, e) = (
      λ z. cc (sym z ∙ e, g),
      subst (All (λ c. is_word c ≡ true)) (sym (e ∙ ap (λ l. l ++ b) g)) (t, Star-All is_word b m),
    )

    from : (s : Text) → IsWord s → Matches segment s
    from [] w = absurd {0} (w.0 refl)
    from (c ∷ s) w = (c ∷ [], s, (c, w.1.0, refl), All-Star is_word s w.1.1, refl)

wild_segment_lem : (s : Text) → Matches wild_segment s ↔ IsWordOrStar s
wild_segment_lem s = (to, from)
  where
    to : Matches wild_segment s → IsWordOrStar s
    to (inl (x, t, e)) = inl (ground arith)
    to (inr m) = inr ((segment_lem s).0 m)

    from : IsWordOrStar s → Matches wild_segment s
    from (inl e) = inl (42, refl, e)
    from (inr w) = inr ((segment_lem s).1 w)

All-imp : {P Q : Text → Type 0} (f : (s : Text) → P s → Q s) (ss : List Text) → All P ss → All Q ss
All-imp f [] a = tt
All-imp f (s ∷ ss) a = (f s a.0, All-imp f ss a.1)

IsDotted-imp :
    {P Q : Text → Type 0} (f : (s : Text) → P s → Q s) {s : Text} → IsDotted P s → IsDotted Q s
IsDotted-imp f d = record {
  segments = d.segments;
  each = All-imp f d.segments d.each;
  at_least = d.at_least;
  at_most = d.at_most;
  end = d.end;
  at_end = d.at_end;
  whole = d.whole;
}

-- Whether a validator returns.
abbrev pub accepts : Result (Unit {0}) → Bool
accepts (ok t) = true
accepts (err e) = false

accepts-publish :
    (t : String) → accepts (validate_publish_topic t) ≡ matches publish_topic_re (codes t)
unfolding validate_publish_topic
accepts-publish t = ground arith

accepts-subscribe :
    (t : String) → accepts (validate_subscribe_pattern t) ≡ matches subscribe_pattern_re (codes t)
unfolding validate_subscribe_pattern
accepts-subscribe t = ground arith

-- A topic may be published exactly if it is two to four segments of lower-case letters, digits and
-- underscores between dots, and subscribed to exactly if it is the same with an asterisk for any of the
-- segments; in both cases a newline may stand behind it. So each topic that may be published may be
-- subscribed to.
pub validate_lem :
    (t : String)
    → ((accepts (validate_publish_topic t) ≡ true) ↔ IsDotted IsWord (codes t))
      × ((accepts (validate_subscribe_pattern t) ≡ true) ↔ IsDotted IsWordOrStar (codes t))
      × ((accepts (validate_publish_topic t) ≡ false)
          ⊎ (accepts (validate_subscribe_pattern t) ≡ true))
unfolding publish_topic_re subscribe_pattern_re
validate_lem t = (publish, subscribe, both)
  where
    publish : (accepts (validate_publish_topic t) ≡ true) ↔ IsDotted IsWord (codes t)
    publish = rw (accepts-publish t) (
      λ e.
          IsDotted-imp (λ s. (segment_lem s).0)
            (dotted-IsDotted segment (codes t) ((matches-Matches publish_topic_re (codes t)).0 e)),
      λ d.
          (matches-Matches publish_topic_re (codes t)).1
            (IsDotted-dotted segment (codes t) (IsDotted-imp (λ s. (segment_lem s).1) d)),
    )

    subscribe : (accepts (validate_subscribe_pattern t) ≡ true) ↔ IsDotted IsWordOrStar (codes t)
    subscribe = rw (accepts-subscribe t) (
      λ e.
          IsDotted-imp (λ s. (wild_segment_lem s).0)
            (dotted-IsDotted wild_segment (codes t)
              ((matches-Matches subscribe_pattern_re (codes t)).0 e)),
      λ d.
          (matches-Matches subscribe_pattern_re (codes t)).1
            (IsDotted-dotted wild_segment (codes t) (IsDotted-imp (λ s. (wild_segment_lem s).1) d)),
    )

    both :
        (accepts (validate_publish_topic t) ≡ false)
        ⊎ (accepts (validate_subscribe_pattern t) ≡ true)
    both = elim (Bool-cases (accepts (validate_publish_topic t))) [
      | inr e ↦ inl e
      | inl e ↦ inr (subscribe.1 (IsDotted-imp (λ s w. inr w) (publish.0 e)))
    ]
