-- ===== src/Events/Topics.antt =====
-- The validators of bridge/src/bridge/eventbus/subscriber.py and their patterns.
use open_claw_bridge.Prelude.{ℕ, String, Bool, ◌&&◌, ◌||◌, [], ◌∷◌, leb, ◌==◌, if◌then◌else◌}
use open_claw_bridge.Errors.{Result, ok, err, text, error, bad_request}
use open_claw_bridge.Relay.Outbound.{codes}
use open_claw_bridge.Events.Regex.{Regex, one_of, seq, alt, plus, optional, matches}

abbrev pub newline : ℕ
newline = 10

-- `[a-z0-9_]`
abbrev pub is_word : ℕ → Bool
is_word c = leb 97 c && leb c 122 || leb 48 c && leb c 57 || c == 95

abbrev pub character : ℕ → Regex
character c = one_of (λ d. d == c)

-- `^S(?:\.S){1,3}$`, where `$` also matches before a newline at the end.
unfoldable pub dotted : Regex → Regex
dotted s =
    let next = seq (character 46) s in
    seq s (seq next (seq (optional (seq next (optional next))) (optional (character newline))))

-- `[a-z0-9_]+`, and the same or `*`.
abbrev pub segment : Regex
segment = plus (one_of is_word)

abbrev pub wild_segment : Regex
wild_segment = alt (character 42) segment

-- `_PUBLISH_TOPIC_RE`
unfoldable pub publish_topic_re : Regex
unfolding dotted
publish_topic_re = dotted segment

-- `_SUBSCRIBE_PATTERN_RE`
unfoldable pub subscribe_pattern_re : Regex
unfolding dotted
subscribe_pattern_re = dotted wild_segment

unfoldable pub validate_publish_topic : String → Result (Unit {0})
unfolding publish_topic_re matches
validate_publish_topic topic =
    if matches publish_topic_re (codes topic)
    then ok tt
    else err (
        error bad_request "Topic must be 2–4 lowercase dot-separated segments."
          (("topic", text topic) ∷ []))

unfoldable pub validate_subscribe_pattern : String → Result (Unit {0})
unfolding subscribe_pattern_re matches
validate_subscribe_pattern pattern =
    if matches subscribe_pattern_re (codes pattern)
    then ok tt
    else err (
        error bad_request
          "Subscribe pattern must be 2–4 lowercase dot-separated segments (use `*` as a single-segment wildcard)."
          (("topic", text pattern) ∷ []))
