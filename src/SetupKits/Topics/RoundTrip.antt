-- ===== src/SetupKits/Topics/RoundTrip.antt =====
-- A text of topics, written by serializeTopicText and read by parseTopicText, of
-- cloudflare/public/setup-kits.js.
use non_stop_talk.Prelude.{
  ◌≡◌, ◌<◌, refl, ap, ◌∙◌, false, List, [], ◌∷◌, ◌++◌, length, arith, All, All-append, ◌==◌,
}
use non_stop_talk.Text.{Text}
use non_stop_talk.Js.{Js, str, Builtins}
use non_stop_talk.SetupKits.{Result, ok, fail}
use non_stop_talk.SetupKits.Topics.{
  has_line_break, normalize_topic_array, collect, join_lines, assert_topic_text_length,
  unify_breaks, split_from, split_lines, parse_topic_text, serialize_topic_text,
}
use non_stop_talk.SetupKits.Topics.Again.{IsAccepted, normalize_topic_array-IsAccepted}

NoReturn : Text → Type 0
NoReturn s = All (λ c. (c == 13) ≡ false) s

line-NoReturn : (t : Text) → has_line_break t ≡ false → NoReturn t
unfolding has_line_break NoReturn
line-NoReturn [] h = tt
line-NoReturn (c ∷ s) h = (ground arith, line-NoReturn s (ground arith))

join-NoReturn : (ts : List Text) → All (λ t. has_line_break t ≡ false) ts → NoReturn (join_lines ts)
unfolding join_lines NoReturn
join-NoReturn [] h = tt
join-NoReturn (t ∷ []) h = line-NoReturn t h.0
join-NoReturn (t ∷ u ∷ us) h =
    All-append _ t _ (line-NoReturn t h.0) (refl, join-NoReturn (u ∷ us) h.1)

unify_none : (s : Text) → NoReturn s → unify_breaks s ≡ s
unfolding unify_breaks NoReturn
unify_none [] h = refl
unify_none (c ∷ []) h = ground (arith, h.0)
unify_none (c ∷ d ∷ s) h = rw h.0 (ap (λ l. c ∷ l) (unify_none (d ∷ s) h.1))

split_line : (t : Text) → has_line_break t ≡ false → split_from t ≡ (t, [])
unfolding split_from has_line_break
split_line [] h = refl
split_line (c ∷ s) h = ground (arith, h, split_line s)

split_first :
    (t s : Text)
    → has_line_break t ≡ false
    → split_from (t ++ 10 ∷ s) ≡ (t, (split_from s).0 ∷ (split_from s).1)
unfolding split_from has_line_break
split_first [] s h = refl
split_first (c ∷ t) s h = ground (arith, h, split_first t s)

-- Splitting undoes joining, for lines without breaks.
split_join :
    (t : Text) (ts : List Text)
    → All (λ u. has_line_break u ≡ false) (t ∷ ts)
    → split_from (join_lines (t ∷ ts)) ≡ (t, ts)
unfolding join_lines
split_join t [] h = split_line t h.0
split_join t (u ∷ us) h =
    split_first t (join_lines (u ∷ us)) h.0
    ∙ ap (λ (p : Text × List Text). (t, p.0 ∷ p.1)) (split_join u us h.1)

split_lines_join :
    (ts : List Text)
    → 0 < length ts
    → All (λ u. has_line_break u ≡ false) ts
    → split_lines (unify_breaks (join_lines ts)) ≡ ts
unfolding split_lines
split_lines_join [] p h = absurd (ground arith)
split_lines_join (t ∷ ts) p h = rw (unify_none _ (join-NoReturn (t ∷ ts) h), split_join t ts h) refl

lines_of_accepted :
    (js : Builtins) (out : List Text) → IsAccepted js out → All (λ u. has_line_break u ≡ false) out
lines_of_accepted js out h = rw h.found.result h.found.lines

parsed_back :
    (js : Builtins) (out : List Text)
    → IsAccepted js out
    → parse_topic_text js (str (join_lines out)) ≡ ok out
unfolding parse_topic_text assert_topic_text_length
parsed_back js out h =
    rw (split_lines_join out h.some_topic (lines_of_accepted js out h), collect_all)
      (ground (arith, h.some_topic, h.fits))
  where
    collect_all : collect js [] [] out ≡ ok out
    collect_all = ap (collect js [] []) h.found.result ∙ h.found.collected h.few

-- Whatever array of topics serializeTopicText accepts, parseTopicText reads its text back as exactly
-- the topics that normalizeTopicArray made of the array: none is lost, merged or changed, and no
-- limit is met on the way back.
pub parse_topic_text-serialize :
    (js : Builtins) (v : Js) (s : Text)
    → serialize_topic_text js v ≡ ok s
    → parse_topic_text js (str s) ≡ normalize_topic_array js v
unfolding serialize_topic_text
parse_topic_text-serialize js v s h = go (normalize_topic_array js v) refl
  where
    go :
        (o : Result (List Text))
        → normalize_topic_array js v ≡ o
        → parse_topic_text js (str s) ≡ normalize_topic_array js v
    go (ok out) e =
        let written : s ≡ join_lines out = ground (arith, e) in
        rw (e, written) (parsed_back js out (normalize_topic_array-IsAccepted js v out e))
    go (fail c) e = absurd (ground (arith, e))
