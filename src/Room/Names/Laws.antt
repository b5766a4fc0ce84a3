-- ===== src/Room/Names/Laws.antt =====
-- What cleaning does to names and topics.
use non_stop_talk.Prelude.{
  ℕ, ◌≤◌, ◌<◌, ◌≡◌, ◌≢◌, ap, true, false, ◌||◌, List, [], ◌∷◌, ◌++◌, arith, length, take, All,
  length-take, length-append, take_all, All-take, All-append, All-imp, Bool-cases, inl, inr, ◌==◌,
  ==_iff,
}
use non_stop_talk.Text.{Text, is_empty, to_well_formed, trim_game_space}
use non_stop_talk.Text.Laws.{
  IsTrimmed, IsWellFormed, trim-IsTrimmed, trim_of_IsTrimmed, length-trim, trim-All,
  to_well_formed-IsWellFormed, to_well_formed_of_IsWellFormed, same_text_refl,
}
use non_stop_talk.Js.{Builtins}
use non_stop_talk.Room.{contains_text}
use non_stop_talk.Room.Names.{
  clean_text, clean_from, clean_topics, max_topics, max_topic_code_points,
}

pub record IsClean (maximum : ℕ) (s : Text) : Type 0 where
  pub trimmed : IsTrimmed s
  pub well_formed : IsWellFormed s
  pub fits : length s ≤ maximum

-- A cleaned text has no white space at its ends and no lone surrogate, and is within its maximum.
pub clean_text-IsClean : (maximum : ℕ) (s : Text) → IsClean maximum (clean_text maximum s)
unfolding clean_text
clean_text-IsClean maximum s = record {
  trimmed = trim-IsTrimmed _;
  well_formed = trim-All _ _ (All-take _ maximum _ (to_well_formed-IsWellFormed _));
  fits = omega (
    arith,
    length-trim (take maximum (to_well_formed (trim_game_space s))),
    length-take maximum (to_well_formed (trim_game_space s)),
  );
}

clean_text_of_IsClean : (maximum : ℕ) (s : Text) → IsClean maximum s → clean_text maximum s ≡ s
unfolding clean_text
clean_text_of_IsClean maximum s h =
    rw
      (
        trim_of_IsTrimmed s h.trimmed,
        to_well_formed_of_IsWellFormed s h.well_formed,
        take_all maximum s h.fits,
      )
      (trim_of_IsTrimmed s h.trimmed)

-- Cleaning a text a second time changes nothing.
pub clean_text_idem :
    (maximum : ℕ) (s : Text) → clean_text maximum (clean_text maximum s) ≡ clean_text maximum s
clean_text_idem maximum s = clean_text_of_IsClean maximum _ (clean_text-IsClean maximum s)

abbrev pub IsCleanTopic : Text → Type 0
IsCleanTopic t = IsClean max_topic_code_points t × (is_empty t ≡ false)

module _ (js : Builtins) where
  -- No two topics have one key.
  abbrev pub KeysDiffer : List Text → Type 0
  KeysDiffer [] = Unit
  KeysDiffer (t ∷ ts) = All (λ u. js.to_lower u ≢ js.to_lower t) ts × KeysDiffer ts

  abbrev Seen : List Text → List Text → Type 0
  Seen seen ts = All (λ t. contains_text (js.to_lower t) seen ≡ true) ts

  KeysDiffer-push :
      (ts : List Text) (t : Text)
      → KeysDiffer ts
      → All (λ u. js.to_lower t ≢ js.to_lower u) ts
      → KeysDiffer (ts ++ t ∷ [])
  KeysDiffer-push [] t h k = (tt, tt)
  KeysDiffer-push (u ∷ us) t h k =
      (All-append _ us (t ∷ []) h.0 (k.0, tt), KeysDiffer-push us t h.1 k.1)

  fresh_key :
      (seen : List Text) (t : Text) (ts : List Text)
      → contains_text (js.to_lower t) seen ≡ false
      → Seen seen ts
      → All (λ u. js.to_lower t ≢ js.to_lower u) ts
  fresh_key seen t ts h =
      All-imp _ _ ts λ u there same. cc (h, there, ap (λ k. contains_text k seen) same)

  Seen-more : (key : Text) (seen ts : List Text) → Seen seen ts → Seen (key ∷ seen) ts
  Seen-more key seen ts = All-imp _ _ ts λ t h. ground (arith, h)

  -- The list that cleanTopics returns.
  abbrev pub IsTopicList : List Text → Type 0
  IsTopicList ts = All IsCleanTopic ts × KeysDiffer ts × (length ts ≤ max_topics)

  clean_from-IsTopicList :
      (topics seen values : List Text)
      → All IsCleanTopic topics
      → KeysDiffer topics
      → Seen seen topics
      → length topics < max_topics
      → IsTopicList (clean_from js topics seen values)
  unfolding clean_from
  clean_from-IsTopicList topics seen [] clean differ seen_all few = (clean, differ, omega arith)
  clean_from-IsTopicList topics seen (value ∷ values) clean differ seen_all few =
      elim (Bool-cases (is_empty topic || contains_text key seen)) [
        | inl skip ↦ rw skip (clean_from-IsTopicList topics seen values clean differ seen_all few)
        | inr new ↦ elim (Bool-cases (length (topics ++ topic ∷ []) == max_topics)) [
          | inl full ↦ rw (new, full) (clean' new, differ' new, omega (arith, (==_iff _ _).0 full))
          | inr room ↦
              rw (new, room)
                (clean_from-IsTopicList (topics ++ topic ∷ []) (key ∷ seen) values (clean' new)
                  (differ' new)
                  (All-append _ topics (topic ∷ []) (Seen-more key seen topics seen_all)
                    (ground (arith, same_text_refl key), tt))
                  (ground (arith, few, length-append topics (topic ∷ []))))
        ]
      ]
    where
      topic : Text
      topic = clean_text max_topic_code_points value

      key : Text
      key = js.to_lower topic

      clean' :
          (is_empty topic || contains_text key seen) ≡ false
          → All IsCleanTopic (topics ++ topic ∷ [])
      clean' new =
          All-append _ topics (topic ∷ []) clean
            ((clean_text-IsClean max_topic_code_points value, ground (arith, new)), tt)

      differ' :
          (is_empty topic || contains_text key seen) ≡ false → KeysDiffer (topics ++ topic ∷ [])
      differ' new =
          KeysDiffer-push topics topic differ
            (fresh_key seen topic topics (ground (arith, new)) seen_all)

  -- The topics that cleanTopics keeps are clean and not empty, no two of them have one key, and there
  -- are 500 at most.
  pub clean_topics-IsTopicList : (values : List Text) → IsTopicList (clean_topics js values)
  unfolding clean_topics
  clean_topics-IsTopicList values = clean_from-IsTopicList [] [] values tt tt tt (omega arith)
