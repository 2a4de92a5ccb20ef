-- ===== src/Topics/Outcome.antt =====
-- The broker's verdicts on the filters.
use ha_eisenberg.Common.{ℕ, ◌+◌, ◌≡◌, ◌∙◌, [], ◌∷◌, List, String, not, arith, length, min, keep_if}
use ha_eisenberg.Topics.{TopicResult, granted_count, refused_count, topic_results}

counts :
    (rs : List TopicResult)
    → length (keep_if (λ r. r.granted) rs) + length (keep_if (λ r. not r.granted) rs) ≡ length rs
counts [] = omega arith
counts (r ∷ rs) = ground (arith, counts rs)

length-topic_results :
    (topics : List String) (codes : List ℕ)
    → length (topic_results topics codes) ≡ min (length topics) (length codes)
unfolding topic_results
length-topic_results [] codes = omega arith
length-topic_results (t ∷ topics) [] = omega arith
length-topic_results (t ∷ topics) (c ∷ codes) = omega (arith, length-topic_results topics codes)

-- Every filter that the broker answered is counted once, as granted or as refused.
pub granted_count-add-refused_count :
    (topics : List String) (codes : List ℕ)
    → granted_count (record { results = topic_results topics codes })
        + refused_count (record { results = topic_results topics codes })
      ≡ min (length topics) (length codes)
unfolding granted_count refused_count
granted_count-add-refused_count topics codes =
    counts (topic_results topics codes) ∙ length-topic_results topics codes
