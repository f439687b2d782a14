-- ===== src/Topics/Cache.antt =====
-- Step 0 of an assignment: what is cached, and what a success means.
use ksqlite.Prelude.{ℕ, ◌≡◌, true, List, ◌⊎◌}
use ksqlite.Prelude.Int.{ℤ}
use ksqlite.Errors.{Result, ok, err}
use ksqlite.Text.{Text, text_in}
use ksqlite.Types.{TopicPartition}
use ksqlite.World.{Env, World, ErrorCode, ◌>>◌}
use ksqlite.World.Related.{Related}
use ksqlite.Topics.{TopicsConfig, changelog_name, creation_outcome, is_checked}

-- Nothing has changed but the number of calls.
abbrev Asked : World → World → Type 0
Asked w w' = (k : ℕ) × (w' ≡ record w { calls = k })

-- The broker has answered that the topic is there, or has created it.
abbrev pub Present : Env → Text → Type 0
Present env name =
    ((n : ℕ) × (names : List Text) × (env.list_topics n ≡ ok names) × (text_in name names ≡ true))
    ⊎ ((n : ℕ) × (retention : ℤ) × (codes : List ErrorCode) × (env.create_topics n name retention
          ≡ ok codes)
        × (creation_outcome codes ≡ ok tt))

-- The cache after step 0, by its result.
abbrev pub Cached :
    Env
    → TopicsConfig
    → TopicPartition
    → List TopicPartition
    → Result Text
    → List TopicPartition
    → Type 0
Cached env cfg source before (err e) after = after ≡ before
Cached env cfg source before (ok name) after =
    (changelog_name env cfg source ≡ ok name)
    × (is_checked source after ≡ true)
    × ((is_checked source before ≡ true) ⊎ Present env name)

abbrev pub Ensured : Env → TopicsConfig → TopicPartition → World → Result Text × World → Type 0
Ensured env cfg source w (r, w') =
    (k : ℕ) × (c : List TopicPartition) × (w' ≡ record w { checked = c; calls = k })
    × (is_checked source w.checked ≡ true → k ≡ w.calls)
    × Cached env cfg source w.checked r c
