-- ===== src/Topics/Names.antt =====
-- The names of the changelogs.
use ksqlite.Prelude.{
  ℕ, ◌≤◌, ◌≡◌, ◌≢◌, ◌↔◌, ◌⊎◌, inl, inr, refl, sym, ◌∙◌, Bool, true, false, not, ◌||◌, [], ◌∷◌,
  arith, Each, length, all_of, if◌then◌else◌, &&-eq-true, Bool-cases,
}
use mathlib.Core.Path.{subst}
use ksqlite.Errors.{Result, ok, err, config_error, ok_injective, parts_of-ok}
use ksqlite.Text.{Text, codes, text_eq, text_eq_iff, text_in}
use ksqlite.Types.{TopicPartition}
use ksqlite.World.{Env}
use ksqlite.Topics.{TopicsConfig, changelog_name}
use ksqlite.Sql.{is_topic_char, is_topic_text, validate_topic_name}

-- A letter, a digit, a full stop, an underscore or a hyphen, of ASCII.
abbrev pub IsTopicChar : ℕ → Type 0
IsTopicChar c =
    ((b'A' ≤ c) × (c ≤ b'Z'))
    ⊎ ((b'a' ≤ c) × (c ≤ b'z'))
    ⊎ ((b'0' ≤ c) × (c ≤ b'9'))
    ⊎ (c ≡ b'.')
    ⊎ (c ≡ b'_')
    ⊎ (c ≡ b'-')

-- What Kafka accepts.
abbrev pub IsTopicName : Text → Type 0
IsTopicName name =
    (1 ≤ length name)
    × (length name ≤ 249)
    × Each IsTopicChar name
    × (name ≢ codes ".")
    × (name ≢ codes "..")

is_topic_char_iff : (c : ℕ) → (is_topic_char c ≡ true) ↔ IsTopicChar c
is_topic_char_iff c = (λ h. ground (arith, h), λ h. ground (arith, h))

chars_iff : (s : Text) → (all_of is_topic_char s ≡ true) ↔ Each IsTopicChar s
chars_iff [] = (λ h. tt, λ h. refl)
chars_iff (c ∷ s) = (
  λ h.
      let (first, rest) = &&-eq-true _ _ h in ((is_topic_char_iff c).0 first, (chars_iff s).0 rest),
  λ (first, rest). rw ((is_topic_char_iff c).1 first) ((chars_iff s).1 rest),
)

is_topic_text_iff : (s : Text) → (is_topic_text s ≡ true) ↔ ((1 ≤ length s) × Each IsTopicChar s)
unfolding is_topic_text
is_topic_text_iff [] = (λ h. cc h, λ (some_left, rest). absurd (omega (arith, some_left)))
is_topic_text_iff (c ∷ s) =
    (λ h. (omega arith, (chars_iff (c ∷ s)).0 h), λ (some_left, rest). (chars_iff (c ∷ s)).1 rest)

abbrev passes : Bool → Bool → Bool → Result (Unit {0})
passes a b c = if a || b || not c then err config_error else ok tt

passes_iff : (a b c : Bool) → (passes a b c ≡ ok tt) ↔ ((a ≡ false) × (b ≡ false) × (c ≡ true))
passes_iff false false true = (λ h. (refl, refl, refl), λ h. refl)
passes_iff true b c = (λ h. cc h, λ (x, y, z). cc x)
passes_iff false true c = (λ h. cc h, λ (x, y, z). cc y)
passes_iff false false false = (λ h. cc h, λ (x, y, z). cc z)

dots_iff :
    (s : Text)
    → (text_in s (codes "." ∷ codes ".." ∷ []) ≡ false) ↔ ((s ≢ codes ".") × (s ≢ codes ".."))
unfolding text_in
dots_iff s = (
  λ h. (
    (λ e. ground (arith, h, (text_eq_iff (codes ".") s).1 (sym e))),
    λ e. ground (arith, h, (text_eq_iff (codes "..") s).1 (sym e)),
  ),
  λ (one, two). ground (arith, unlike (codes ".") one, unlike (codes "..") two),
)
  where
    unlike : (t : Text) → s ≢ t → text_eq t s ≡ false
    unlike t other = elim (Bool-cases (text_eq t s)) [
      | inl e ↦ absurd (other (sym ((text_eq_iff t s).0 e)))
      | inr e ↦ e
    ]

validate_topic_name_iff : (s : Text) → (validate_topic_name s ≡ ok tt) ↔ IsTopicName s
unfolding validate_topic_name
validate_topic_name_iff s = (
  λ h.
      let (a, b, c) = (passes_iff _ _ _).0 h in
      let (some_left, chars) = (is_topic_text_iff s).0 c in
      let (not_one, not_two) = (dots_iff s).0 a in
      (some_left, ground (arith, b), chars, not_one, not_two),
  λ (some_left, short, chars, not_one, not_two). (passes_iff _ _ _).1 (
    (dots_iff s).1 (not_one, not_two),
    ground (arith, short),
    (is_topic_text_iff s).1 (some_left, chars),
  ),
)

-- The name of a partition's changelog is what the template gives, and it is returned exactly if it is
-- a name that Kafka accepts: 1 to 249 ASCII letters, digits and `._-`, and neither `.` nor `..`.
pub changelog_name_iff :
    (env : Env) (cfg : TopicsConfig) (source : TopicPartition) (name : Text)
    → (changelog_name env cfg source ≡ ok name)
      ↔ ((env.format cfg.template source.topic source.partition ≡ ok name) × IsTopicName name)
unfolding changelog_name
changelog_name_iff env cfg source name = (
  λ h.
      let (n, formatted, rest) =
        parts_of-ok (env.format cfg.template source.topic source.partition) _ h in
      let (u, valid, returned) = parts_of-ok (validate_topic_name n) _ rest in
      (
        formatted ∙ returned,
        (validate_topic_name_iff name).0
            (subst (λ t. validate_topic_name t ≡ ok tt) (ok_injective returned) valid),
      ),
  λ (formatted, legal). rw (formatted, (validate_topic_name_iff name).1 legal, changelog_name) refl,
)
