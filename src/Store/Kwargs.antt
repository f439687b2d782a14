-- ===== src/Store/Kwargs.antt =====
-- What the Kafka clients are made with.
use ksqlite.Prelude.{◌≡◌, refl, ap, ◌∙◌, Option, none, some, [], ◌∷◌, arith, if◌then◌else◌}
use ksqlite.Text.{Text, codes, text_eq, text_eq_iff}
use ksqlite.Store.{Value, Kwargs, find, put, update, pinned_consumer_keys, merged_consumer_kwargs}

pub find-put :
    (key k : Text) (v : Value) (d : Kwargs)
    → find key (put k v d) ≡ (if text_eq k key then some v else find key d)
unfolding find put
find-put key k v [] = refl
find-put key k v ((j, u) ∷ d) =
    ground (arith, find-put key k v d, text_eq_iff j k, text_eq_iff j key, text_eq_iff k key)

-- A key that is not pinned is taken from the user's configuration, where it is there.
abbrev pub or_else : Option Value → Option Value → Option Value
or_else none v = v
or_else (some u) v = some u

-- The last value of a key in a list of updates.
unfoldable pub find_last : Text → Kwargs → Option Value
find_last key [] = none
find_last key ((k, v) ∷ e) = or_else (find_last key e) (if text_eq k key then some v else none)

pub find-update :
    (key : Text) (d e : Kwargs) → find key (update d e) ≡ or_else (find_last key e) (find key d)
unfolding update find_last
find-update key d [] = refl
find-update key d ((k, v) ∷ e) = ground (arith, find-update key (put k v d) e, find-put key k v d)

-- The rehydrate consumer: whatever the user configures, the three pinned keys have their pinned
-- values; every other key has the configured value, or the default where none is configured.
pub find-merged_consumer_kwargs :
    (key : Text) (servers : Value) (config : Kwargs)
    → find key (merged_consumer_kwargs servers config)
      ≡ or_else (find_last key pinned_consumer_keys) (
          or_else
            (find_last key config)
            (if text_eq (codes "bootstrap_servers") key then some servers else none))
unfolding merged_consumer_kwargs find
find-merged_consumer_kwargs key servers config =
    let defaults = (codes "bootstrap_servers", servers) ∷ [] in
    find-update key (update defaults config) pinned_consumer_keys
    ∙ ap (or_else (find_last key pinned_consumer_keys)) (find-update key defaults config)
