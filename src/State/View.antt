-- ===== src/State/View.antt =====
-- _state.py, class PartitionStateMachine: what `partition_states` lists after any calls of its methods.
use ksqlite.Prelude.{
  ◌≡◌, refl, sym, ap, ◌∙◌, Bool, true, false, ◌||◌, Option, none, some, List, [], ◌∷◌, ◌++◌, map,
  arith, if◌then◌else◌, Bool-cases, inl, inr, any_of, any_of-append,
}
use ksqlite.Prelude.Int.{ℤ, ltb_ℤ}
use ksqlite.Types.{
  TopicPartition, tp_eq, tp_eq_iff, tp_eq_refl, PartitionStatus, restoring, ready, ready_partial,
  standby,
}
use ksqlite.State.{
  Entry, Machine, init, new_entry, change, apply_offset, mark_restoring, mark_ready,
  mark_ready_partial, mark_revoked, record_applied, record_clamped, record_log_end, snapshot,
  partition_states,
}
use ksqlite.State.Laws.{merged}

-- A call of one of the methods that change an entry.
pub data Method : Type 0 where
  restored readied left_partial dropped : Method
  applied clamped ended_at : ℤ → Method

abbrev pub run_method : Method → TopicPartition → Machine → Machine
run_method restored = mark_restoring
run_method readied = mark_ready
run_method left_partial = mark_ready_partial
run_method dropped = mark_revoked
run_method (applied o) = λ tp. record_applied tp o
run_method (clamped o) = λ tp. record_clamped tp o
run_method (ended_at leo) = λ tp. record_log_end tp leo

abbrev pub run_methods : List (TopicPartition × Method) → Machine → Machine
run_methods [] m = m
run_methods ((tp, c) ∷ cs) m = run_methods cs (run_method c tp m)

-- What a method is to make of the entry of its partition.
abbrev pub meant : Method → Entry → Entry
meant restored e = record e { status = restoring }
meant readied e = record e { status = ready }
meant left_partial e = record e { status = ready_partial }
meant dropped e = record e { status = standby }
meant (applied o) e = record e { checkpoint_offset = some (merged e.checkpoint_offset o) }
meant (clamped o) e = record e { checkpoint_offset = some o }
meant (ended_at leo) e = record e { log_end_offset = some leo }

-- The entries as a function, and the change of one.
abbrev update : TopicPartition → (Entry → Entry) → (TopicPartition → Entry) → TopicPartition → Entry
update tp f g q = if tp_eq tp q then f (g q) else g q

abbrev told_from :
    List (TopicPartition × Method) → (TopicPartition → Entry) → TopicPartition → Entry
told_from [] g = g
told_from ((tp, c) ∷ cs) g = told_from cs (update tp (meant c) g)

-- What the calls for a partition, in their order, make of a new entry.
abbrev pub told : List (TopicPartition × Method) → TopicPartition → Entry
told cs = told_from cs (λ q. new_entry)

abbrev listed : TopicPartition → List TopicPartition → Bool
listed tp ks = any_of (λ q. tp_eq q tp) ks

abbrev note : TopicPartition → List TopicPartition → List TopicPartition
note tp ks = if listed tp ks then ks else ks ++ tp ∷ []

abbrev seen_from : List (TopicPartition × Method) → List TopicPartition → List TopicPartition
seen_from [] ks = ks
seen_from ((tp, c) ∷ cs) ks = seen_from cs (note tp ks)

-- The partitions of the calls, each once, in the order in which they come up.
abbrev pub seen : List (TopicPartition × Method) → List TopicPartition
seen cs = seen_from cs []

abbrev Distinct : List TopicPartition → Type 0
Distinct [] = Unit
Distinct (k ∷ ks) = (listed k ks ≡ false) × Distinct ks

-- The dict with these keys and entries.
abbrev table : List TopicPartition → (TopicPartition → Entry) → Machine
table ks g = map (λ q. (q, g q)) ks

module _ (tp : TopicPartition) (f : Entry → Entry) (g : TopicPartition → Entry) where
  -- A change at a partition that is not among the keys is not seen.
  table-update :
      (ks : List TopicPartition) → listed tp ks ≡ false → table ks (update tp f g) ≡ table ks g
  table-update [] h = refl
  table-update (k ∷ ks) h = ground (arith, table-update ks, tp_eq_iff k tp, tp_eq_iff tp k)

  changed_present :
      (ks : List TopicPartition)
      → Distinct ks
      → listed tp ks ≡ true
      → change tp f (table ks g) ≡ table ks (update tp f g)
  unfolding change
  changed_present [] d h = ground arith
  changed_present (k ∷ ks) (new, d) h = elim (Bool-cases (tp_eq k tp)) [
    | inl same ↦ ground (arith, table-update ks, tp_eq_iff k tp, tp_eq_iff tp k, same, new)
    | inr other ↦ ground (arith, changed_present ks d, tp_eq_iff k tp, tp_eq_iff tp k, other, h)
  ]

  changed_absent :
      (ks : List TopicPartition)
      → listed tp ks ≡ false
      → change tp f (table ks g) ≡ table ks g ++ (tp, f new_entry) ∷ []
  unfolding change
  changed_absent [] h = refl
  changed_absent (k ∷ ks) h = ground (arith, changed_absent ks, h)

  -- A change adds the partition at the end where it is new.
  changed :
      (ks : List TopicPartition)
      → Distinct ks
      → (listed tp ks ≡ false → g tp ≡ new_entry)
      → change tp f (table ks g) ≡ table (note tp ks) (update tp f g)
  changed ks d fresh = elim (Bool-cases (listed tp ks)) [
    | inl there ↦ rw there (changed_present ks d there)
    | inr new ↦ rw new (
        changed_absent ks new
        ∙ ap (λ e. table ks g ++ (tp, f e) ∷ []) (sym (fresh new))
        ∙ ap (λ e. table ks g ++ (tp, e) ∷ []) (sym own)
        ∙ ap (λ m. m ++ (tp, update tp f g tp) ∷ []) (sym (table-update ks new))
        ∙ sym (table-append ks (update tp f g)))
  ]
    where
      own : update tp f g tp ≡ f (g tp)
      own = rw (tp_eq_refl tp) refl

      table-append :
          (ks : List TopicPartition) (g : TopicPartition → Entry)
          → table (ks ++ tp ∷ []) g ≡ table ks g ++ (tp, g tp) ∷ []
      table-append [] g = refl
      table-append (k ∷ ks) g = ap (λ m. (k, g k) ∷ m) (table-append ks g)

listed-append :
    (q tp : TopicPartition) (ks : List TopicPartition)
    → listed q (ks ++ tp ∷ []) ≡ (listed q ks || tp_eq tp q)
listed-append q tp ks = any_of-append (λ k. tp_eq k q) ks (tp ∷ []) ∙ ground arith

Distinct-append :
    (tp : TopicPartition) (ks : List TopicPartition)
    → Distinct ks
    → listed tp ks ≡ false
    → Distinct (ks ++ tp ∷ [])
Distinct-append tp [] d h = (refl, tt)
Distinct-append tp (k ∷ ks) (new, d) h = (
  ground (arith, listed-append k tp ks, tp_eq_iff tp k, tp_eq_iff k tp, new, h),
  Distinct-append tp ks d (ground (arith, h)),
)

note-Distinct :
    (tp : TopicPartition) (ks : List TopicPartition) → Distinct ks → Distinct (note tp ks)
note-Distinct tp ks d = elim (Bool-cases (listed tp ks)) [
  | inl there ↦ rw there d
  | inr new ↦ rw new (Distinct-append tp ks d new)
]

-- Where the keys have no partition, its entry is new.
abbrev Fresh : List TopicPartition → (TopicPartition → Entry) → Type 0
Fresh ks g = (q : TopicPartition) → listed q ks ≡ false → g q ≡ new_entry

update-Fresh :
    (tp : TopicPartition) (f : Entry → Entry) (ks : List TopicPartition)
    (g : TopicPartition → Entry)
    → Fresh ks g
    → Fresh (note tp ks) (update tp f g)
update-Fresh tp f ks g fresh q h = elim (Bool-cases (listed tp ks)) [
  | inl there ↦ ground (arith, fresh q, tp_eq_iff tp q, there, h)
  | inr new ↦ ground (arith, fresh q, listed-append q tp ks, tp_eq_iff tp q, new, h)
]

-- Each method does to the entry what it is meant to.
applied_meant : (o : ℤ) (e : Entry) → apply_offset o e ≡ meant (applied o) e
applied_meant o e = by_parts e.status e.checkpoint_offset e.log_end_offset
  where
    by_parts :
        (s : PartitionStatus) (c leo : Option ℤ)
        → apply_offset o (record { status = s; checkpoint_offset = c; log_end_offset = leo })
          ≡ meant (applied o) (record { status = s; checkpoint_offset = c; log_end_offset = leo })
    by_parts s none leo = unfold apply_offset in refl
    by_parts s (some c) leo = elim (Bool-cases (ltb_ℤ c o)) [
      | inl ahead ↦ unfold apply_offset in rw ahead refl
      | inr behind ↦ unfold apply_offset in rw behind refl
    ]

run_method-change :
    (c : Method) (tp : TopicPartition) (m : Machine) → run_method c tp m ≡ change tp (meant c) m
unfolding mark_restoring mark_ready mark_ready_partial mark_revoked record_applied record_clamped
    record_log_end
run_method-change restored tp m = refl
run_method-change readied tp m = refl
run_method-change left_partial tp m = refl
run_method-change dropped tp m = refl
run_method-change (applied o) tp m = ap (λ f. change tp f m) (λ i e. applied_meant o e i)
run_method-change (clamped o) tp m = refl
run_method-change (ended_at leo) tp m = refl

run_methods-table :
    (cs : List (TopicPartition × Method)) (ks : List TopicPartition) (g : TopicPartition → Entry)
    → Distinct ks
    → Fresh ks g
    → run_methods cs (table ks g) ≡ table (seen_from cs ks) (told_from cs g)
run_methods-table [] ks g d fresh = refl
run_methods-table ((tp, c) ∷ cs) ks g d fresh =
    ap (run_methods cs)
      (run_method-change c tp (table ks g) ∙ changed tp (meant c) g ks d (fresh tp))
    ∙ run_methods-table cs (note tp ks) (update tp (meant c) g) (note-Distinct tp ks d)
        (update-Fresh tp (meant c) ks g fresh)

partition_states-table :
    (ks : List TopicPartition) (g : TopicPartition → Entry)
    → partition_states (table ks g) ≡ map (λ q. (q, snapshot (g q))) ks
unfolding partition_states
partition_states-table [] g = refl
partition_states-table (k ∷ ks) g = ap (λ l. (k, snapshot (g k)) ∷ l) (partition_states-table ks g)

-- After any calls of the methods on a new machine, `partition_states` lists the partitions of the
-- calls, each once, in the order in which they came up, with the snapshot of what the calls for it,
-- in their order, were to make of a new entry.
pub partition_states-told :
    (cs : List (TopicPartition × Method))
    → partition_states (run_methods cs init) ≡ map (λ q. (q, snapshot (told cs q))) (seen cs)
partition_states-told cs =
    ap partition_states (run_methods-table cs [] (λ q. new_entry) tt (λ q h. refl))
    ∙ partition_states-table (seen cs) (told cs)
