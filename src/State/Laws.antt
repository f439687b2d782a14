-- ===== src/State/Laws.antt =====
-- The machine as a map: what each method leaves at its partition and at the others.
use ksqlite.Prelude.{◌≡◌, ◌≢◌, ◌↔◌, Option, none, some, [], ◌∷◌, arith, if◌then◌else◌}
use ksqlite.Prelude.Int.{ℤ, pos, max_ℤ, ◌+ℤ◌, ◌-ℤ◌, ◌≤ℤ◌, ◌<ℤ◌, int_laws}
use ksqlite.Types.{TopicPartition, tp_eq, tp_eq_iff, tp_eq_refl, ready, ready_partial}
use ksqlite.State.{
  mark_ready, mark_ready_partial, status_of, Entry, Machine, get, entry, change, apply_offset,
  record_applied, lag,
}

-- Changing one entry is read back at its partition, and at no other.
pub get-change :
    (tp q : TopicPartition) (f : Entry → Entry) (m : Machine)
    → get q (change tp f m) ≡ (if tp_eq tp q then some (f (entry tp m)) else get q m)
unfolding get change
get-change tp q f [] = ground arith
get-change tp q f ((r, e) ∷ m) =
    ground (arith, get-change tp q f m, tp_eq_iff tp q, tp_eq_iff r tp, tp_eq_iff r q)

pub get-change_ne :
    (tp q : TopicPartition) (f : Entry → Entry) (m : Machine)
    → tp ≢ q
    → get q (change tp f m) ≡ get q m
get-change_ne tp q f m h = ground (arith, get-change tp q f m, tp_eq_iff tp q)

pub entry-change_self :
    (tp : TopicPartition) (f : Entry → Entry) (m : Machine)
    → entry tp (change tp f m) ≡ f (entry tp m)
entry-change_self tp f m = ground (arith, get-change tp tp f m, tp_eq_refl tp)

pub entry-change_ne :
    (tp q : TopicPartition) (f : Entry → Entry) (m : Machine)
    → tp ≢ q
    → entry q (change tp f m) ≡ entry q m
entry-change_ne tp q f m h = ground (arith, get-change tp q f m, tp_eq_iff tp q)

-- The checkpoint after `record_applied`: the greater of the two.
abbrev pub merged : Option ℤ → ℤ → ℤ
merged none o = o
merged (some c) o = max_ℤ c o

-- `record_applied` leaves its partition at the greater of the old and the new offset, and at the
-- new one where there was none.
pub record_applied_max :
    (tp : TopicPartition) (o : ℤ) (m : Machine)
    → (entry tp (record_applied tp o m)).checkpoint_offset
      ≡ some (merged (entry tp m).checkpoint_offset o)
unfolding record_applied
record_applied_max tp o m =
    rw (entry-change_self tp (apply_offset o) m) (unfold apply_offset in ground arith)

-- For an entry with a checkpoint and a cached LEO the lag is there, and it is negative exactly when
-- the checkpoint has reached that LEO.
pub lag_negative_iff :
    (e : Entry) (leo c : ℤ)
    → e.log_end_offset ≡ some leo
    → e.checkpoint_offset ≡ some c
    → (l : ℤ) × (lag e ≡ some l) × ((l <ℤ pos 0) ↔ (leo ≤ℤ c))
unfolding lag
lag_negative_iff e leo c hl hc =
    (leo -ℤ (c +ℤ pos 1), ground arith, (λ h. omega int_laws, λ h. omega int_laws))

pub status_of-mark_ready :
    (tp : TopicPartition) (m : Machine) → status_of tp (mark_ready tp m) ≡ some ready
unfolding status_of mark_ready
status_of-mark_ready tp m =
    ground (arith, get-change tp tp (λ e. record e { status = ready }) m, tp_eq_refl tp)

pub status_of-mark_ready_partial :
    (tp : TopicPartition) (m : Machine)
    → status_of tp (mark_ready_partial tp m) ≡ some ready_partial
unfolding status_of mark_ready_partial
status_of-mark_ready_partial tp m =
    ground (arith, get-change tp tp (λ e. record e { status = ready_partial }) m, tp_eq_refl tp)

-- The LEO that is cached for a partition is changed by `record_log_end` alone.
pub log_end-record_applied :
    (tp : TopicPartition) (o : ℤ) (m : Machine)
    → (entry tp (record_applied tp o m)).log_end_offset ≡ (entry tp m).log_end_offset
unfolding record_applied
log_end-record_applied tp o m = rw (entry-change_self tp (apply_offset o) m) (kept (entry tp m))
  where
    kept : (e : Entry) → (apply_offset o e).log_end_offset ≡ e.log_end_offset
    kept e = unfold apply_offset in ground arith
