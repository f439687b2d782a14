-- ===== src/Lifecycle/Rules.antt =====
-- The parts of _lifecycle.py's rehydrate, as a relation between worlds sees them: what writes for a
-- partition, what changes its entry in memory, and what does neither.
use ksqlite.Prelude.{some, ◌≡◌, ◌≢◌, refl, ap, ◌∙◌, List, ◌∷◌}
use ksqlite.Types.{TopicPartition}
use ksqlite.Prelude.Int.{ℤ}
use ksqlite.State.{
  Entry, Machine, get, change, apply_offset, record_applied, record_clamped, record_log_end,
  mark_restoring, mark_ready, mark_ready_partial,
}
use ksqlite.Types.{restoring, ready, ready_partial}
use ksqlite.State.Laws.{get-change_ne}
use ksqlite.Schema.{Db, Statement, insert_record, checkpoint_upsert, execute_statement}
use ksqlite.Schema.Frame.{IsFor, IsData, IsData-IsFor}
use ksqlite.World.{Env, World, Exec, ConsumerRecord, on_machine}
use ksqlite.World.Related.{
  Related, IsPreorder, OnDb, OnDb-preorder, OnDb-still, OnMachine, OnMachine-preorder,
  OnMachine-still,
}
use ksqlite.Pool.{transact}
use ksqlite.Pool.Work.{IsWork-statement}
use ksqlite.Batches.{Settings, execute_in_txn, last_offset, batch_work}
use ksqlite.Batches.Effect.{
  Through, Through-batch, transact-OnDb, transact-machine, batch_work-IsWork,
}

-- The change of one entry of the machine.
abbrev pub IsChange : TopicPartition → (Machine → Machine) → Type 0
IsChange tp f = (change_entry : Entry → Entry) × (f ≡ change tp change_entry)

pub record_applied-IsChange : (tp : TopicPartition) (o : ℤ) → IsChange tp (record_applied tp o)
unfolding record_applied
record_applied-IsChange tp o = (apply_offset o, refl)

pub record_clamped-IsChange : (tp : TopicPartition) (o : ℤ) → IsChange tp (record_clamped tp o)
unfolding record_clamped
record_clamped-IsChange tp o = (λ e. record e { checkpoint_offset = some o }, refl)

pub record_log_end-IsChange : (tp : TopicPartition) (o : ℤ) → IsChange tp (record_log_end tp o)
unfolding record_log_end
record_log_end-IsChange tp o = (λ e. record e { log_end_offset = some o }, refl)

pub mark_restoring-IsChange : (tp : TopicPartition) → IsChange tp (mark_restoring tp)
unfolding mark_restoring
mark_restoring-IsChange tp = (λ e. record e { status = restoring }, refl)

pub mark_ready-IsChange : (tp : TopicPartition) → IsChange tp (mark_ready tp)
unfolding mark_ready
mark_ready-IsChange tp = (λ e. record e { status = ready }, refl)

pub mark_ready_partial-IsChange : (tp : TopicPartition) → IsChange tp (mark_ready_partial tp)
unfolding mark_ready_partial
mark_ready_partial-IsChange tp = (λ e. record e { status = ready_partial }, refl)

-- A relation between worlds that every step of a rehydrate of `tp` keeps.
pub record Rules (env : Env) (cfg : Settings) (tp : TopicPartition) (IsOurs : Statement → Type 0)
    (R : World → World → Type 0) : Type 1 where
  pub order : IsPreorder R
  pub calm :
      {A : Type 0} (m : Exec A)
      → ((w : World) → ((m w).1.db ≡ w.db) × ((m w).1.machine ≡ w.machine))
      → Related R m
  pub write : (s : Statement) → IsOurs s → Related R (execute_in_txn env cfg s)
  pub batch :
      (r : ConsumerRecord) (rs : List ConsumerRecord)
      → Related R (transact env cfg.busy_timeout (batch_work env tp (r ∷ rs) (last_offset r rs)))
  pub moved : (f : Machine → Machine) → IsChange tp f → Related R (on_machine f)

-- The entries of the other partitions are the same.
abbrev pub Elsewhere : TopicPartition → Machine → Machine → Type 0
Elsewhere tp m m' = (q : TopicPartition) → tp ≢ q → get q m' ≡ get q m

module _ (env : Env) (cfg : Settings) (tp : TopicPartition) where
  pub quiet_rules :
      {R : World → World → Type 0} → Rules env cfg tp (IsFor tp) R → Rules env cfg tp (IsData tp) R
  quiet_rules rules = record {
    order = rules.order;
    calm = rules.calm;
    write = λ s f. rules.write s (IsData-IsFor tp s f);
    batch = rules.batch;
    moved = rules.moved;
  }

  -- A relation on the database, from its statements.
  module _ {IsOurs : Statement → Type 0} {R : Db → Db → Type 0} (order : IsPreorder R)
      (ours : (s : Statement) → IsData tp s → IsOurs s)
      (stmt : (s : Statement) → IsOurs s → Through R (execute_statement env.json s)) where
    pub db_rules : Rules env cfg tp IsOurs (OnDb R)
    unfolding execute_in_txn
    db_rules = record {
      order = OnDb-preorder order;
      calm = λ m same. OnDb-still order m (λ w. (same w).0);
      write = λ s f. transact-OnDb order env cfg.busy_timeout (stmt s f) (IsWork-statement env s);
      batch = λ r rs.
          transact-OnDb order env cfg.busy_timeout
            (Through-batch order env tp
              (λ row e. stmt (insert_record row) (ours (insert_record row) e)) (r ∷ rs)
              (last_offset r rs)
              (stmt (checkpoint_upsert tp (last_offset r rs))
                (ours (checkpoint_upsert tp (last_offset r rs)) refl)))
            (batch_work-IsWork env tp (r ∷ rs) (last_offset r rs));
      moved = λ f only. OnDb-still order (on_machine f) (λ w. refl);
    }

  Elsewhere-preorder : IsPreorder (Elsewhere tp)
  Elsewhere-preorder = record {
    same = λ m q other. refl;
    then_also = λ a b c h k q other. k q other ∙ h q other;
  }

  pub machine_rules : Rules env cfg tp (IsFor tp) (OnMachine (Elsewhere tp))
  unfolding execute_in_txn
  machine_rules = record {
    order = OnMachine-preorder Elsewhere-preorder;
    calm = λ m same. OnMachine-still Elsewhere-preorder m (λ w. (same w).1);
    write = λ s f.
        OnMachine-still Elsewhere-preorder _
          (λ w. transact-machine env cfg.busy_timeout w (IsWork-statement env s));
    batch = λ r rs. OnMachine-still Elsewhere-preorder _ (λ w.
        transact-machine env cfg.busy_timeout w
          (batch_work-IsWork env tp (r ∷ rs) (last_offset r rs)));
    moved = λ f (g, e). record {
      at = λ w q other. ap (λ h. get q (h w.machine)) e ∙ get-change_ne tp q g w.machine other;
    };
  }
