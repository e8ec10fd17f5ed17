-- ===== src/State/AgentWork/Batch.antt =====
-- The loops of QueueAgentWork (internal/state/agent.go) over a batch.
use grodt.Prelude.{ℕ, suc, ◌+◌, ◌<◌, true, List, [], ◌∷◌, ◌≡◌, refl, arith, length, u64, is_some}
use grodt.State.Types.{TaskId, AgentWork}
use grodt.State.Records.{Records, find, insert, find-insert, record_at}
use grodt.State.Store.{ok, Store}
use grodt.State.Tasks.Invariant.{IsWellFormed}
use grodt.State.Tasks.Writes.{pending-IsWellFormed}
use grodt.State.AgentWork.{agent_task, add_agent_work, append_created}

-- What the loop over a batch gives, from a task state that has used the numbers up to `seq`.
pub record IsAdded (parent : TaskId) (stack : List TaskId) (before : Records) (seq' : ℕ) (size : ℕ)
    (s s' : Store) (records : Records) (ids : List TaskId) : Type 0 where
  pub wf : IsWellFormed (record { records = records; stack = stack }) seq'
  pub parent_kept : find parent records ≡ find parent before
  pub one_each : length ids ≡ size
  pub tasks_kept : s'.tasks ≡ s.tasks
  pub seq_kept : s'.task_sequence ≡ s.task_sequence
  pub journal_kept : s'.journal ≡ s.journal

pub add_agent_work_lem :
    (parent seq : ℕ) (work : List AgentWork) (i : ℕ) (records : Records) (stack : List TaskId)
    (s : Store)
    → seq + i + length work < 18446744073709551616
    → is_some (find parent records) ≡ true
    → IsWellFormed (record { records = records; stack = stack }) (seq + i)
    → (s' : Store) × (records' : Records) × (ids : List TaskId) × (add_agent_work parent seq work i
          records s
        ≡ (s', ok (records', ids)))
      × IsAdded parent stack records (seq + i + length work) (length work) s s' records' ids
unfolding add_agent_work
add_agent_work_lem parent seq [] i records stack s room known w = (
  s,
  records,
  [],
  refl,
  record {
    wf = let e : seq + i + 0 ≡ seq + i = omega arith in rw e w;
    parent_kept = refl;
    one_each = refl;
    tasks_kept = refl;
    seq_kept = refl;
    journal_kept = refl;
  },
)
add_agent_work_lem parent seq (x ∷ work) i records stack s room known w =
    let id = u64 (seq + i + 1) in
    let t = agent_task id parent x (s.now s.tick) in
    let at : id ≡ seq + i + 1 = omega arith in
    let old = w.entries parent (record_at records parent) (ground arith) in
    let next : IsWellFormed (record { records = insert id t records; stack = stack })
        (seq + (i + 1)) =
      let e : seq + (i + 1) ≡ seq + i + 1 = omega arith in
      rw (e, at)
        (pending-IsWellFormed records stack (seq + i)
          (agent_task (seq + i + 1) parent x (s.now s.tick)) refl refl refl known w) in
    let (s', records', ids, run, added) =
      add_agent_work_lem parent seq work (i + 1) (insert id t records) stack
        (record s { tick = s.tick + 1 }) (omega arith)
        (ground (arith, find-insert id parent t records)) next in
    (
      s',
      records',
      id ∷ ids,
      ground (arith, run),
      record {
        wf =
            let e : seq + i + suc (length work) ≡ seq + (i + 1) + length work = omega arith in
            rw e added.wf;
        parent_kept =
            ground (arith, added.parent_kept, old.numbered, find-insert id parent t records);
        one_each = omega (arith, added.one_each);
        tasks_kept = added.tasks_kept;
        seq_kept = added.seq_kept;
        journal_kept = added.journal_kept;
      },
    )

pub append_created_lem :
    (records : Records) (ids : List TaskId) (s : Store)
    → ((append_created records ids s).1 ≡ ok tt)
      × ((append_created records ids s).0.tasks ≡ s.tasks)
      × ((append_created records ids s).0.task_sequence ≡ s.task_sequence)
unfolding append_created
append_created_lem records [] s = (refl, refl, refl)
append_created_lem records (id ∷ ids) s = append_created_lem records ids _
