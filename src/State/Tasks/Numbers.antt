-- ===== src/State/Tasks/Numbers.antt =====
-- The task numbers under the operations of internal/state.
use grodt.Prelude.{◌+◌, ◌≤◌, String, inl, inr, ◌≡◌, arith}
use grodt.State.Types.{TaskId, Status}
use grodt.State.Store.{Context, Store, Result-cases}
use grodt.State.Tasks.{push, begin_cycle, finish, end, activate}
use grodt.State.Tasks.End.{end-ok, end-err}

pub begin_cycle_number :
    (c : Context) (s : Store) → (begin_cycle c s).0.task_sequence ≡ s.task_sequence
unfolding begin_cycle
begin_cycle_number c s = ground arith

pub finish_number :
    (c : Context) (status : Status) (result code : String) (s : Store)
    → (finish c status result code s).0.task_sequence ≡ s.task_sequence
unfolding finish
finish_number c status result code s = ground arith

pub activate_number :
    (c : Context) (id : TaskId) (s : Store) → (activate c id s).0.task_sequence ≡ s.task_sequence
unfolding activate
activate_number c id s = ground arith

pub push_number :
    (c : Context) (objective input : String) (s : Store)
    → (push c objective input s).0.task_sequence ≤ s.task_sequence + 1
unfolding push
push_number c objective input s = ground arith

pub end_number :
    (c : Context) (status : Status) (s : Store) → (end c status s).0.task_sequence ≡ s.task_sequence
end_number c status s = elim (Result-cases (end c status s).1) [
  | inl (u, h) ↦ (end-ok c status s h).1
  | inr (e, h) ↦ (end-err c status s h).1
]
