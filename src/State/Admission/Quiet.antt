-- ===== src/State/Admission/Quiet.antt =====
-- The operations of a broadcast that leave the tasks alone (internal/state/store.go), and the rules of
-- the ones that queue requests at their end.
use grodt.Prelude.{
  ℕ, ◌+◌, ◌*◌, ◌≤◌, ◌<◌, Bool, true, false, ◌⊎◌, inl, inr, ◌≡◌, refl, ◌∙◌, arith, is_some,
}
use grodt.State.Types.{TaskId}
use grodt.State.Records.{find}
use grodt.State.Store.{
  Error, Result, ok, err, Entry, Store, Op, ◌>>=◌, ◌>>◌, pure, raise, refuse, choose, get, modify,
  read_clock, append_entry,
}
use grodt.State.Tasks.Invariant.{IsWellFormed}
use grodt.State.Turns.{all_turns}

-- The parts of the store that a broadcast changes only by queueing.
pub record SameTasks (s s' : Store) : Type 0 where
  pub tasks : s'.tasks ≡ s.tasks
  pub sequence : s'.task_sequence ≡ s.task_sequence
  pub executions : s'.host_executions ≡ s.host_executions

SameTasks-refl : (s : Store) → SameTasks s s
SameTasks-refl s = record { tasks = refl; sequence = refl; executions = refl }

pub SameTasks-trans : (a b c : Store) → SameTasks a b → SameTasks b c → SameTasks a c
SameTasks-trans a b c f g = record {
  tasks = g.tasks ∙ f.tasks;
  sequence = g.sequence ∙ f.sequence;
  executions = g.executions ∙ f.executions;
}

pub record Quiet {A : Type 0} (m : Op A) : Type 0 where
  pub at : (s : Store) → SameTasks s (m s).0

pub Quiet-bind :
    {A B : Type 0} (m : Op A) (f : A → Op B) → Quiet m → ((a : A) → Quiet (f a)) → Quiet (m >>= f)
Quiet-bind {A = A} {B = B} m f hm hf = record { at = λ s. by_result s (m s).0 (m s).1 (hm.at s) }
  where
    by_result :
        (s s' : Store) (r : Result A)
        → SameTasks s s'
        → SameTasks s
            (let x : Store × Result B = elim r [ ok a ↦ f a s' | err e ↦ (s', err e) ] in x).0
    by_result s s' (ok a) g = SameTasks-trans s s' (f a s').0 g ((hf a).at s')
    by_result s s' (err e) g = g

pub Quiet-seq : {A B : Type 0} (m : Op A) (k : Op B) → Quiet m → Quiet k → Quiet (m >> k)
Quiet-seq {A = A} {B = B} m k hm hk = record { at = λ s. by_result s (m s).0 (m s).1 (hm.at s) }
  where
    by_result :
        (s s' : Store) (r : Result A)
        → SameTasks s s'
        → SameTasks s
            (let x : Store × Result B = elim r [ ok a ↦ k s' | err e ↦ (s', err e) ] in x).0
    by_result s s' (ok a) g = SameTasks-trans s s' (k s').0 g (hk.at s')
    by_result s s' (err e) g = g

pub Quiet-pure : {A : Type 0} (a : A) → Quiet (pure a)
Quiet-pure a = record { at = SameTasks-refl }

pub Quiet-raise : {A : Type 0} (e : Error) → Quiet (raise {A = A} e)
Quiet-raise e = record { at = SameTasks-refl }

pub Quiet-get : Quiet get
Quiet-get = record { at = SameTasks-refl }

pub Quiet-refuse : (b : Bool) (e : Error) → Quiet (refuse b e)
Quiet-refuse true e = record { at = SameTasks-refl }
Quiet-refuse false e = record { at = SameTasks-refl }

pub Quiet-append_entry : (e : Entry) → Quiet (append_entry e)
unfolding append_entry
Quiet-append_entry e = record {
  at = λ s. record { tasks = refl; sequence = refl; executions = refl };
}

pub Quiet-read_clock : Quiet read_clock
unfolding read_clock
Quiet-read_clock = record { at = λ s. record { tasks = refl; sequence = refl; executions = refl } }

pub Quiet-modify :
    (f : Store → Store)
    → ((s : Store) → (f s).tasks ≡ s.tasks)
    → ((s : Store) → (f s).task_sequence ≡ s.task_sequence)
    → ((s : Store) → (f s).host_executions ≡ s.host_executions)
    → Quiet (modify f)
Quiet-modify f t q x = record { at = λ s. record { tasks = t s; sequence = q s; executions = x s } }

-- A parent that has a record, or none.
abbrev pub IsParent : TaskId → Store → Type 0
IsParent parent s = (parent ≡ 0) ⊎ (is_some (find parent s.tasks.records) ≡ true)

-- From `s` to `s'` at most `n` pending tasks are created under the parent.
pub record Adds (parent : TaskId) (n : ℕ) (s s' : Store) : Type 0 where
  pub sequence : s'.task_sequence ≤ s.task_sequence + n
  pub turns : all_turns s'.tasks.records ≤ all_turns s.tasks.records + n * 3
  pub executions : s'.host_executions ≡ s.host_executions
  pub known :
      (k : TaskId)
      → is_some (find k s.tasks.records) ≡ true
      → is_some (find k s'.tasks.records) ≡ true
  pub well_formed :
      IsParent parent s
      → s.task_sequence + n < 18446744073709551616
      → IsWellFormed s.tasks s.task_sequence
      → IsWellFormed s'.tasks s'.task_sequence

pub Adds-same : (parent : TaskId) (n : ℕ) (s s' : Store) → SameTasks s s' → Adds parent n s s'
Adds-same parent n s s' h = record {
  sequence = omega (arith, h.sequence);
  turns = rw h.tasks (omega arith);
  executions = h.executions;
  known = λ k there. rw h.tasks there;
  well_formed = λ known room w. rw (h.tasks, h.sequence) w;
}

pub IsParent-Adds :
    (parent : TaskId) (n : ℕ) (s s' : Store)
    → Adds parent n s s'
    → IsParent parent s
    → IsParent parent s'
IsParent-Adds parent n s s' h (inl none_there) = inl none_there
IsParent-Adds parent n s s' h (inr there) = inr (h.known parent there)

pub Adds-trans :
    (parent : TaskId) (n m : ℕ) (a b c : Store)
    → Adds parent n a b
    → Adds parent m b c
    → Adds parent (n + m) a c
Adds-trans parent n m a b c f g = record {
  sequence = omega (arith, f.sequence, g.sequence);
  turns = omega (arith, f.turns, g.turns);
  executions = g.executions ∙ f.executions;
  known = λ k there. g.known k (f.known k there);
  well_formed = λ known room w.
      g.well_formed (IsParent-Adds parent n a b f known) (omega (arith, room, f.sequence))
        (f.well_formed known (omega (arith, room)) w);
}

Adds-after :
    (parent : TaskId) (n : ℕ) (a b c : Store)
    → SameTasks a b
    → Adds parent n b c
    → Adds parent n a c
Adds-after parent n a b c f g =
    let e : 0 + n ≡ n = omega arith in
    rw e at (Adds-trans parent 0 n a b c (Adds-same parent 0 a b f) g)

-- An operation that queues at most `n` tasks at its end.
pub record Queues {A : Type 0} (parent : TaskId) (n : ℕ) (m : Op A) : Type 0 where
  pub at : (s : Store) → Adds parent n s (m s).0

pub Queues-Quiet : {A : Type 0} (parent : TaskId) (n : ℕ) (m : Op A) → Quiet m → Queues parent n m
Queues-Quiet parent n m h = record { at = λ s. Adds-same parent n s (m s).0 (h.at s) }

pub Queues-bind :
    {A B : Type 0} (parent : TaskId) (n : ℕ) (m : Op A) (f : A → Op B)
    → Quiet m
    → ((a : A) → Queues parent n (f a))
    → Queues parent n (m >>= f)
Queues-bind {A = A} {B = B} parent n m f hm hf = record {
  at = λ s. by_result s (m s).0 (m s).1 (hm.at s);
}
  where
    by_result :
        (s s' : Store) (r : Result A)
        → SameTasks s s'
        → Adds parent n s
            (let x : Store × Result B = elim r [ ok a ↦ f a s' | err e ↦ (s', err e) ] in x).0
    by_result s s' (ok a) g = Adds-after parent n s s' (f a s').0 g ((hf a).at s')
    by_result s s' (err e) g = Adds-same parent n s s' g

pub Queues-seq :
    {A B : Type 0} (parent : TaskId) (n : ℕ) (m : Op A) (k : Op B)
    → Quiet m
    → Queues parent n k
    → Queues parent n (m >> k)
Queues-seq {A = A} {B = B} parent n m k hm hk = record {
  at = λ s. by_result s (m s).0 (m s).1 (hm.at s);
}
  where
    by_result :
        (s s' : Store) (r : Result A)
        → SameTasks s s'
        → Adds parent n s
            (let x : Store × Result B = elim r [ ok a ↦ k s' | err e ↦ (s', err e) ] in x).0
    by_result s s' (ok a) g = Adds-after parent n s s' (k s').0 g (hk.at s')
    by_result s s' (err e) g = Adds-same parent n s s' g

pub Queues-choose :
    {A : Type 0} (parent : TaskId) (n : ℕ) (b : Bool) (m k : Op A)
    → Queues parent n m
    → Queues parent n k
    → Queues parent n (choose b m k)
Queues-choose parent n true m k hm hk = hm
Queues-choose parent n false m k hm hk = hk

pub ruleset quiet_rules = (
  Quiet-bind, Quiet-seq, Quiet-pure, Quiet-raise, Quiet-get, Quiet-refuse, Quiet-append_entry,
  Quiet-read_clock, Quiet-modify,
)
