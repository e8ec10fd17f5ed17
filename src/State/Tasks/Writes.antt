-- ===== src/State/Tasks/Writes.antt =====
-- Writes of one record of the task state: a new pending child, as QueueAgentWork makes it, and a
-- change of fields that the stack does not read.
use mathlib.Core.Path.{subst}
use grodt.Prelude.{ℕ, ◌+◌, true, ◌⊎◌, inr, some, List, [], ◌∷◌, ◌≡◌, sym, arith, is_some}
use grodt.State.Types.{TaskId, Status, Task}
use grodt.State.Records.{Records, find, insert, find-insert, record_at}
use grodt.State.Tasks.Invariant.{
  Entries, IsLineage, IsWellFormed, Entries-mono, Entries-insert, IsLineage-insert,
}
use grodt.State.Tasks.TopStatus.{top_known}

-- The fields on which the stack rests.
pub record SameShape (t t' : Task) : Type 0 where
  pub id : t'.id ≡ t.id
  pub order : t'.order ≡ t.order
  pub parent : t'.parent_id ≡ t.parent_id
  pub status : t'.status ≡ t.status

pub IsLineage-touch :
    (records : Records) (k : TaskId) (t : Task) (status : Status) (xs : List TaskId)
    → SameShape (record_at records k) t
    → IsLineage records status xs
    → IsLineage (insert k t records) status xs
IsLineage-touch records k t status [] same l = tt
IsLineage-touch records k t status (x ∷ xs) same l = (
  ground (arith, find-insert k x t records, l.0, same.status),
  ground (arith, find-insert k x t records, l.1, same.parent),
  IsLineage-touch records k t Status.waiting xs same l.2,
)

-- A write of such other fields to a record that is there keeps the task state well formed.
pub touch-IsWellFormed :
    (records : Records) (stack : List TaskId) (seq : ℕ) (k : TaskId) (t : Task)
    → is_some (find k records) ≡ true
    → SameShape (record_at records k) t
    → IsWellFormed (record { records = records; stack = stack }) seq
    → IsWellFormed (record { records = insert k t records; stack = stack }) seq
touch-IsWellFormed records stack seq k t there same w = record {
  entries =
      let old = w.entries k (record_at records k) (ground arith) in
      Entries-insert seq records k t w.entries (record {
        id_key = omega (arith, same.id, old.id_key);
        order_key = omega (arith, same.order, old.order_key);
        positive = old.positive;
        numbered = old.numbered;
        parent_older = omega (arith, same.parent, old.parent_older);
        parent_known =
            subst (λ (p : ℕ). (p ≡ 0) ⊎ (is_some (find p records) ≡ true)) (sym same.parent)
              old.parent_known;
      });
  lineage = IsLineage-touch records k t Status.running stack same w.lineage;
  executing = λ j e. w.executing j (ground (arith, find-insert k j t records, same.status));
}

-- A new pending task with the next number, under a known parent, keeps the task state well formed.
pub pending-IsWellFormed :
    (records : Records) (stack : List TaskId) (seq : ℕ) (t : Task)
    → t.id ≡ seq + 1
    → t.order ≡ seq + 1
    → t.status ≡ some Status.pending
    → is_some (find t.parent_id records) ≡ true
    → IsWellFormed (record { records = records; stack = stack }) seq
    → IsWellFormed (record { records = insert (seq + 1) t records; stack = stack }) (seq + 1)
pending-IsWellFormed records stack seq t id order pending parent w = record {
  entries = Entries-insert (seq + 1) records (seq + 1) t older (record {
    id_key = id;
    order_key = order;
    positive = omega arith;
    numbered = omega arith;
    parent_older =
        omega
          (arith, (w.entries t.parent_id (record_at records t.parent_id) (ground arith)).numbered);
    parent_known = inr parent;
  });
  lineage =
      IsLineage-insert (seq + 1) records (seq + 1) t Status.running stack older
        (omega (arith, (top_known seq records w.entries Status.running stack w.lineage).1))
        w.lineage;
  executing = λ j e. w.executing j (ground (arith, find-insert (seq + 1) j t records));
}
  where
    older : Entries (seq + 1) records
    older = Entries-mono seq (seq + 1) records (omega arith) w.entries
