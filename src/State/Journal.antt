-- ===== src/State/Journal.antt =====
-- The journal of internal/state/store.go: its numbering, and rules for the operations that append
-- to it.
pub mod Calls
pub mod Since
use grodt.Prelude.{
  ℕ, zero, suc, ◌+◌, String, Bool, true, false, Option, none, some, List, [], ◌∷◌, ◌++◌, length,
  length-append, ◌≡◌, sym, refl, ap, ◌∙◌, arith, u64,
}
use mathlib.Core.List.{append-nil, append_assoc}
use mathlib.Core.Path.{subst}
use grodt.State.Types.{TaskId, Time}
use grodt.State.Store.{
  Error, Result, ok, err, Entry, Context, TaskState, Store, Op, ◌>>=◌, ◌>>◌, pure, raise, raise_if,
  refuse, when, choose, get, modify, read_clock, append_entry, check, validate_tasks, commit_tasks,
}

-- The entries carry the sequence numbers from `n + 1` on.
abbrev pub Numbered : ℕ → List Entry → Type 0
Numbered n [] = Unit
Numbered n (e ∷ es) = (e.sequence ≡ u64 (n + 1)) × Numbered (n + 1) es

pub record IsNumbered (s : Store) : Type 0 where
  pub entries : Numbered 0 s.journal
  pub last : s.journal_sequence ≡ u64 (length s.journal)

-- `s'` has the journal of `s` and further entries, and is numbered if `s` is.
pub record Grows (s s' : Store) : Type 0 where
  pub added : List Entry
  pub kept : s'.journal ≡ s.journal ++ added
  pub numbered : IsNumbered s → IsNumbered s'

pub Grows-refl : (s : Store) → Grows s s
Grows-refl s = record { added = []; kept = sym (append-nil s.journal); numbered = λ h. h }

pub Grows-trans : (a b c : Store) → Grows a b → Grows b c → Grows a c
Grows-trans a b c f g = record {
  added = f.added ++ g.added;
  kept =
      g.kept
      ∙ ap (λ (j : List Entry). j ++ g.added) f.kept
      ∙ append_assoc a.journal f.added g.added;
  numbered = λ h. g.numbered (f.numbered h);
}

-- The rule format: the operation lets the journal grow, from every store.
pub record Logs {A : Type 0} (m : Op A) : Type 0 where
  pub at : (s : Store) → Grows s (m s).0

pub Logs-bind :
    {A B : Type 0} (m : Op A) (f : A → Op B) → Logs m → ((a : A) → Logs (f a)) → Logs (m >>= f)
Logs-bind {A = A} {B = B} m f hm hf = record { at = λ s. by_result s (m s).0 (m s).1 (hm.at s) }
  where
    by_result :
        (s s' : Store) (r : Result A)
        → Grows s s'
        → Grows s (let x : Store × Result B = elim r [ ok a ↦ f a s' | err e ↦ (s', err e) ] in x).0
    by_result s s' (ok a) g = Grows-trans s s' (f a s').0 g ((hf a).at s')
    by_result s s' (err e) g = g

pub Logs-seq : {A B : Type 0} (m : Op A) (k : Op B) → Logs m → Logs k → Logs (m >> k)
Logs-seq {A = A} {B = B} m k hm hk = record { at = λ s. by_result s (m s).0 (m s).1 (hm.at s) }
  where
    by_result :
        (s s' : Store) (r : Result A)
        → Grows s s'
        → Grows s (let x : Store × Result B = elim r [ ok a ↦ k s' | err e ↦ (s', err e) ] in x).0
    by_result s s' (ok a) g = Grows-trans s s' (k s').0 g (hk.at s')
    by_result s s' (err e) g = g

pub Logs-pure : {A : Type 0} (a : A) → Logs (pure a)
Logs-pure a = record { at = Grows-refl }

pub Logs-raise : {A : Type 0} (e : Error) → Logs (raise {A = A} e)
Logs-raise e = record { at = Grows-refl }

pub Logs-get : Logs get
Logs-get = record { at = Grows-refl }

pub Logs-refuse : (b : Bool) (e : Error) → Logs (refuse b e)
Logs-refuse true e = record { at = Grows-refl }
Logs-refuse false e = record { at = Grows-refl }

pub Logs-raise_if : (o : Option Error) → Logs (raise_if o)
Logs-raise_if none = record { at = Grows-refl }
Logs-raise_if (some e) = record { at = Grows-refl }

pub Logs-when : (b : Bool) (m : Op Unit) → Logs m → Logs (when b m)
Logs-when true m h = h
Logs-when false m h = record { at = Grows-refl }

pub Logs-choose : {A : Type 0} (b : Bool) (m n : Op A) → Logs m → Logs n → Logs (choose b m n)
Logs-choose true m n hm hn = hm
Logs-choose false m n hm hn = hn

-- A change of other fields.
same_journal :
    (s s' : Store) → s'.journal ≡ s.journal → s'.journal_sequence ≡ s.journal_sequence → Grows s s'
same_journal s s' j n = record {
  added = [];
  kept = j ∙ sym (append-nil s.journal);
  numbered = λ h. record { entries = rw j h.entries; last = rw (n, j) h.last };
}

Numbered-append :
    (n : ℕ) (es : List Entry) (e : Entry)
    → Numbered n es
    → e.sequence ≡ u64 (n + length es + 1)
    → Numbered n (es ++ e ∷ [])
Numbered-append n [] e h last = (omega (arith, last), tt)
Numbered-append n (x ∷ es) e h last = (h.0, Numbered-append (n + 1) es e h.1 (omega (arith, last)))

pub Logs-append_entry : (e : Entry) → Logs (append_entry e)
unfolding append_entry
Logs-append_entry e = record {
  at = λ s. record {
    added = record e { sequence = u64 (s.journal_sequence + 1); time = s.now s.tick } ∷ [];
    kept = refl;
    numbered = λ h. record {
      entries = Numbered-append 0 s.journal _ h.entries (omega (arith, h.last));
      last =
          let e' = record e { sequence = u64 (s.journal_sequence + 1); time = s.now s.tick } in
          omega (arith, h.last, length-append s.journal (e' ∷ []));
    };
  };
}

pub Logs-modify :
    (f : Store → Store)
    → ((s : Store) → (f s).journal ≡ s.journal)
    → ((s : Store) → (f s).journal_sequence ≡ s.journal_sequence)
    → Logs (modify f)
Logs-modify f j n = record { at = λ s. same_journal s (f s) (j s) (n s) }

pub Logs-read_clock : Logs read_clock
unfolding read_clock
Logs-read_clock = record { at = λ s. same_journal s _ refl refl }

pub ruleset journal_rules = (
  Logs-bind, Logs-seq, Logs-pure, Logs-raise, Logs-get, Logs-refuse, Logs-raise_if, Logs-when,
  Logs-append_entry, Logs-read_clock, Logs-modify,
)

pub Logs-check : (c : Context) → Logs (check c)
unfolding check
Logs-check c = search journal_rules

pub Logs-validate_tasks : (c : Context) (tasks : TaskState) → Logs (validate_tasks c tasks)
unfolding validate_tasks
Logs-validate_tasks c tasks = record { at = λ s. same_journal s _ (ground arith) (ground arith) }

pub Logs-commit_tasks :
    (c : Context) (tasks : TaskState) (kind : String) (id : TaskId)
    → Logs (commit_tasks c tasks kind id)
unfolding commit_tasks
Logs-commit_tasks c tasks kind id = search (journal_rules, Logs-validate_tasks)
