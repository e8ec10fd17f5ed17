-- ===== src/State/Admission/Touch.antt =====
-- The operations of a broadcast on the partitions (internal/state/store.go): the ones that leave them
-- alone, and the ones that write one of them.
use text.Mathlib.Text.{◌==◌ as str_eq}
use text.Mathlib.TextEquality.{eq_iff}
use grodt.Prelude.{
  String, Bool, true, false, inl, inr, Option, none, some, List, [], ◌∷◌, ◌≡◌, refl, ◌∙◌, arith,
  if◌then◌else◌,
}
use grodt.State.Types.{Partition, Event, HostRequest}
use grodt.State.Evidence.{partition_at}
use grodt.State.Store.{
  Error, Result, ok, err, Result-cases, Entry, Context, Store, Op, ◌>>=◌, ◌>>◌, raise, refuse,
  choose, get, append_entry, read_clock, commit_tasks, validate_tasks,
}
use grodt.State.HostWork.{existing_request, queue_found, queue_requests}
use grodt.State.Admission.{partition_of, put_partition, set_partition}

partition_at-put_partition :
    (k name : String) (p : Partition) (knowledge : List (String × Partition))
    → partition_at k (put_partition name p knowledge)
      ≡ (if str_eq name k then some p else partition_at k knowledge)
unfolding partition_at put_partition
partition_at-put_partition k name p [] = refl
partition_at-put_partition k name p ((n, q) ∷ knowledge) =
    ground (
      arith,
      partition_at-put_partition k name p knowledge,
      eq_iff n name,
      eq_iff n k,
      eq_iff name k,
    )

-- The partitions stay as they are.
pub record Still {A : Type 0} (m : Op A) : Type 0 where
  pub at : (s : Store) → (m s).0.knowledge ≡ s.knowledge

pub Still-append_entry : (e : Entry) → Still (append_entry e)
unfolding append_entry
Still-append_entry e = record { at = λ s. refl }

pub Still-get : Still get
Still-get = record { at = λ s. refl }

pub Still-raise : {A : Type 0} (e : Error) → Still (raise {A = A} e)
Still-raise e = record { at = λ s. refl }

pub Still-refuse : (b : Bool) (e : Error) → Still (refuse b e)
Still-refuse true e = record { at = λ s. refl }
Still-refuse false e = record { at = λ s. refl }

queue_found_still :
    (c : Context) (partition : String) (e : Event) (r : HostRequest) (o : Option _) (s : Store)
    → (queue_found c partition e r o s).0.knowledge ≡ s.knowledge
unfolding read_clock commit_tasks validate_tasks append_entry
queue_found_still c partition e r none s = ground arith
queue_found_still c partition e r (some t) s = refl

queue_requests_still :
    (c : Context) (partition : String) (e : Event) (requests : List HostRequest) (s : Store)
    → (queue_requests c partition e requests s).0.knowledge ≡ s.knowledge
unfolding queue_requests
queue_requests_still c partition e [] s = refl
queue_requests_still c partition e (r ∷ requests) s =
    let found = existing_request partition r.id s.tasks.records in
    let first = queue_found_still c partition e r found s in
    let s₁ = (queue_found c partition e r found s).0 in
    elim (Result-cases (queue_found c partition e r found s).1) [
      | inl (u, done) ↦ rw (done, ◌>>◌) (queue_requests_still c partition e requests s₁ ∙ first)
      | inr (x, stopped) ↦ rw (stopped, ◌>>◌) first
    ]

pub Still-queue_requests :
    (c : Context) (partition : String) (e : Event) (requests : List HostRequest)
    → Still (queue_requests c partition e requests)
Still-queue_requests c partition e requests = record {
  at = queue_requests_still c partition e requests;
}

-- From `s` to `s'` only one partition is written, and `Q` holds of it afterwards.
pub record Touched (name : String) (Q : Partition → Type 0) (s s' : Store) : Type 0 where
  pub others : (k : String) → str_eq name k ≡ false → partition_of k s' ≡ partition_of k s
  pub this : Q (partition_of name s')

-- The same of an operation that starts with the partition `p`.
pub record Touches {A : Type 0} (name : String) (p : Partition) (Q : Partition → Type 0) (m : Op A)
    : Type 0 where
  pub at : (s : Store) → partition_of name s ≡ p → Touched name Q s (m s).0

Touched-same :
    (name : String) (Q : Partition → Type 0) (s s' : Store)
    → s'.knowledge ≡ s.knowledge
    → Q (partition_of name s)
    → Touched name Q s s'
Touched-same name Q s s' h q = record { others = λ k other. rw h refl; this = rw h q }

pub Touched-after :
    (name : String) (Q : Partition → Type 0) (a b c : Store)
    → b.knowledge ≡ a.knowledge
    → Touched name Q b c
    → Touched name Q a c
Touched-after name Q a b c h t = record {
  others = λ k other. t.others k other ∙ (rw h refl);
  this = t.this;
}

Touched-before :
    (name : String) (Q : Partition → Type 0) (a b c : Store)
    → c.knowledge ≡ b.knowledge
    → Touched name Q a b
    → Touched name Q a c
Touched-before name Q a b c h t = record {
  others = λ k other. rw h (t.others k other);
  this = rw h t.this;
}

pub Touches-Still :
    {A : Type 0} (name : String) (p : Partition) (Q : Partition → Type 0) (m : Op A)
    → Still m
    → Q p
    → Touches name p Q m
Touches-Still name p Q m h q = record {
  at = λ s same. Touched-same name Q s (m s).0 (h.at s) (rw same q);
}

module _ {A B : Type 0} (name : String) (p : Partition) (Q : Partition → Type 0) where
  pub Touches-bind :
      (m : Op A) (f : A → Op B)
      → Still m
      → Q p
      → ((a : A) → Touches name p Q (f a))
      → Touches name p Q (m >>= f)
  Touches-bind m f h q next = record { at = λ s same. by_result s (m s).0 (m s).1 same (h.at s) }
    where
      by_result :
          (s s' : Store) (r : Result A)
          → partition_of name s ≡ p
          → s'.knowledge ≡ s.knowledge
          → Touched name Q s
              (let x : Store × Result B = elim r [ ok a ↦ f a s' | err e ↦ (s', err e) ] in x).0
      by_result s s' (ok a) same g =
          Touched-after name Q s s' (f a s').0 g ((next a).at s' (rw g same))
      by_result s s' (err e) same g = Touched-same name Q s s' g (rw same q)

  pub Touches-seq :
      (m : Op A) (k : Op B) → Still m → Q p → Touches name p Q k → Touches name p Q (m >> k)
  Touches-seq m k h q next = record { at = λ s same. by_result s (m s).0 (m s).1 same (h.at s) }
    where
      by_result :
          (s s' : Store) (r : Result A)
          → partition_of name s ≡ p
          → s'.knowledge ≡ s.knowledge
          → Touched name Q s
              (let x : Store × Result B = elim r [ ok a ↦ k s' | err e ↦ (s', err e) ] in x).0
      by_result s s' (ok a) same g = Touched-after name Q s s' (k s').0 g (next.at s' (rw g same))
      by_result s s' (err e) same g = Touched-same name Q s s' g (rw same q)

  pub Touches-then :
      (m : Op A) (k : Op B) → Touches name p Q m → Still k → Touches name p Q (m >> k)
  Touches-then m k h next = record { at = λ s same. by_result s (m s).0 (m s).1 (h.at s same) }
    where
      by_result :
          (s s' : Store) (r : Result A)
          → Touched name Q s s'
          → Touched name Q s
              (let x : Store × Result B = elim r [ ok a ↦ k s' | err e ↦ (s', err e) ] in x).0
      by_result s s' (ok a) g = Touched-before name Q s s' (k s').0 (next.at s') g
      by_result s s' (err e) g = g

pub Touches-choose :
    {A : Type 0} (name : String) (p : Partition) (Q : Partition → Type 0) (b : Bool) (m k : Op A)
    → Touches name p Q m
    → Touches name p Q k
    → Touches name p Q (choose b m k)
Touches-choose name p Q true m k hm hk = hm
Touches-choose name p Q false m k hm hk = hk

-- A write of the partition.
pub Touches-set_partition :
    (name : String) (p p' : Partition) (Q : Partition → Type 0)
    → Q p'
    → Touches name p Q (set_partition name p')
Touches-set_partition name p p' Q q = record {
  at = λ s same. record {
    others = λ k other.
        let h = partition_at-put_partition k name p' s.knowledge in
        rw (partition_of, h, other) refl;
    this =
        let h = partition_at-put_partition name name p' s.knowledge in
        let itself : str_eq name name ≡ true = ground (arith, eq_iff name name) in
        rw (partition_of, h, itself) q;
  };
}
