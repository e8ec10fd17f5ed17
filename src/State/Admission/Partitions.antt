-- ===== src/State/Admission/Partitions.antt =====
-- The writes of a broadcast to the partitions (internal/state/store.go).
use mathlib.Core.Path.{subst}
use text.Mathlib.Text.{◌==◌ as str_eq}
use grodt.Prelude.{
  ℕ, ◌+◌, String, Bool, true, false, inl, inr, Option, List, [], ◌∷◌, ◌≡◌, refl, Bool-cases,
}
use grodt.State.Types.{Partition, Event, Source, Correlation}
use grodt.State.Store.{
  Context, Error, Op, Store, refuse, ◌>>=◌, ◌>>◌, Result-cases, get, modify, append_entry,
  context_done,
}
use grodt.State.Plan.EqualityLaws.{str_eq_sound}
use grodt.State.Admission.{
  World, Definition, partition_of, is_accepted, handle_reply, broadcast_one, broadcast, admissible,
  announce, numbered, journaled, event_of, admit,
}
use grodt.State.Admission.Moves.{
  called, reply_of, Answered, failing, ignoring, processing, mutating, Moved,
}
use grodt.State.Admission.Replies.{handle_reply-Written}
use grodt.State.Admission.Touch.{Touched}
use grodt.State.Admission.Broadcast.{admissible-same}

refuse_stops :
    (b : Bool) (x : Error) (k : Op Unit) (s : Store) → b ≡ true → ((refuse b x >> k) s).0 ≡ s
refuse_stops true x k s h = refl
refuse_stops false x k s h = cc

refuse_passes :
    (b : Bool) (x : Error) (k : Op Unit) (s : Store) → b ≡ false → (refuse b x >> k) s ≡ k s
refuse_passes true x k s h = cc
refuse_passes false x k s h = refl

-- The turn after its test of the context.
abbrev turn : World → Context → Event → Definition → Op Unit
turn w c e d = do
  s ← get
  modify λ s. record s { tick = s.tick + 1 }
  handle_reply w c d e (partition_of d.name s) (reply_of w c e d s)

-- A done context ends the turn before the call.
broadcast_one_done :
    (w : World) (c : Context) (e : Event) (d : Definition) (s : Store)
    → c.done s.tick ≡ true
    → (broadcast_one w c e d s).0 ≡ s
unfolding broadcast_one
broadcast_one_done w c e d s done = refuse_stops (c.done s.tick) context_done (turn w c e d) s done

broadcast_one_live :
    (w : World) (c : Context) (e : Event) (d : Definition) (s : Store)
    → c.done s.tick ≡ false
    → broadcast_one w c e d s
      ≡ handle_reply w c d e (partition_of d.name s) (reply_of w c e d s) (called w c e d s)
unfolding broadcast_one
broadcast_one_live w c e d s live = refuse_passes (c.done s.tick) context_done (turn w c e d) s live

-- The turn of a definition in a broadcast writes no other partition. Its own stays as it was if the
-- context was done before the call or if the module's answer decodes to a result that fits the
-- store with the status ignored. It is marked as failed under the kind and code of the cause, with
-- value, progress, version and positions kept, if the call fails, if the context is done after it,
-- if the answer does not decode, if the result's requests or progress do not fit the store, if its
-- status is error, or if the candidate of a mutation is missing or not admitted. If such a result
-- has the status processed, the event is recorded as processed, the failures are over, the result's
-- progress is taken, and value and version stay. If the status is mutation, the same holds with the
-- candidate, which the result gives and the schema admits, as the value of the next version.
pub broadcast_one-Touched :
    (w : World) (c : Context) (e : Event) (d : Definition) (s : Store)
    → Touched d.name (Moved w c e d s) s (broadcast_one w c e d s).0
broadcast_one-Touched w c e d s = elim (Bool-cases (c.done s.tick)) [
  | inl done ↦
      rw (broadcast_one_done w c e d s done)
        (record { others = λ k other. refl; this = inl (done, refl) })
  | inr live ↦
      let t = handle_reply-Written w c e d s (reply_of w c e d s) refl in
      rw (broadcast_one_live w c e d s live)
        (record { others = t.others; this = inr (live, t.this) })
]

-- What the schema of a definition admits is valid for its name.
abbrev pub AdmitsOnly : (String → String → Type 0) → List Definition → Type 0
AdmitsOnly Valid [] = Unit
AdmitsOnly Valid (d ∷ definitions) =
    ((n : ℕ) (c : Context) (value : String)
      → is_accepted (d.conforms n c value) ≡ true
      → Valid d.name value)
    × AdmitsOnly Valid definitions

abbrev pub AllValid : (String → String → Type 0) → Store → Type 0
AllValid Valid s = (name : String) → Valid name (partition_of name s).value

Touched-AllValid :
    (Valid : String → String → Type 0) (w : World) (c : Context) (d : Definition) (e : Event)
    (s s' : Store)
    → ((n : ℕ) (c : Context) (value : String)
        → is_accepted (d.conforms n c value) ≡ true
        → Valid d.name value)
    → Touched d.name (Moved w c e d s) s s'
    → AllValid Valid s
    → AllValid Valid s'
Touched-AllValid Valid w c d e s s' admits t valid name = elim (Bool-cases (str_eq d.name name)) [
  | inr other ↦ rw (t.others name other) (valid name)
  | inl same ↦
      let here : d.name ≡ name = str_eq_sound d.name name same in
      subst (λ k. Valid k (partition_of k s').value) here (by_move (partition_of d.name s') t.this)
]
  where
    by_answer : (q : Partition) → Answered w c e d s q → Valid d.name q.value
    by_answer q (failing kind code p fails h) = rw h.value (valid d.name)
    by_answer q (ignoring raw r vetted status) = valid d.name
    by_answer q (processing raw r p vetted status h kept) = rw kept.value (valid d.name)
    by_answer q (mutating raw r candidate p vetted status applied accepted h replaced) =
        rw replaced.value (admits (s.tick + 1) c candidate accepted)

    by_move : (q : Partition) → Moved w c e d s q → Valid d.name q.value
    by_move q (inl (done, same)) = rw same (valid d.name)
    by_move q (inr (live, given)) = by_answer q given

broadcast-AllValid :
    (Valid : String → String → Type 0) (w : World) (c : Context) (e : Event)
    (definitions : List Definition) (s : Store)
    → AdmitsOnly Valid definitions
    → AllValid Valid s
    → AllValid Valid (broadcast w c e definitions s).0
unfolding broadcast
broadcast-AllValid Valid w c e [] s admits valid = valid
broadcast-AllValid Valid w c e (d ∷ definitions) s (admit_one, admits) valid =
    let s₁ = (broadcast_one w c e d s).0 in
    let first =
      Touched-AllValid Valid w c d e s s₁ admit_one (broadcast_one-Touched w c e d s) valid in
    elim (Result-cases (broadcast_one w c e d s).1) [
      | inl (u, done) ↦ rw (done, ◌>>◌) (broadcast-AllValid Valid w c e definitions s₁ admits first)
      | inr (x, stopped) ↦ rw (stopped, ◌>>◌) first
    ]

announce-AllValid :
    (Valid : String → String → Type 0) (w : World) (c : Context) (source : Source)
    (payload : String) (correlation : Option Correlation) (s : Store)
    → AdmitsOnly Valid w.definitions
    → AllValid Valid s
    → AllValid Valid (announce w c source payload correlation s).0
unfolding announce append_entry
announce-AllValid Valid w c source payload correlation s admits valid =
    let e = event_of (numbered s) (s.now s.tick) source payload correlation in
    let heard =
      broadcast-AllValid Valid w c e w.definitions (journaled e (numbered s)) admits valid in
    elim (Result-cases (broadcast w c e w.definitions (journaled e (numbered s))).1) [
      | inl (u, done) ↦ rw (done, ◌>>◌) heard
      | inr (x, stopped) ↦ rw (stopped, ◌>>◌) heard
    ]

-- If what each definition's schema admits is valid for the definition's name, and every partition's
-- value is valid, then every partition's value is valid after an event is admitted, whether or not
-- an error is returned.
pub admit-AllValid :
    (Valid : String → String → Type 0) (w : World) (c : Context) (source : Source)
    (payload : String) (correlation : Option Correlation) (s : Store)
    → AdmitsOnly Valid w.definitions
    → AllValid Valid s
    → AllValid Valid (admit w c source payload correlation s).0
unfolding admit
admit-AllValid Valid w c source payload correlation s admits valid =
    let same = admissible-same w c source payload s in
    elim (Result-cases (admissible w c source payload s).1) [
      | inl (u, done) ↦
          rw (done, ◌>>◌, same)
            (announce-AllValid Valid w c source payload correlation s admits valid)
      | inr (x, stopped) ↦ rw (stopped, ◌>>◌, same) valid
    ]
