-- ===== src/Loop/Process.antt =====
-- Process of internal/loop/loop.go: the providers of a cycle in their order. A provider is a parameter:
-- what it does to the cycle's state, what it returns, and whether the context is done after it. `none`
-- is a nil provider.
use grodt.Prelude.{
  ℕ, ◌+◌, String, Bool, true, false, ◌⊎◌, inl, inr, Option, none, some, List, [], ◌∷◌, ◌++◌, ◌≡◌,
  refl, ap, arith, if◌then◌else◌, Bool-cases,
}

pub record ObjectiveEvaluation : Type 0 where
  pub achieved : Bool
  pub rationale : String

-- The working set of one cycle.
pub record State : Type 0 where
  pub objective : String
  pub prompt : String
  pub context : List String
  pub response : String
  pub objective_evaluation : Option ObjectiveEvaluation

pub data Answer : Type 0 where
  fell_through handled : Answer
  error : String → Answer

-- `done` is `ctx.Err() != nil` when the provider has returned, and `done_next` at the head of the next
-- turn of the loop.
pub record Reply : Type 0 where
  pub state : State
  pub answer : Answer
  pub done : Bool
  pub done_next : Bool

abbrev pub Provider : Type 0
Provider = State → Reply

pub data Failure : Type 0 where
  context_required state_required context_done unhandled : Failure
  nil_provider : ℕ → Failure
  provider_failed : ℕ → String → Failure

-- The loop, from provider `i` on; `done` is `ctx.Err() != nil` at its head.
unfoldable pub traverse : ℕ → Bool → List (Option Provider) → State → State × Option Failure
traverse i done [] s = (s, some unhandled)
traverse i true (p ∷ ps) s = (s, some context_done)
traverse i false (none ∷ ps) s = (s, some (nil_provider i))
traverse i false (some p ∷ ps) s =
    let r = p s in
    let rest = traverse (i + 1) r.done_next ps r.state in
    elim r.answer [
      | error e ↦ (r.state, some (provider_failed i e))
      | handled ↦ if r.done then (r.state, some context_done) else (r.state, none)
      | fell_through ↦ if r.done then (r.state, some context_done) else rest
    ]

-- `given` says that the context is not nil, and `done` that it has ended at the call.
unfoldable pub process :
    Bool → Bool → Bool → Option State → List (Option Provider) → Option State × Option Failure
unfolding traverse
process false done late s providers = (s, some context_required)
process true done late none providers = (none, some state_required)
process true true late (some s) providers = (some s, some context_done)
process true false late (some s) providers =
    let (s', e) = traverse 0 late providers s in (some s', e)

-- The providers before a handler fall through, with the context live, and pass the state on.
pub data Reaches : List (Option Provider) → State → State → Type 0 where
  here : {s : State} → Reaches [] s s
  past :
      {p : Provider} {ps : List (Option Provider)} {s t : State}
      → (p s).answer ≡ fell_through
      → (p s).done ≡ false
      → Reaches ps (p s).state t
      → Reaches (some p ∷ ps) s t

-- The handler that ends the chain, with what stands before and after it.
pub record HandledBy (providers : List (Option Provider)) (s t : State) : Type 0 where
  pub before : List (Option Provider)
  pub handler : Provider
  pub after : List (Option Provider)
  pub reached : State
  pub split : providers ≡ before ++ (some handler ∷ after)
  pub fell : Reaches before s reached
  pub took : (handler reached).answer ≡ handled
  pub live : (handler reached).done ≡ false
  pub result : (handler reached).state ≡ t

Answer-cases : (a : Answer) → ((a ≡ fell_through) ⊎ (a ≡ handled)) ⊎ ((e : String) × (a ≡ error e))
Answer-cases fell_through = inl (inl refl)
Answer-cases handled = inl (inr refl)
Answer-cases (error e) = inr (e, refl)

traverse-HandledBy :
    (i : ℕ) (done : Bool) (providers : List (Option Provider)) (s t : State)
    → traverse i done providers s ≡ (t, none)
    → HandledBy providers s t
unfolding traverse
traverse-HandledBy i done [] s t h = absurd (ground arith)
traverse-HandledBy i true (p ∷ ps) s t h = absurd (ground arith)
traverse-HandledBy i false (none ∷ ps) s t h = absurd (ground arith)
traverse-HandledBy i false (some p ∷ ps) s t h = elim (Answer-cases (p s).answer) [
  | inl (inl fell) ↦ elim (Bool-cases (p s).done) [
    | inl over ↦ absurd (ground (arith, fell, over))
    | inr live ↦
        let rest =
          traverse-HandledBy (i + 1) (p s).done_next ps (p s).state t
            (ground (arith, fell, live)) in
        record {
          before = some p ∷ rest.before;
          handler = rest.handler;
          after = rest.after;
          reached = rest.reached;
          split = ap (λ (qs : List (Option Provider)). some p ∷ qs) rest.split;
          fell = past fell live rest.fell;
          took = rest.took;
          live = rest.live;
          result = rest.result;
        }
  ]
  | inl (inr took) ↦ elim (Bool-cases (p s).done) [
    | inl over ↦ absurd (ground (arith, took, over))
    | inr live ↦ record {
      before = [];
      handler = p;
      after = ps;
      reached = s;
      split = refl;
      fell = here;
      took = took;
      live = live;
      result = ground (arith, took, live);
    }
  ]
  | inr (e, failed) ↦ absurd (ground (arith, failed))
]

-- If Process returns no error on a state, then some provider handled the request: the providers
-- before it fell through in their order, each on the state that the one before it left and with the
-- context live right after it, the handler left the context live too, and the state returned is the
-- handler's.
pub process-HandledBy :
    (given done late : Bool) (s t : State) (providers : List (Option Provider))
    → process given done late (some s) providers ≡ (some t, none)
    → HandledBy providers s t
unfolding process
process-HandledBy false done late s t providers h = absurd (ground arith)
process-HandledBy true true late s t providers h = absurd (ground arith)
process-HandledBy true false late s t providers h =
    traverse-HandledBy 0 late providers s t (ground (arith, h))
