-- ===== src/Scenarios/Outside.antt =====
-- Generate, Process and a JSON pointer on concrete arguments.
use grodt.Prelude.{true, false, none, some, [], ◌∷◌, ◌≡◌, refl, ltb, if◌then◌else◌}
use grodt.State.Evidence.{Json, array, string, nil, cons, object, end, field, codes, split, walk}
use grodt.State.Evidence.Pointer.{pointer, value_at, walk-pointer}
use grodt.Structured.{World, Checked, generate}
use grodt.Loop.Process.{
  State, Provider, fell_through, handled, process, HandledBy, process-HandledBy,
}

-- The first two candidates break the schema.
abbrev correcting : World
correcting = record {
  context_given = true;
  cancelled_before = λ n. false;
  cancelled_inferred = λ n. false;
  cancelled_validated = λ n. false;
  infer = λ n feedback. record {
    json = "{}";
    usage = some record { prompt_tokens = 1; completion_tokens = 2; total_tokens = 3 };
    provider_error = false;
  };
  valid_json = λ json. true;
  validate = λ n json. if ltb n 2 then Checked.invalid "no" else Checked.valid;
  feedback = λ candidate details. some details;
}

requests_test : (generate correcting).0.requests ≡ 3
unfolding generate
requests_test = refl

abbrev answer : State
answer = record {
  objective = "o";
  prompt = "p";
  context = [];
  response = "";
  objective_evaluation = none;
}

abbrev passes : Provider
passes s = record {
  state = record s { context = "seen" ∷ s.context };
  answer = fell_through;
  done = false;
  done_next = false;
}

abbrev answers : Provider
answers s = record {
  state = record s { response = "done" };
  answer = handled;
  done = false;
  done_next = false;
}

abbrev answered : State
answered = record answer { context = "seen" ∷ []; response = "done" }

processed_test :
    process true false false (some answer) (some passes ∷ some answers ∷ []) ≡ (some answered, none)
unfolding process
processed_test = refl

process-HandledBy_example : HandledBy (some passes ∷ some answers ∷ []) answer answered
process-HandledBy_example =
    process-HandledBy true false false answer answered (some passes ∷ some answers ∷ [])
      processed_test

-- `{"a/b~": ["x"]}`
abbrev nested : Json
nested = object (field "a/b~" (array (cons (string "x") nil)) end)

pointer_test : walk (split b'/' (codes "a~1b~0/0")) nested ≡ some (string "x")
unfolding split walk
pointer_test = refl

walk-pointer_example :
    walk (split b'/' (pointer (codes "a/b~") (codes "0" ∷ []))) nested
    ≡ value_at (codes "a/b~" ∷ codes "0" ∷ []) nested
walk-pointer_example = walk-pointer (codes "a/b~") (codes "0" ∷ []) nested
