-- ===== src/Tests/Attempts.antt =====
-- Examples of a whole attempt at a synthesis.
use episcience.Base.{refl, ℕ, true, false, none, some, [], ◌∷◌}
use episcience.Base.Results.{ok}
use episcience.Tests.{whole_numbers}
use episcience.Tests.Writing.{texts, recall, template}
use episcience.Tenancy.{Visibility}
use episcience.Synthesis.{SynthesisStatus}
use episcience.Refinement.{SynthesisJobPayload, SynthesisRow}
use episcience.Verifier.{accept}
use episcience.Job.{Store, Session, Course, committed}
use episcience.Job.Courses.{Respectful}
use episcience.Job.Stages.{Handler}
use episcience.Job.Run.{run}
use episcience.Job.Respects.{Respects}
use episcience.Job.Respects.Attempts.{run-Respectful}
use episcience.Job.Answers.{IsAnswer, run-IsAnswer}

abbrev handler : Handler ℕ ℕ ℕ
handler = record {
  cost_budget = 20;
  texts = texts;
  captures_iter = λ t. template;
  complete = λ n. ok n;
  viewer = ok tt;
  recall = recall;
  claims = λ c. some (Visibility.public, 10);
  neighbors = λ c types. [];
  relevance = λ c. 1;
  get_belief = λ c. ok tt;
  from_value = λ v. none;
  to_value = λ o. 0;
  skill_config = none;
  verify = λ t members. accept 1;
  new_cluster_id = λ i. 100;
  child_id = 99;
  embed = ok tt;
  create = λ e. ok 77;
  order_by = λ l. l;
  is_publishable = λ s. true;
  sees = λ e. true;
  novelty_inputs = ok tt;
  score = ok tt;
}

abbrev payload : SynthesisJobPayload ℕ
payload = record {
  synthesis_id = 5;
  query = "aging";
  traversal_config = none;
  agent_id = 7;
  parent_synthesis_id = none;
  prereq_synthesis_ids = [];
  workflow_run_id = none;
  seed_theme_id = none;
}

abbrev row : SynthesisRow ℕ ℕ
row = record {
  id = 5;
  query = "aging";
  agent_id = 7;
  status = SynthesisStatus.pending;
  parent_synthesis_id = none;
  visibility = Visibility.public;
  owner_group_id = some 10;
  skill_name = "baseline";
  refinement_temperature = none;
  prereq_synthesis_ids = [];
  seed_theme_id = none;
  wiki_key = none;
  verifier_outcome = none;
  verifier_attempts = 0;
}

abbrev store : Store ℕ ℕ
store = record {
  rows = record { syntheses = row ∷ []; refines = []; jobs = [] };
  columns = record {
    snapshot_claims = [];
    members = [];
    clusters = [];
    llm_call_count = 0;
    embedded = false;
    narrative = none;
    has_novelty = false;
  };
  tables = record { outbox = []; edges = [] };
}

abbrev session : Session (Store ℕ ℕ)
session = record {
  others = λ n s. s;
  begin = λ n s. ok (record { principal = some 7; writable_groups = 10 ∷ [] });
  commit = λ n. committed;
}

abbrev start : Course (Store ℕ ℕ)
start = record { now = store; opened = 0; done = [] }

run-Respectful_example : Respectful (Respects handler 5) (run handler session payload 7 start).1
run-Respectful_example = run-Respectful handler session payload 7 start tt

run-IsAnswer_example : IsAnswer handler session payload 7 refl (run handler session payload 7 start)
run-IsAnswer_example = run-IsAnswer handler session payload 7 refl store 0
