-- ===== src/Examples/Chains.antt =====
-- A chain of three stages in a workflow.
use agentic_engineering_url.Prelude.{String, ◌≡◌, refl, none, List, [], ◌∷◌, arith, ok, ◌>>=◌}
use agentic_engineering_url.Sql.{count, fetch, select}
use agentic_engineering_url.Schema.{Db, empty_db, empty_flow}
use agentic_engineering_url.Orchestration.Models.{get_dependencies}
use agentic_engineering_url.Scripts.Demo.{Run}
use agentic_engineering_url.Scripts.Greenfield.{add_chain, drive_chain}
use agentic_engineering_url.Scripts.Greenfield.Chain.{IsDriven}
use agentic_engineering_url.Scripts.Greenfield.Succeeds.{any_chain_succeeds}
use agentic_engineering_url.Examples.Data.{workflow_a}

abbrev run_a : Run
run_a = record {
  workflow = "w1";
  worker = "greenfield-demo-worker";
  now = 7;
  execution_id = λ id. id;
}

abbrev one_workflow : Db
one_workflow = record empty_db { flow = record empty_flow { workflows = workflow_a ∷ [] } }

abbrev three_stages : List (String × String)
three_stages = ("s1", "design") ∷ ("s2", "implementation") ∷ ("s3", "testing") ∷ []

any_chain_succeeds_example :
    (db' : Db) × ((add_chain run_a none three_stages one_workflow
        >>= drive_chain run_a three_stages)
      ≡ ok db')
    × IsDriven ("s1" ∷ "s2" ∷ "s3" ∷ []) one_workflow db'
unfolding count fetch select get_dependencies
any_chain_succeeds_example =
    any_chain_succeeds run_a three_stages one_workflow (λ id. omega arith) (λ id. tt)
      (refl, (refl, (refl, tt))) ((refl, refl), ((refl, refl), ((refl, refl), tt))) refl
