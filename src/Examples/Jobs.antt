-- ===== src/Examples/Jobs.antt =====
-- The theorems on jobs at concrete inputs.
use cyclope_central.Base.{
  ◌≤◌, ◌≡◌, ◌⊎◌, Option, take, refl, true, false, none, some, [], ◌∷◌, ◌++◌, length, All, is_in,
}
use cyclope_central.Base.Int.{pos}
use cyclope_central.Base.Json.{Text, Dict, str, codes}
use cyclope_central.Http.{ok, is_ok}
use cyclope_central.Session.{get, select}
use cyclope_central.Models.Job.{JobStatus, AgentJob}
use cyclope_central.Database.{Db, empty, flush}
use cyclope_central.Auth.Roles.{role_permissions, require_permission}
use cyclope_central.Jobs.Payload.{validate_job_payload, allowed_job_types}
use cyclope_central.Jobs.Payload.Canonical.{
  IsSafe, validate_job_payload-IsSafe, validate_job_payload_idem,
}
use cyclope_central.Jobs.Core.{Completion, start_job, complete_job, cancel_job, is_terminal}
use cyclope_central.Jobs.Core.Transitions.{
  IsWorkable, Changes, start_job-Changes, complete_job-Changes, terminal_is_final,
}
use cyclope_central.Jobs.Queue.{waiting_jobs, assign_jobs_for_agent, is_overdue, expire_jobs}
use cyclope_central.Jobs.Queue.Expiry.{IsNotOverdue, expire_jobs-IsNotOverdue}
use cyclope_central.Jobs.Api.{keys_of, JobResponse, cancel_agent_job}
use cyclope_central.Jobs.Api.Tenants.{cancel_agent_job-IsOwned}
use cyclope_central.Jobs.Lifecycle.{IsConsistent}
use cyclope_central.Jobs.Lifecycle.Sound.{IsSound}
use cyclope_central.Jobs.Lifecycle.Reachable.{cancel, here, next, Reach-IsSound}
use cyclope_central.Jobs.Sweep.{sweep_is_ignored, IsAssignedTo, poll_hands_out}
use cyclope_central.Examples.{value_of, test_parse, saved, boss, laptop_agent, ping, office_db}

abbrev done : Completion
done = record {
  succeeded = true;
  output = codes "pong";
  error = none;
  exit_code = some (pos 0);
  metadata = [];
}

abbrev running_ping : AgentJob
running_ping = record ping {
  status = JobStatus.running;
  assigned_agent_id = some 4;
  started_at = some 15;
}

abbrev running_db : Db
running_db = record office_db { jobs = saved 5 running_ping }

abbrev started_db : Db
started_db = value_of empty (start_job 15 5 ping 4 laptop_agent office_db)

office_db-IsSound : IsSound office_db
unfolding is_terminal cyclope_central.Jobs.Lifecycle.is_begun cyclope_central.Jobs.Lifecycle.is_held
office_db-IsSound = record {
  clean = (refl, tt);
  consistent = (record { closed = refl; begun = refl; held = refl }, tt);
}

abbrev canceled_db : Db
canceled_db = flush (cancel_job 15 5 ping office_db)

Reach-IsSound_example : IsSound canceled_db
unfolding get
Reach-IsSound_example = Reach-IsSound office_db-IsSound (next here (cancel 15 5 ping refl refl))

start_job-Changes_example :
    IsWorkable ping 4 laptop_agent
    × ((JobStatus.queued ≡ JobStatus.queued) ⊎ (JobStatus.queued ≡ JobStatus.assigned))
    × Changes 5 running_ping office_db started_db
unfolding get start_job
start_job-Changes_example =
    start_job-Changes 15 5 ping 4 laptop_agent office_db started_db refl refl

abbrev completed_db : Db
completed_db = value_of empty (complete_job 20 5 running_ping 4 laptop_agent done running_db)

complete_job-Changes_example :
    IsWorkable running_ping 4 laptop_agent
    × (JobStatus.running ≡ JobStatus.running)
    × ((summary : Option Text) × Changes 5
          (record running_ping {
            status = JobStatus.succeeded;
            completed_at = some 20;
            result_summary = summary;
          })
          running_db
          completed_db)
    × ((error : Option Text) × (completed_db.job_results
          ≡ []
            ++ record {
              organization_id = 1;
              job_id = 5;
              status = JobStatus.succeeded;
              output = take 20000 done.output;
              error = error;
              exit_code = done.exit_code;
              metadata_json = done.metadata;
            }
              ∷ []))
unfolding get complete_job
complete_job-Changes_example =
    complete_job-Changes 20 5 running_ping 4 laptop_agent running_db done completed_db refl refl

abbrev failed_ping : AgentJob
failed_ping = record ping { status = JobStatus.failed; completed_at = some 18 }

terminal_is_final_example :
    (cancel_job 20 5 failed_ping office_db ≡ office_db)
    × (is_ok (start_job 20 5 failed_ping 4 laptop_agent office_db) ≡ false)
    × (is_ok (complete_job 20 5 failed_ping 4 laptop_agent done office_db) ≡ false)
unfolding is_terminal
terminal_is_final_example = terminal_is_final 20 5 failed_ping 4 laptop_agent done office_db refl

-- at 200 the waiting job is overdue
sweep_is_ignored_example :
    keys_of (assign_jobs_for_agent 200 4 laptop_agent office_db).0
    ≡ keys_of (waiting_jobs laptop_agent office_db)
sweep_is_ignored_example = sweep_is_ignored 200 4 laptop_agent office_db (tt, tt)

poll_hands_out_example :
    (length (assign_jobs_for_agent 15 4 laptop_agent office_db).0 ≤ 5)
    × All (IsAssignedTo 4 laptop_agent) (assign_jobs_for_agent 15 4 laptop_agent office_db).0
unfolding select is_overdue
poll_hands_out_example = poll_hands_out 15 4 laptop_agent office_db (refl, tt) refl

expire_jobs-IsNotOverdue_example :
    All (IsNotOverdue 200 (some 3)) (expire_jobs 200 (some 3) office_db).jobs
expire_jobs-IsNotOverdue_example = expire_jobs-IsNotOverdue 200 (some 3) office_db (refl, tt)

abbrev service : Dict
service = ("service_name", str (codes "Spooler")) ∷ []

validate_job_payload-IsSafe_example :
    (is_in "get_service_status" allowed_job_types ≡ true) × IsSafe service
unfolding validate_job_payload is_in cyclope_central.Jobs.Payload.is_service_char
validate_job_payload-IsSafe_example =
    validate_job_payload-IsSafe test_parse "get_service_status" (some service) service refl

validate_job_payload_idem_example :
    validate_job_payload test_parse "get_service_status" (some service) ≡ ok service
unfolding validate_job_payload is_in cyclope_central.Jobs.Payload.is_service_char
validate_job_payload_idem_example =
    validate_job_payload_idem test_parse "get_service_status" (some (("other", str []) ∷ service))
      service refl

abbrev cancel_response : JobResponse × Db
cancel_response =
    value_of (record { id = 0; job = none; result = none; events = [] }, empty)
      (cancel_agent_job 15 5 boss office_db)

cancel_agent_job-IsOwned_example :
    (is_in "jobs:cancel" (role_permissions "owner") ≡ true)
    × ((job : AgentJob) × (get 5 office_db.jobs ≡ some job)
        × (job.organization_id ≡ 1)
        × (flush (cancel_job 15 5 job office_db) ≡ cancel_response.1))
unfolding cancel_agent_job require_permission is_in cyclope_central.Jobs.Api.owned_job get
cancel_agent_job-IsOwned_example =
    cancel_agent_job-IsOwned 15 5 boss office_db cancel_response.0 cancel_response.1 refl
