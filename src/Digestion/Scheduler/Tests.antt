-- ===== src/Digestion/Scheduler/Tests.antt =====
-- Runs of the scheduler on a cron that is a list of jobs.
use manju_backend.Prelude.{
  ℕ, suc, ◌≡◌, ◌<◌, refl, ap, ◌+◌, String, false, not, List, [], ◌∷◌, ◌++◌, ◌==◌, arith,
}
use manju_backend.Exec.{ok, Result}
use manju_backend.Table.{where_rows, any_row}
use manju_backend.Digestion.Scheduler.{Cron, new_scheduler}
use manju_backend.Digestion.Scheduler.InStep.{Job, IsCron, IsInStep}

abbrev total : List Job → ℕ
total [] = 0
total (j ∷ jobs) = j.id + total jobs

abbrev pub job_list : Cron (List Job)
job_list = record {
  add_func = λ spec source jobs. (
    ok (suc (total jobs)),
    jobs ++ record { id = suc (total jobs); spec = spec; source = source } ∷ [],
  );
  remove = λ id jobs. where_rows (λ j. not (j.id == id)) jobs;
  start = λ jobs. jobs;
  stop = λ jobs. jobs;
}

above_total :
    (n : ℕ) (jobs : List Job) → total jobs < n → any_row (λ (j : Job). j.id == n) jobs ≡ false
above_total n [] h = refl
above_total n (j ∷ jobs) h = ground (arith, above_total n jobs)

abbrev pub shown : ℕ → String
shown n = "60"

abbrev pub all_jobs : List Job → List Job
all_jobs jobs = jobs

same_id :
    (jobs : List Job) (id : ℕ)
    → ◌≡◌ {A = Result ℕ} (ok (suc (total jobs))) (ok id)
    → suc (total jobs) ≡ id
same_id jobs id e = cc e

added :
    (jobs : List Job) (spec : String) (source id : ℕ)
    → ◌≡◌ {A = Result ℕ} (ok (suc (total jobs))) (ok id)
    → jobs ++ record { id = suc (total jobs); spec = spec; source = source } ∷ []
      ≡ jobs ++ record { id = id; spec = spec; source = source } ∷ []
added jobs spec source id e =
    ap (λ n. jobs ++ record { id = n; spec = spec; source = source } ∷ []) (same_id jobs id e)

unused :
    (jobs : List Job) (id : ℕ)
    → ◌≡◌ {A = Result ℕ} (ok (suc (total jobs))) (ok id)
    → any_row (λ (j : Job). j.id == id) jobs ≡ false
unused jobs id e = above_total id jobs (omega (arith, same_id jobs id e))

pub job_list-IsCron : IsCron job_list shown all_jobs
job_list-IsCron = record {
  accepts = λ seconds source jobs. (suc (total jobs), refl);
  added = λ spec source jobs id e. added jobs spec source id e;
  fresh = λ spec source jobs id e. unused jobs id e;
  removed = λ id jobs. refl;
}

pub empty_scheduler-IsInStep : IsInStep all_jobs (new_scheduler [])
unfolding new_scheduler
empty_scheduler-IsInStep = record {
  current = tt;
  runs = λ source id e. cc e;
  apart = λ a b id e f. cc e;
}

abbrev named : ℕ → String
named id = "source"
