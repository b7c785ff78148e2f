-- ===== src/Config/Data.antt =====
-- The parts of `config.data` that jobs, tasks and runners read, as records: a field that the code
-- reads with `get` or may miss is an option, and a section is a dict by name.
use rally_ci.Prelude.{ℕ, String, Bool, Option, List}
use rally_ci.Prelude.Dict.{Dict}
use rally_ci.Python.Value.{Value}

-- An item of `config.job.runner.vms`
pub record VmLocal : Type 0 where
  pub name : String
  pub scripts : Option (List String)
  pub scp : Option (List (String × String))

-- `config.job.runner`
pub record RunnerLocal : Type 0 where
  pub name : String
  pub vms : List VmLocal

pub record JobConfig : Type 0 where
  pub name : String
  pub timeout : Option ℕ
  pub env : Option (Dict Value)
  pub runner : Option RunnerLocal

pub record ProjectConfig : Type 0 where
  pub jobs : Option (List String)
  pub non_voting_jobs : Option (List String)
  pub on_ref_updated : Option (List String)

pub record RunnerConfig : Type 0 where
  pub provider : String
  pub logs : String

pub record Script : Type 0 where
  pub interpreter : String
  pub body : String
  pub user : Option String

-- The config of a stream. `ssh` is left to the client that it is passed to.
pub record StreamConfig : Type 0 where
  pub env : Option (Dict String)
  pub silent : Bool
  pub vote : Bool
  pub comment_header : Option String
  pub comment_job_template : Option String
  pub recheck_regexp : Option String

pub record Data : Type 0 where
  pub job : Dict JobConfig
  pub project : Dict ProjectConfig
  pub runner : Dict RunnerConfig
  pub script : Dict Script
