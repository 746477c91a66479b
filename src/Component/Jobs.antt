-- ===== src/Component/Jobs.antt =====
-- LoadProgramJob and ConfigJob of src/component/jobs.cpp, which run on the thread of the simulation.
use megastructure.Common.{
  ℕ, Bool, true, false, not, ◌&&◌, Option, none, some, String, if◌then◌else◌, str_eq,
}
use megastructure.Protocol.Helpers.{ConfigActivityType}
use megastructure.Component.State.{LoadedProgram, ComponentState, job_complete, set_program}

pub record LoadProgramJob : Type 0 where
  pub host_name : String
  pub program_name : String
  pub new_program : Option LoadedProgram
  pub success : Bool

pub record ConfigJob : Type 0 where
  pub activity_type : ConfigActivityType
  pub success : Bool

-- What the plugins do: whether a program can be made, and whether one can load or save its
-- configuration; what they cannot do throws.
pub record Plugins : Type 0 where
  pub makes : LoadedProgram → Bool
  pub loads : LoadedProgram → Bool
  pub saves : LoadedProgram → Bool

module _ (plugins : Plugins) where
  -- The try block of LoadProgramJob::run.
  unfoldable pub load_job_try : LoadProgramJob → LoadProgramJob
  load_job_try j =
      let new : LoadedProgram = record { host_name = j.host_name; program_name = j.program_name } in
      if not (str_eq j.host_name "") && not (str_eq j.program_name "")
      then (if plugins.makes new
          then record j { new_program = some new; success = true }
          else record j { new_program = none })
      else record j { new_program = none; success = true }

  -- LoadProgramJob::run of the job `n`.
  unfoldable pub load_job_run :
      ℕ → LoadProgramJob → ComponentState → LoadProgramJob × ComponentState
  unfolding load_job_try set_program job_complete
  load_job_run n j c =
      let j' = load_job_try j in (j', job_complete n (set_program j'.new_program c))

  -- Component::loadConfig and Component::saveConfig: whether they return.
  abbrev pub load_config : ComponentState → Bool
  load_config c = elim c.program [ none ↦ true | some p ↦ plugins.loads p ]

  abbrev pub save_config : ComponentState → Bool
  save_config c = elim c.program [ none ↦ true | some p ↦ plugins.saves p ]

  unfoldable pub config_job_try : ConfigActivityType → ComponentState → Bool
  config_job_try ConfigActivityType.config_loading c = load_config c
  config_job_try ConfigActivityType.config_saving c = save_config c
  config_job_try ConfigActivityType.total_config_activity_types c = false

  -- ConfigJob::run
  unfoldable pub config_job_run : ℕ → ConfigJob → ComponentState → ConfigJob × ComponentState
  unfolding config_job_try job_complete
  config_job_run n j c = (
    if config_job_try j.activity_type c then record j { success = true } else j,
    job_complete n c,
  )
