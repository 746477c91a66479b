-- ===== src/Component/State.antt =====
-- class Component of src/component/component.cpp and api/megastructure/component.hpp as its jobs and
-- activities see it.
use megastructure.Common.{ℕ, List, [], ◌∷◌, ◌++◌, Option, String}
use megastructure.Protocol.{Message}
use megastructure.Queue.{Post}

-- A program is known by the names with which it was made.
pub record LoadedProgram : Type 0 where
  pub host_name : String
  pub program_name : String

-- `sent` and `sent_eg` are what was sent on the two sockets, oldest first; `posted` and `completed_jobs` are
-- what was posted to the queue about activities and jobs, which are known by numbers; `jobs` are
-- the jobs that the next cycle runs.
pub record ComponentState : Type 0 where
  pub program : Option LoadedProgram
  pub slave_workspace_path : String
  pub slave_name : String
  pub sent : List Message
  pub sent_eg : List Message
  pub posted : List Post
  pub jobs : List ℕ
  pub completed_jobs : List ℕ
  pub next_job : ℕ

unfoldable pub send : Message → ComponentState → ComponentState
send message c = record c { sent = c.sent ++ (message ∷ []) }

unfoldable pub send_eg : Message → ComponentState → ComponentState
send_eg message c = record c { sent_eg = c.sent_eg ++ (message ∷ []) }

-- Component::activityComplete and Component::startActivity.
unfoldable pub post : Post → ComponentState → ComponentState
post p c = record c { posted = c.posted ++ (p ∷ []) }

unfoldable pub start_job : ℕ → ComponentState → ComponentState
start_job job c = record c { jobs = c.jobs ++ (job ∷ []) }

unfoldable pub job_complete : ℕ → ComponentState → ComponentState
job_complete job c = record c { completed_jobs = c.completed_jobs ++ (job ∷ []) }

unfoldable pub set_program : Option LoadedProgram → ComponentState → ComponentState
set_program program c = record c { program = program }
