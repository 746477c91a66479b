-- ===== src/Tests/Component.antt =====
-- A component whose plugin "p" can be made and any other cannot.
use megastructure.Common.{◌≡◌, true, false, [], ◌∷◌, none, some, str_eq}
use megastructure.Protocol.{Message}
use megastructure.Component.State.{ComponentState}
use megastructure.Component.Jobs.{Plugins}
use megastructure.Component.Requests.{load_once, load_once-answers}

abbrev plugins : Plugins
plugins = record {
  makes = λ program. str_eq program.program_name "p";
  loads = λ program. true;
  saves = λ program. true;
}

abbrev running : ComponentState
running = record {
  program = some (record { host_name = "h"; program_name = "p" });
  slave_workspace_path = "/w";
  slave_name = "one";
  sent = [];
  sent_eg = [];
  posted = [];
  jobs = [];
  completed_jobs = [];
  next_job = 4;
}

load_once-answers_example : load_once plugins "h" "q" (("h", "p") ∷ []) running ≡ (
  none,
  record running {
    program = none;
    sent = Message.hcs_load false ∷ Message.hcs_load false ∷ [];
    jobs = 4 ∷ [];
    completed_jobs = 4 ∷ [];
    next_job = 5;
  },
)
load_once-answers_example = load_once-answers plugins "h" "q" (("h", "p") ∷ []) running
