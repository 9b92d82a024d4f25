-- ===== src/Http/Samples.antt =====
-- A server that accepts, one that is out of reach, and the calls that ask them.
use ligament_apps.Common.{◌≡◌, refl, ◌≢◌, ◌⊎◌, true, false, none, some, [], arith}
use ligament_apps.Common.Text.{Text, codes, eq_text}
use ligament_apps.Config.{Config, CrackUrl, InternetScheme, default_config}
use ligament_apps.Credential.{Credential, Task, WorkerJob, begin, no_job}
use ligament_apps.Credential.History.{created}
use ligament_apps.Credential.Worker.{worker_step}
use ligament_apps.Credential.Serialize.{fails_open}
use ligament_apps.Json.{extract_json_bool}
use ligament_apps.Http.{Platform, Client, Machine, new_client, send}
use ligament_apps.Http.Calls.{
  start_push, poll_status, verify_combined, web_authn_begin, web_authn_finish, combined_request,
  verify_request,
}
use ligament_apps.Http.Transport.{requests_secure, are_secure}
use ligament_apps.Http.Answers.{verify_combined-IsAccepted, IsAccepted, IsUnavailable}
use ligament_apps.Http.FailOpen.{fail_open_unanswered, job_call, reply_of, JobUnanswered}

abbrev here : Machine
here = record { host_name = codes "PC"; host_ip = []; rdp_ip = none; rdp_name = none }

abbrev https_only : CrackUrl
https_only url = some (record { scheme = InternetScheme.https; host = url; port = 443 })

-- The server accepts what it is asked.
abbrev reached : Platform
reached = record {
  crack = https_only;
  network = λ _. some (200, codes "{\"ok\":true}");
  to_utf8 = λ s. s;
  to_wide = λ s. s;
  has_session = true;
  machine = here;
  atoi = λ _. 0;
}

abbrev offline : Platform
offline = record reached { network = λ _. none }

abbrev client : Client
client = new_client https_only (codes "a") false [] false []

abbrev user : Text
user = codes "u"

abbrev pw : Text
pw = codes "p"

abbrev code : Text
code = codes "1"

code_accepted : (verify_combined reached client user pw code).ok ≡ true
unfolding new_client verify_combined send extract_json_bool
code_accepted = refl

requests_secure_example :
    (are_secure (start_push reached client user pw).requests ≡ true)
    × (are_secure (poll_status reached client code).requests ≡ true)
    × (are_secure (verify_combined reached client user pw code).requests ≡ true)
    × (are_secure (web_authn_begin reached client user pw).requests ≡ true)
    × (are_secure (web_authn_finish reached client code []).requests ≡ true)
requests_secure_example =
    requests_secure reached (codes "a") [] [] false client user pw code code code [] refl

verify_combined-IsAccepted_example :
    IsAccepted reached (combined_request reached client user pw code)
    ⊎ (IsUnavailable reached (combined_request reached client user pw code)
        × IsAccepted reached (verify_request reached client user pw code))
verify_combined-IsAccepted_example =
    verify_combined-IsAccepted reached client user pw code code_accepted

abbrev task : Task
task = record { job = WorkerJob.start_push; user = user; domain = []; pass = pw; otp = [] }

abbrev open_policy : Config
open_policy = record default_config { fail_close = false }

abbrev asking : Credential
asking = record created { config = open_policy; pc = begin task }

not_stopped : asking.worker.stop ≡ false
unfolding created
not_stopped = refl

has_job : task.job ≢ no_job
has_job = ground arith

opened :
    fails_open (worker_step (reply_of offline true task.job (job_call offline client task)) asking)
    ≡ true
unfolding created new_client worker_step reply_of job_call start_push send eq_text
opened = refl

fail_open_unanswered_example :
    (asking.config.fail_close ≡ false) × JobUnanswered offline client task task.job
fail_open_unanswered_example =
    fail_open_unanswered offline client true task asking refl not_stopped has_job opened
