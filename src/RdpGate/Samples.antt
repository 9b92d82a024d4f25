-- ===== src/RdpGate/Samples.antt =====
-- A host of the gateway whose pipe gives the nonce in two chunks, and a server that grants.
use ligament_apps.Common.{
  ℕ, zero, suc, ◌≤◌, ◌≡◌, refl, true, false, none, some, [], ◌∷◌, arith, length, take,
}
use Prim.{tt}
use ligament_apps.Common.Text.{Text, codes}
use ligament_apps.Config.{InternetScheme, default_config}
use ligament_apps.Config.Load.{Key, RegType}
use ligament_apps.Credential.{Credential, Task, WorkerJob, gate, Reply}
use ligament_apps.Credential.History.{created}
use ligament_apps.Credential.Worker.{worker_step}
use ligament_apps.Json.{extract_json_bool, extract_json_string, escape_json, find_colon}
use ligament_apps.Json.Fields.{read_object}
use ligament_apps.Http.{Request}
use ligament_apps.RdpGate.{
  Pipe, System, read_agent_key, current_logon_id_hex, current_user_sid, query_assertion_nonce,
  gate_body, ask_server, prepare, read_body, gate_answer, post_request, check_rdp_mfa_satisfied,
  poll_pipe, pipe_reply, nonce_request, is_whole,
}
use ligament_apps.RdpGate.Body.{read_object-gate_body}
use ligament_apps.RdpGate.Nonce.{query_assertion_nonce-chunks}
use ligament_apps.RdpGate.Verdict.{IsAsked, IsGranted, satisfied-IsAsked}
use ligament_apps.RdpGate.Grant.{gate_reply, gate_grants}

abbrev first_chunk : Text
first_chunk = codes "{\"nonce\""

abbrev last_chunk : Text
last_chunk = codes ":\"ab\"}"

abbrev chunk_at : ℕ → Text
chunk_at zero = first_chunk
chunk_at (suc zero) = []
chunk_at (suc (suc zero)) = last_chunk
chunk_at (suc (suc (suc n))) = []

abbrev service : Pipe
service = record {
  waited = true;
  opened = true;
  write = λ s. some (length s);
  peek = λ poll. some (length (chunk_at poll));
  read = λ poll want. some (take want (chunk_at poll));
}

length-take : (n : ℕ) (s : Text) → length (take n s) ≤ n
length-take zero s = omega arith
length-take (suc n) [] = omega arith
length-take (suc n) (c ∷ s) = omega (arith, length-take n s)

abbrev logon : Text
logon = codes "0"

abbrev user : Text
user = codes "u"

abbrev sid : Text
sid = codes "S-1-5-18"

taken :
    is_whole (length (nonce_request logon user sid)) (service.write (nonce_request logon user sid))
    ≡ true
unfolding nonce_request escape_json
taken = refl

query_assertion_nonce-chunks_example : query_assertion_nonce service logon user sid ≡ codes "ab"
query_assertion_nonce-chunks_example =
    query_assertion_nonce-chunks service logon user sid (codes "ab") (codes "}")
      (first_chunk ∷ [] ∷ last_chunk ∷ []) refl refl taken
      (omega arith, refl, (omega arith, refl, (omega arith, refl)))
      (refl, λ _. refl, (refl, λ _. refl, (refl, λ _. refl, tt))) (omega arith) (omega arith) refl
      refl

abbrev agent_key : Key
agent_key name size = record {
  ok = true;
  kind = RegType.sz;
  size = 4;
  text = codes "k";
  number = 0;
}

abbrev host : System
host = record {
  policy_key = none;
  local_key = some agent_key;
  statistics = record { need = 56; answer = some (0, 1000) };
  token_user = record { need = 28; answer = some (some sid) };
  pipe = service;
  to_utf8 = λ s. s;
  crack = λ url. some (record { scheme = InternetScheme.https; host = url; port = 443 });
  has_session = true;
  has_connection = true;
  has_request = true;
  post = λ _ _.
      some
        (200, record { available = some 18; data_read = some (codes "{\"satisfied\":true}") } ∷ []);
}

satisfied :
    (check_rdp_mfa_satisfied host (codes "h") user (codes "PC") false false).satisfied ≡ true
unfolding check_rdp_mfa_satisfied prepare ask_server gate_answer post_request read_body
    extract_json_bool query_assertion_nonce read_agent_key current_logon_id_hex current_user_sid
    pipe_reply poll_pipe extract_json_string find_colon nonce_request escape_json
satisfied = refl

satisfied-IsAsked_example :
    (request : Request) × (headers : Text) × IsAsked host
      (codes "h")
      user
      (codes "PC")
      false
      false
      request
      headers
    × IsGranted host request headers
satisfied-IsAsked_example =
    satisfied-IsAsked host (codes "h") user (codes "PC") false false satisfied

read_object-gate_body_example :
    (read_object 5 (
        gate_body
          (codes "ab")
          (codes "PC")
          (current_logon_id_hex host.statistics)
          (codes "a\"b")
          sid)
      ≡ some (
          (codes "nonce", codes "ab")
          ∷ (codes "machine", codes "PC")
          ∷ (codes "logon_id", current_logon_id_hex host.statistics)
          ∷ (codes "username", codes "a\"b")
          ∷ (codes "user_sid", sid)
          ∷ []))
    × (read_object 3 (nonce_request (current_logon_id_hex host.statistics) (codes "a\"b") sid)
        ≡ some (
            (codes "logon_id", current_logon_id_hex host.statistics)
            ∷ (codes "username", codes "a\"b")
            ∷ (codes "user_sid", sid)
            ∷ []))
read_object-gate_body_example =
    read_object-gate_body host.statistics (codes "ab") (codes "PC") (codes "a\"b") sid

abbrev task : Task
task = record { job = WorkerJob.start_push; user = user; domain = []; pass = codes "p"; otp = [] }

abbrev at_gate : Credential
at_gate = record created {
  config = record default_config { server_url = codes "h" };
  pc = gate task;
}

abbrev silent : Reply
silent = record {
  gate_satisfied = false;
  ok = false;
  error = [];
  retry_after = 0;
  challenge_id = [];
  number_match = [];
  handle = [];
  qr_drawn = false;
  status = [];
  sso_ticket = [];
}

not_confirmed : at_gate.authenticated ≡ false
unfolding created
not_confirmed = refl

confirmed :
    (worker_step (gate_reply host (codes "PC") at_gate task silent) at_gate).authenticated ≡ true
unfolding gate_reply worker_step created default_config check_rdp_mfa_satisfied prepare ask_server
    gate_answer post_request read_body extract_json_bool query_assertion_nonce read_agent_key
    current_logon_id_hex current_user_sid pipe_reply poll_pipe extract_json_string find_colon
    nonce_request escape_json
confirmed = refl

gate_grants_example :
    (at_gate.worker.stop ≡ false)
    × ((request : Request) × (headers : Text) × IsAsked host at_gate.config.server_url user
          (codes "PC")
          at_gate.config.allow_self_signed
          at_gate.config.allow_http
          request
          headers
        × IsGranted host request headers)
gate_grants_example = gate_grants host (codes "PC") task silent at_gate refl not_confirmed confirmed
