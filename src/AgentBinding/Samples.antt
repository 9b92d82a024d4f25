-- ===== src/AgentBinding/Samples.antt =====
-- A binding that succeeds, one with a service of another account, and a channel with two requests.
use ligament_apps.Common.{
  ◌+◌, ◌≡◌, refl, ◌↔◌, ◌⊎◌, true, ◌&&◌, some, List, [], ◌∷◌, ◌++◌, leb, if◌then◌else◌, length,
}
use Prim.{tt}
use ligament_apps.Common.Text.{Text, codes, eq_text, eq_icase}
use ligament_apps.Json.Fields.{read_fields}
use ligament_apps.AgentBinding.{LinkService, given, bound, thrown, check_account}
use ligament_apps.AgentBinding.Exchange.{
  bind_over_named_pipe, bind_request, reply_outcome, is_hex_token,
}
use ligament_apps.AgentBinding.Trust.{IsLinkAgent, sent, sent-IsLinkAgent}
use ligament_apps.AgentBinding.Handles.{EndsClean, bind-EndsClean}
use ligament_apps.AgentBinding.Reply.{ok_reply, reply_outcome_iff}
use ligament_apps.AgentBinding.Body.{version_field, read_fields-bind_request}
use ligament_apps.AgentBinding.Handler.{
  Request, new_bridge, Event, call, ends, answers_at, run_bridge, bridge_step,
}
use ligament_apps.AgentBinding.Single.{Inv, calls, run_bridge-Inv}

abbrev sixteen : Text
sixteen = codes "0123456789abcDEF"

abbrev a_token : Text
a_token = sixteen ++ (sixteen ++ (sixteen ++ sixteen))

abbrev url : Text
url = codes "https://s"

abbrev agent : LinkService
agent = record {
  waited = true;
  opened = true;
  server_pid = given 7;
  manager = given tt;
  service = given tt;
  status = given (4, 7);
  sizing = (122, 400);
  account = given (some (codes "localSystem"));
  session = given 0;
  write = λ s. some (length s);
  read = λ n. some (ok_reply a_token);
  fold = λ c. if leb b'A' c && leb c b'Z' then c + 32 else c;
}

-- The service runs under another account.
abbrev other_account : LinkService
other_account = record agent { account = given (some (codes "user")) }

agent_binds : (bind_over_named_pipe agent url a_token).outcome ≡ bound a_token
unfolding bind_over_named_pipe eq_icase check_account
agent_binds = refl

other_account_refused :
    (bind_over_named_pipe other_account url a_token).outcome
    ≡ thrown
        (codes "link_agent_service_sid_mismatch")
        (codes "Link service is not configured as LocalSystem")
unfolding bind_over_named_pipe eq_icase check_account
other_account_refused = refl

sent-IsLinkAgent_example :
    (sent (bind_over_named_pipe agent url a_token).calls ≡ [])
    ⊎ ((sent (bind_over_named_pipe agent url a_token).calls ≡ bind_request url a_token ∷ [])
        × IsLinkAgent agent)
sent-IsLinkAgent_example = sent-IsLinkAgent agent url a_token

bind-EndsClean_example : EndsClean (bind_over_named_pipe other_account url a_token).calls
bind-EndsClean_example = bind-EndsClean other_account url a_token

reply_outcome_iff_example :
    (reply_outcome (ok_reply a_token) ≡ bound a_token)
    ↔ ((ok_reply a_token ≡ ok_reply a_token) × (is_hex_token a_token ≡ true))
reply_outcome_iff_example = reply_outcome_iff (ok_reply a_token) a_token

a_token_is_hex : is_hex_token a_token ≡ true
unfolding is_hex_token
a_token_is_hex = refl

read_fields-bind_request_example :
    (rest : Text) × (bind_request url a_token ≡ version_field ++ rest)
    × (read_fields 2 rest
        ≡ some ((codes "server_url", url) ∷ (codes "enrollment_token", a_token) ∷ []))
read_fields-bind_request_example = read_fields-bind_request url a_token a_token_is_hex

abbrev bind_call : Request
bind_call = record { method = codes "bindHost"; token = some a_token; server_url = some url }

-- The second request comes while the first is bound, the third after its flag is reset.
abbrev events : List Event
events =
    call bind_call
    ∷ call bind_call
    ∷ ends 0 (some (bound a_token))
    ∷ call bind_call
    ∷ answers_at 1
    ∷ []

events_leave_one : length (run_bridge events new_bridge).jobs ≡ 1
unfolding run_bridge bridge_step new_bridge eq_text
events_leave_one = refl

run_bridge-Inv_example : Inv (calls events) (run_bridge events new_bridge)
run_bridge-Inv_example = run_bridge-Inv events
