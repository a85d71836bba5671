-- ===== src/Samples/Protocol.antt =====
-- Examples of the client: the answer to a submission, and a proxy's page.
use php_python_ai_bridge.Base.{◌≡◌, refl, [], none, some, String, lookup, is_blank, is_space}
use php_python_ai_bridge.Json.{str, int, null}
use php_python_ai_bridge.Jobs.Types.{PublicJob, queued}
use php_python_ai_bridge.Jobs.Request.{
  submit, checked, checked_task, timeout_of_value, key_of_value, request_of,
}
use php_python_ai_bridge.Jobs.Submit.{
  submit_valid, count_refusal, accept, accept_open, expire, admit_new, owner_full, record_job,
  new_job, job_name, public, drop_keys,
}
use php_python_ai_bridge.Jobs.Steps.{known}
use php_python_ai_bridge.Jobs.Db.{write_submitted}
use php_python_ai_bridge.Tasks.Validate.{
  validate, fields_ok, embed_ok, strings_ok, total_length, text_length, is_test_task,
}
use php_python_ai_bridge.Server.Routes.{is_hex32}
use php_python_ai_bridge.Mcp.Protocol.{ok, Response, request, submitted, bytes, not_json}
use php_python_ai_bridge.Mcp.Protocol.Requests.{IsReflection, request-IsReflection}
use php_python_ai_bridge.Mcp.Protocol.Jobs.{job_body, submitted-submit}
use php_python_ai_bridge.Samples.{empty_store, at, embed_input}

abbrev page : Response
page = record {
  status = 502;
  content_type = "text/html";
  retry_after = [];
  raw = 120;
  decoded = not_json;
}

request-IsReflection_example : IsReflection (bytes 40) (some page) (request (bytes 40) (some page))
request-IsReflection_example = request-IsReflection (bytes 40) (some page)

abbrev name : String
name = "00112233445566778899aabbccddeeff"

abbrev taken : PublicJob
taken = record {
  id = name;
  task = "embed";
  status = queued;
  result = none;
  error = none;
  progress = none;
  timeout_ms = 5000;
}

submitted-submit_example : submitted "embed" 5000 (ok (job_body taken)) ≡ ok (job_body taken)
unfolding is_hex32 submit checked checked_task timeout_of_value key_of_value request_of validate
    fields_ok embed_ok lookup strings_ok total_length text_length is_blank is_space submit_valid
    count_refusal accept accept_open known expire admit_new owner_full record_job new_job job_name
    public write_submitted is_test_task drop_keys
submitted-submit_example =
    submitted-submit (at 0 name) "embed" embed_input 5000 "ann" empty_store
      (submit (at 0 name) (str "embed") embed_input (int 5000) null "ann" empty_store).1 taken tt
      refl refl
