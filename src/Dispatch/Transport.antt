-- ===== src/Dispatch/Transport.antt =====
-- The answers of the remote side: RunPodClient and RunPodPodClient. The two clients
-- differ in the addresses that they build and in the words of two messages, which are an argument.
use fireviewer_backend.Platform.{
  Builtins, Fields, Value, array, bool, dict, end, field, get_field, item, negative, nil, null, num,
  real, stamp, text,
}
use fireviewer_backend.Prelude.{
  Bool, Option, String, false, if◌then◌else◌, leb, ltb, none, not, some, str_eq, true, ℕ, ◌&&◌,
  ◌==◌,
}

pub data Reply : Type 0 where
  answered : Fields → Reply
  http_status_error : ℕ → String → Reply
  http_error : String → Reply
  value_error : String → Reply

-- What httpx gives: a response, with its status, the words with which `raise_for_status` would refuse
-- it, and its body, or an error of the transport. A body that is not JSON has the words of the
-- decoding error.
pub data Body : Type 0 where
  json : Value → Body
  not_json : String → Body

pub data Wire : Type 0 where
  response : ℕ → String → Body → Wire
  no_response : String → Wire

-- `raise_for_status` refuses what is not 2xx; `json()` raises a ValueError.
is_success : ℕ → Bool
is_success code = leb 200 code && ltb code 300

object_body : String → Body → Reply
object_body not_object (json (dict f)) = answered f
object_body not_object (json _) = value_error not_object
object_body not_object (not_json words) = value_error words

unfoldable pub object_response : String → Wire → Reply
unfolding is_success object_body
object_response not_object (no_response words) = http_error words
object_response not_object (response code refusal body) =
    if is_success code then object_body not_object body else http_status_error code refusal

-- `isinstance(value, str) and value`
unfoldable pub is_job_id : Option Value → Bool
is_job_id (some (text id)) = not (str_eq id "")
is_job_id _ = false

with_job_id : String → Reply → Reply
with_job_id no_id (answered f) =
    if is_job_id (get_field "id" f) then answered f else value_error no_id
with_job_id no_id (http_status_error code words) = http_status_error code words
with_job_id no_id (http_error words) = http_error words
with_job_id no_id (value_error words) = value_error words

unfoldable pub client_submit : String → String → Wire → Reply
unfolding with_job_id object_response
client_submit not_object no_id wire = with_job_id no_id (object_response not_object wire)

-- `RunPodTransport`: how the remote side answers in one run of the dispatcher.
pub record RunPodTransport : Type 0 where
  pub submit : Value → Reply
  pub status : String → Reply
  pub cancel : String → Reply

-- Both clients over an HTTP connection: `post_run`, `get_status` and `post_cancel` send the request.
unfoldable pub run_pod_client :
    String → String → (Value → Wire) → (String → Wire) → (String → Wire) → RunPodTransport
unfolding client_submit object_response
run_pod_client not_object no_id post_run get_status post_cancel = record {
  submit = λ payload. client_submit not_object no_id (post_run payload);
  status = λ job. object_response not_object (get_status job);
  cancel = λ job. object_response not_object (post_cancel job);
}

-- `bool(value)`
unfoldable pub truthy : Builtins → Value → Bool
truthy B null = false
truthy B (bool b) = b
truthy B (num n) = not (n == 0)
truthy B (negative n) = true
truthy B (text s) = not (str_eq s "")
truthy B (stamp t) = true
truthy B (real x) = not (B.real_is_zero x)
truthy B (array nil) = false
truthy B (array (item x rest)) = true
truthy B (dict end) = false
truthy B (dict (field k v rest)) = true

-- `str(value or default).upper()`, of an entry that may be missing.
unfoldable pub status_or : Builtins → String → Option Value → String
unfolding truthy
status_or B default none = B.upper default
status_or B default (some v) = if truthy B v then B.upper (B.str v) else B.upper default
