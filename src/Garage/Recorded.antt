-- ===== src/Garage/Recorded.antt =====
-- What doRequest records of a request.
use garage_storage_controlle.Prelude.{
  ℕ, String, ◌≡◌, refl, ◌/◌, ◌≢◌, ap, ℤ, List, some, arith, ◌==◌, if◌then◌else◌,
}
use garage_storage_controlle.Exec.{Result, ok, err, panic}
use garage_storage_controlle.Garage.Http.{
  AdminApiHttpClient, Metrics, Response, Method, Body, status_class, result_class, record_request,
  record_result, send, do_request,
}

-- the label of a status code, by its hundreds
abbrev pub class_of_hundreds : ℕ → String
class_of_hundreds n =
    if n == 2 then "2xx" else if n == 3 then "3xx" else if n == 4 then "4xx" else "5xx"

-- the label of an answer
abbrev pub label : Result Response → String
label (ok resp) = class_of_hundreds (resp.status_code / 100)
label (err _) = "error"
label panic = ""

status_class-hundreds : (code : ℕ) → status_class code ≡ class_of_hundreds (code / 100)
unfolding status_class
status_class-hundreds code = ground arith

module _ {S : Type 0} (c : AdminApiHttpClient S) (m : Metrics S)
    (recording : c.metrics ≡ some m) where
  record_result-label :
      (start : ℤ) (x : Result Response) (w : S)
      → x ≢ panic
      → let (d, w') = c.http.since start w in
        record_result c start x w ≡ m.inc_requests (label x) (m.observe_duration d w')
  unfolding record_result record_request result_class
  record_result-label start (ok resp) w quiet =
      ground (arith, status_class-hundreds resp.status_code)
  record_result-label start (err e) w quiet = ground arith
  record_result-label start panic w quiet = absurd (quiet refl)

  -- Where a client records metrics and sending a request does not panic, doRequest returns what was
  -- sent back, and records once the time since its start and once the request under the hundreds of
  -- the answer's status, 5xx if they are none of 2, 3 and 4, or under error where there is none.
  pub do_request_records :
      (method : Method) (path : String) (query : List (String × String)) (body : Body) (w : S)
      → (send c method path query body (c.http.now w).1).0 ≢ panic
      → let (start, w₁) = c.http.now w in
        let (x, w₂) = send c method path query body w₁ in
        let (d, w₃) = c.http.since start w₂ in
        do_request c method path query body w
        ≡ (x, m.inc_requests (label x) (m.observe_duration d w₃))
  unfolding do_request
  do_request_records method path query body w quiet =
      let (start, w₁) = c.http.now w in
      let (x, w₂) = send c method path query body w₁ in
      ap (λ v. (x, v)) (record_result-label start x w₂ quiet)
