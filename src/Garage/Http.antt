-- ===== src/Garage/Http.antt =====
-- adminAPIHttpClient of internal/garage/client.go, and internal/garage/metrics.go.
use garage_storage_controlle.Prelude.{
  ℕ, String, ◌++◌, Bool, ◌&&◌, List, [], Option, none, some, ℤ, leb, ltb, ◌==◌, if◌then◌else◌,
}
use garage_storage_controlle.Errors.{plain, wrap}
use garage_storage_controlle.Exec.{Result, ok, err, panic, Exec, pure, fail, ◌>>=◌}
use garage_storage_controlle.Garage.Types.{
  AdminTokenInfo, ErrorResponse, BucketUpdateRequest, BucketResponse, CreateKeyRequest,
  AccessKeyResponse, AllowBucketKeyRequest,
}

pub data Method : Type 0 where
  method_get method_post : Method

-- What is encoded into the body of a request.
pub data Body : Type 0 where
  no_body : Body
  create_key : CreateKeyRequest → Body
  create_bucket : String → Body
  update_bucket : BucketUpdateRequest → Body
  bucket_key : AllowBucketKeyRequest → Body

-- The request that `send` builds: the address, the values that it adds to the address's query, and
-- the header Authorization (Content-Type is the same for all).
pub record Request : Type 0 where
  pub method : Method
  pub url : String
  pub query : List (String × String)
  pub authorization : String
  pub body : Body

pub record Response : Type 0 where
  pub status_code : ℕ
  pub body : String

-- Go's net/http, net/url, encoding/json and time, which the client only calls. `decimal` is `%d`.
pub record Transport (S : Type 0) : Type 0 where
  pub round_trip : Request → Exec S Response
  pub join_path : String → String → Result String
  pub parse_url : String → Result String
  pub decode_bucket : String → Result BucketResponse
  pub decode_access_key : String → Result AccessKeyResponse
  pub decode_error : String → Result ErrorResponse
  pub decode_token : String → Result AdminTokenInfo
  pub now : S → ℤ × S
  pub since : ℤ → S → ℤ × S
  pub decimal : ℕ → String
  pub quote : String → String

-- type Metrics: the prometheus collectors that a client records into
pub record Metrics (S : Type 0) : Type 0 where
  pub observe_duration : ℤ → S → S
  pub inc_requests : String → S → S
  pub set_up : ℕ → S → S

pub record AdminApiHttpClient (S : Type 0) : Type 0 where
  pub http : Transport S
  pub token : String
  pub base_url : String
  pub metrics : Option (Metrics S)

-- statusClass
unfoldable pub status_class : ℕ → String
status_class code =
    if leb 200 code && ltb code 300
    then "2xx"
    else if leb 300 code && ltb code 400
    then "3xx"
    else if leb 400 code && ltb code 500
    then "4xx"
    else "5xx"

-- `code` in doRequest
unfoldable pub result_class : Result Response → String
unfolding status_class
result_class (ok resp) = status_class resp.status_code
result_class (err _) = "error"
result_class panic = "error"

module _ {S : Type 0} where
  -- Metrics.SetAPIUp
  unfoldable pub set_api_up : Metrics S → Bool → S → S
  set_api_up m is_up w = if is_up then m.set_up 1 w else m.set_up 0 w

  -- Metrics.record
  unfoldable pub record_request : Metrics S → String → ℤ → S → S
  record_request m code d w = m.inc_requests code (m.observe_duration d w)

  abbrev pub lift : {A : Type 0} → Result A → Exec S A
  lift r w = (r, w)

  -- an error with a text before it
  abbrev pub or_wrap : {A : Type 0} → String → Result A → Exec S A
  or_wrap pre (ok a) = pure a
  or_wrap pre (err e) = fail (wrap pre e "")
  or_wrap pre panic = λ w. (panic, w)

  module _ (c : AdminApiHttpClient S) where
    unfoldable pub send : Method → String → List (String × String) → Body → Exec S Response
    send method path query body = do
      full_url ← or_wrap "constructing endpoint path: " (c.http.join_path c.base_url path)
      request_url ← or_wrap "invalid url: " (c.http.parse_url full_url)
      c.http.round_trip (record {
        method = method;
        url = request_url;
        query = query;
        authorization = "Bearer " ++ c.token;
        body = body;
      })

    -- A panic inside `send` leaves doRequest before the metrics are recorded.
    unfoldable pub record_result : ℤ → Result Response → S → S
    unfolding result_class record_request
    record_result start panic w = w
    record_result start resp w = elim c.metrics [
      | none ↦ w
      | some m ↦ let (d, w') = c.http.since start w in record_request m (result_class resp) d w'
    ]

    unfoldable pub do_request : Method → String → List (String × String) → Body → Exec S Response
    do_request method path query body w =
        let (start, w₁) = c.http.now w in
        let (resp, w₂) = send method path query body w₁ in (resp, record_result start resp w₂)

    -- Health
    unfoldable pub health : Exec S (Unit {0})
    health w =
        let (got, w') = do_request method_get "/v2/GetCurrentAdminTokenInfo" [] no_body w in
        (
          elim got [
            | ok resp ↦
                if resp.status_code == 200
                then ok tt
                else if resp.status_code == 403
                then err (
                    plain (
                      "garage admin api health: forbidden (status "
                      ++ (c.http.decimal resp.status_code ++ ")")))
                else err (
                    plain (
                      "garage admin api health: unexpected status code "
                      ++ c.http.decimal resp.status_code))
            | err e ↦ err (wrap "garage admin api health: " e "")
            | panic ↦ panic
          ],
          w',
        )

    -- CurrentTokenInfo
    unfoldable pub current_token_info : Exec S AdminTokenInfo
    current_token_info w =
        let (got, w') = do_request method_get "/v2/GetCurrentAdminTokenInfo" [] no_body w in
        (
          elim got [
            | ok resp ↦
                if resp.status_code == 200
                then c.http.decode_token resp.body
                else if resp.status_code == 403
                then err (
                    plain (
                      "garage admin token info: token rejected (status "
                      ++ (c.http.decimal resp.status_code ++ ")")))
                else err (
                    plain (
                      "garage admin token info: unexpected status code "
                      ++ c.http.decimal resp.status_code))
            | err e ↦ err (wrap "garage admin token info: " e "")
            | panic ↦ panic
          ],
          w',
        )
