-- ===== src/Garage/Keys.antt =====
-- AccessKeyClient of internal/garage/client.go
use garage_storage_controlle.Prelude.{
  String, ◌++◌, Bool, true, false, ◌&&◌, List, [], ◌∷◌, nonempty, str_eq, ◌==◌, if◌then◌else◌,
}
use garage_storage_controlle.Errors.{
  Err, plain, sentinel, wrap, wrap_both, resource_not_found, multiple_matches,
}
use garage_storage_controlle.Exec.{
  Result, ok, err, panic, Exec, pure, fail, ◌>>=◌, returned, failed, attempt,
}
use garage_storage_controlle.S3
use garage_storage_controlle.AccessKey.Types.{AccessKeyManager}
use garage_storage_controlle.Garage.Types.{AccessKeyResponse}
use garage_storage_controlle.Garage.Http.{
  AdminApiHttpClient, Response, method_get, method_post, no_body, create_key, lift, do_request,
}

abbrev to_access_key : AccessKeyResponse → S3.AccessKey
to_access_key result = record {
  id = result.access_key_id;
  secret = result.secret_access_key;
  name = result.name;
}

-- strconv.FormatBool
abbrev format_bool : Bool → String
format_bool true = "true"
format_bool false = "false"

-- The query of `get`: a parameter that is "" is left out.
unfoldable pub key_query : String → String → Bool → List (String × String)
key_query id search retrieve_secret =
    let secret = ("showSecretKey", format_bool retrieve_secret) ∷ [] in
    let searched = if nonempty search then ("search", search) ∷ secret else secret in
    if nonempty id then ("id", id) ∷ searched else searched

module _ {S : Type 0} (c : AdminApiHttpClient S) where
  abbrev unexpected : Response → Err
  unexpected resp = plain ("unexpected status code " ++ c.http.decimal resp.status_code)

  -- the answer of `get` to a response, by its status
  unfoldable pub read_key : String → String → Response → Result AccessKeyResponse
  read_key id search resp =
      if resp.status_code == 200
      then c.http.decode_access_key resp.body
      else if resp.status_code == 404
      then err (
          wrap "" (sentinel resource_not_found)
            (": id '" ++ (id ++ ("'; search '" ++ (search ++ "'")))))
      else if resp.status_code == 400 && (nonempty search && str_eq id "")
      then elim (c.http.decode_error resp.body) [
        | ok api_err ↦ err (
            wrap "" (sentinel multiple_matches)
              (": search " ++ (c.http.quote search ++ (": " ++ api_err.message))))
        | err e ↦ err (
            wrap_both (sentinel multiple_matches)
              (": search " ++ (c.http.quote search ++ ": unreadable error body: ")) e)
        | panic ↦ panic
      ]
      else err (unexpected resp)

  unfoldable pub get_key : String → String → Bool → Exec S AccessKeyResponse
  unfolding key_query
  get_key id search retrieve_secret = do
    got ←
        attempt
          (do_request c method_get "/v2/GetKeyInfo" (key_query id search retrieve_secret) no_body)
    elim got [
      | failed e ↦ fail (wrap "get key: " e "")
      | returned resp ↦ lift (read_key id search resp)
    ]

  unfoldable pub create : String → Exec S S3.AccessKey
  create key_name = do
    got ← attempt (
        do_request c method_post "/v2/CreateKey" []
          (create_key (record { name = key_name; never_expires = true })))
    elim got [
      | failed e ↦ fail (wrap "create key: " e "")
      | returned resp ↦
          if resp.status_code == 200
          then (do result ← lift (c.http.decode_access_key resp.body); pure (to_access_key result))
          else fail (unexpected resp)
    ]

  unfoldable pub get : String → Exec S S3.AccessKey
  get id = do result ← get_key id "" true; pure (to_access_key result)

  unfoldable pub lookup : String → Exec S S3.AccessKey
  lookup search = do result ← get_key "" search true; pure (to_access_key result)

  unfoldable pub delete : String → Exec S (Unit {0})
  delete id = do
    got ← attempt (do_request c method_post "/v2/DeleteKey" (("id", id) ∷ []) no_body)
    elim got [
      | failed e ↦ fail (wrap ("delete key " ++ (id ++ ": ")) e "")
      | returned resp ↦
          if resp.status_code == 200
          then pure tt
          else if resp.status_code == 404
          then fail (wrap ("delete key " ++ (id ++ ": ")) (sentinel resource_not_found) "")
          else fail
              (plain ("delete key: unexpected status code " ++ c.http.decimal resp.status_code))
    ]

  -- AccessKeyClient as the AccessKeyManager of the reconciler
  abbrev pub key_manager : AccessKeyManager S
  key_manager = record { create = create; get = get; lookup = lookup; delete = delete }
