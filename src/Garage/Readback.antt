-- ===== src/Garage/Readback.antt =====
-- GetPermissions against what Garage documents of GetKeyInfo, and a round trip with SetPermissions.
use garage_storage_controlle.Prelude.{
  String, ◌≡◌, ◌∙◌, refl, sym, Bool, true, false, ◌||◌, ◌==◌, List, [], ◌∷◌, nonempty, str_eq,
  arith, Bool-cases, inl, inr,
}
use garage_storage_controlle.Exec.{Result, ok, err, panic}
use garage_storage_controlle.S3
use garage_storage_controlle.S3.{no_permissions}
use garage_storage_controlle.Garage.Types.{KeyInfoBucketResponse, AccessKeyResponse, to_permissions}
use garage_storage_controlle.Garage.Http.{
  AdminApiHttpClient, Response, method_get, no_body, do_request,
}
use garage_storage_controlle.Garage.Keys.{key_query, read_key, get_key}
use garage_storage_controlle.Garage.Permissions.{find_permissions, set_permissions, get_permissions}
use garage_storage_controlle.Garage.Grant.{PermissionLaws, set_permissions_exact}

-- the bucket has an entry in the list of a key's buckets
abbrev pub lists : String → List KeyInfoBucketResponse → Bool
lists bucket_id [] = false
lists bucket_id (b ∷ bs) = str_eq b.id bucket_id || lists bucket_id bs

-- every entry of the bucket says these permissions
abbrev pub EachSays : String → S3.Permissions → List KeyInfoBucketResponse → Type 0
EachSays bucket_id p [] = Unit
EachSays bucket_id p (b ∷ bs) =
    (str_eq b.id bucket_id ≡ true → to_permissions b.permissions ≡ p) × EachSays bucket_id p bs

-- Garage's documentation of GetKeyInfo: it changes no permission, the entries of a key's buckets say
-- the permissions that the key has on them, and a bucket without an entry is one on which it has
-- none.
pub record InfoLaws {S : Type 0} (c : AdminApiHttpClient S) (key_id bucket_id : String)
    (permissions : S → S3.Permissions) : Type 0 where
  pub info_keeps :
      (w w' : S) (resp : Response)
      → do_request c method_get "/v2/GetKeyInfo"
          (("id", key_id) ∷ ("showSecretKey", "false") ∷ [])
          no_body
          w
        ≡ (ok resp, w')
      → permissions w' ≡ permissions w
  pub info_says :
      (w w' : S) (resp : Response) (key : AccessKeyResponse)
      → do_request c method_get "/v2/GetKeyInfo"
          (("id", key_id) ∷ ("showSecretKey", "false") ∷ [])
          no_body
          w
        ≡ (ok resp, w')
      → (resp.status_code == 200) ≡ true
      → c.http.decode_access_key resp.body ≡ ok key
      → EachSays bucket_id (permissions w) key.buckets
  pub info_lists :
      (w w' : S) (resp : Response) (key : AccessKeyResponse)
      → do_request c method_get "/v2/GetKeyInfo"
          (("id", key_id) ∷ ("showSecretKey", "false") ∷ [])
          no_body
          w
        ≡ (ok resp, w')
      → (resp.status_code == 200) ≡ true
      → c.http.decode_access_key resp.body ≡ ok key
      → lists bucket_id key.buckets ≡ false
      → permissions w ≡ no_permissions

find_permissions_listed :
    (bucket_id : String) (p : S3.Permissions) (bs : List KeyInfoBucketResponse)
    → EachSays bucket_id p bs
    → lists bucket_id bs ≡ true
    → find_permissions bucket_id bs ≡ p
unfolding find_permissions
find_permissions_listed bucket_id p [] says listed = cc
find_permissions_listed bucket_id p (b ∷ bs) says listed =
    elim (Bool-cases (str_eq b.id bucket_id)) [
      | inl this ↦ ground (arith, says.0 this)
      | inr other ↦ ground (arith, find_permissions_listed bucket_id p bs says.1)
    ]

find_permissions_unlisted :
    (bucket_id : String) (bs : List KeyInfoBucketResponse)
    → lists bucket_id bs ≡ false
    → find_permissions bucket_id bs ≡ no_permissions
unfolding find_permissions
find_permissions_unlisted bucket_id [] unlisted = refl
find_permissions_unlisted bucket_id (b ∷ bs) unlisted =
    ground (arith, find_permissions_unlisted bucket_id bs)

module _ {S : Type 0} (c : AdminApiHttpClient S) (key_id bucket_id : String)
    (named : nonempty key_id ≡ true) where
  -- what a successful `get` of a key was answered
  abbrev Answered : S → S → AccessKeyResponse → Type 0
  Answered w w' key =
      (resp : Response) × (do_request c method_get "/v2/GetKeyInfo"
          (("id", key_id) ∷ ("showSecretKey", "false") ∷ []) no_body w
        ≡ (ok resp, w'))
      × ((resp.status_code == 200) ≡ true)
      × (c.http.decode_access_key resp.body ≡ ok key)

  read_key-ok :
      (resp : Response) (key : AccessKeyResponse)
      → read_key c key_id "" resp ≡ ok key
      → ((resp.status_code == 200) ≡ true) × (c.http.decode_access_key resp.body ≡ ok key)
  unfolding read_key
  read_key-ok resp key h = (ground arith, ground arith)

  get_key-ok :
      (w w' : S) (key : AccessKeyResponse) (x : Result Response × S)
      → do_request c method_get "/v2/GetKeyInfo"
          (("id", key_id) ∷ ("showSecretKey", "false") ∷ [])
          no_body
          w
        ≡ x
      → get_key c key_id "" false w ≡ (ok key, w')
      → Answered w w' key
  unfolding get_key key_query
  get_key-ok w w' key (ok resp, t) e h =
      let read : read_key c key_id "" resp ≡ ok key = ground arith in
      (resp, e ∙ ground arith, (read_key-ok resp key read).0, (read_key-ok resp key read).1)
  get_key-ok w w' key (err f, t) e h = absurd (ground arith)
  get_key-ok w w' key (panic, t) e h = absurd (ground arith)

  got_permissions :
      (w w' : S) (p : S3.Permissions) (x : Result AccessKeyResponse × S)
      → get_key c key_id "" false w ≡ x
      → get_permissions c key_id bucket_id w ≡ (ok p, w')
      → (key : AccessKeyResponse) × (get_key c key_id "" false w ≡ (ok key, w'))
        × (p ≡ find_permissions bucket_id key.buckets)
  unfolding get_permissions
  got_permissions w w' p (ok key, t) e h = (key, e ∙ ground arith, ground arith)
  got_permissions w w' p (err f, t) e h = absurd (ground arith)
  got_permissions w w' p (panic, t) e h = absurd (ground arith)

  module _ {permissions : S → S3.Permissions} (info : InfoLaws c key_id bucket_id permissions) where
    Answered-says :
        (w w' : S) (key : AccessKeyResponse)
        → Answered w w' key
        → find_permissions bucket_id key.buckets ≡ permissions w
    Answered-says w w' key (resp, e, is_200, decoded) =
        elim (Bool-cases (lists bucket_id key.buckets)) [
          | inl listed ↦
              find_permissions_listed bucket_id (permissions w) key.buckets
                (info.info_says w w' resp key e is_200 decoded) listed
          | inr unlisted ↦
              find_permissions_unlisted bucket_id key.buckets unlisted
              ∙ sym (info.info_lists w w' resp key e is_200 decoded unlisted)
        ]

    -- GetPermissions, where it succeeds, returns the permissions that the key has on the bucket in
    -- Garage, none if its information has no entry for the bucket, and changes them not.
    pub get_permissions_exact :
        (w w' : S) (p : S3.Permissions)
        → get_permissions c key_id bucket_id w ≡ (ok p, w')
        → (p ≡ permissions w) × (permissions w' ≡ permissions w)
    get_permissions_exact w w' p h =
        let (key, got, found) = got_permissions w w' p _ refl h in
        let answer = get_key-ok w w' key _ refl got in
        (found ∙ Answered-says w w' key answer, info.info_keeps w w' answer.0 answer.1)

-- What SetPermissions has set, GetPermissions reads back: where both succeed, one after the other,
-- the second returns the permissions that the first was given. The laws are what Garage documents of
-- the three requests.
pub get_permissions-set_permissions :
    {S : Type 0} (c : AdminApiHttpClient S) (key_id bucket_id : String)
    (laws : PermissionLaws c key_id bucket_id) (info : InfoLaws c key_id bucket_id laws.permissions)
    (p q : S3.Permissions) (w w₁ w₂ : S)
    → nonempty key_id ≡ true
    → set_permissions c key_id bucket_id p w ≡ (ok tt, w₁)
    → get_permissions c key_id bucket_id w₁ ≡ (ok q, w₂)
    → q ≡ p
get_permissions-set_permissions c key_id bucket_id laws info p q w w₁ w₂ named stored got =
    (get_permissions_exact c key_id bucket_id named info w₁ w₂ q got).0
    ∙ set_permissions_exact laws p w w₁ stored
