-- ===== src/Bucket/Verified.antt =====
-- The import of an existing bucket, with the client of Garage's admin API as the verifier.
use garage_storage_controlle.Prelude.{String, ◌≡◌, ◌∙◌, refl, sym, ap, true, nonempty, arith}
use garage_storage_controlle.Exec.{Result, ok, err, panic, Exec, pure, ◌>>=◌, bind-eq-ok, Run}
use garage_storage_controlle.S3
use garage_storage_controlle.Api.{Bucket, ExistingBucketSpec}
use garage_storage_controlle.Kube.{Libraries, Secret}
use garage_storage_controlle.Policy.Types.{label_value}
use garage_storage_controlle.AccessKey.Types.{secret_key_access_key_id}
use garage_storage_controlle.Bucket.Types.{BucketReconciler, OwnershipVerifier}
use garage_storage_controlle.Bucket.Resolve.{
  owner_key_id, verify_ownership, find_owned_bucket, resolve_existing_bucket,
}
use garage_storage_controlle.Garage.Http.{AdminApiHttpClient}
use garage_storage_controlle.Garage.Permissions.{ownership_verifier, get_permissions}
use garage_storage_controlle.Garage.Readback.{InfoLaws, get_permissions_exact}

module _ {S : Type 0} (lib : Libraries) (r : BucketReconciler S) (spec : ExistingBucketSpec)
    (s : Run Bucket S) where
  owner_key_id-ok :
      (id : String) (t : Run Bucket S) (x : Result Secret × S)
      → r.client.get_secret
          (record { namespace = s.object.meta.namespace; name = spec.owner_key_secret })
          s.world
        ≡ x
      → owner_key_id lib r spec s ≡ (ok id, t)
      → (secret : Secret) × (r.client.get_secret
            (record { namespace = s.object.meta.namespace; name = spec.owner_key_secret })
            s.world
          ≡ (ok secret, t.world))
        × (id ≡ label_value secret_key_access_key_id secret.contents)
        × (t.object ≡ s.object)
  unfolding owner_key_id
  owner_key_id-ok id t (ok secret, w) e h = (secret, e ∙ ground arith, ground arith, ground arith)
  owner_key_id-ok id t (err f, w) e h = absurd (ground arith)
  owner_key_id-ok id t (panic, w) e h = absurd (ground arith)

  verify_ownership-ok :
      (key_id : String) (b : S3.Bucket) (t : Run Bucket S) (x : Result S3.Permissions × S)
      → r.ownership.get_permissions key_id b.id s.world ≡ x
      → verify_ownership lib r spec key_id b s ≡ (ok tt, t)
      → (perms : S3.Permissions) × (r.ownership.get_permissions key_id b.id s.world
          ≡ (ok perms, t.world))
        × (perms.owner ≡ true)
        × (t.object ≡ s.object)
  unfolding verify_ownership
  verify_ownership-ok key_id b t (ok perms, w) e h =
      (perms, e ∙ ground arith, ground arith, ground arith)
  verify_ownership-ok key_id b t (err f, w) e h = absurd (ground arith)
  verify_ownership-ok key_id b t (panic, w) e h = absurd (ground arith)

-- what find_owned_bucket asked, from `w` to `w'`, where it succeeded with `b`
abbrev pub IsOwned :
    {S : Type 0} → BucketReconciler S → String → String → S3.Bucket → S → S → Type 0
IsOwned {S} r name key_id b w w' =
    (v : S) × (perms : S3.Permissions) × (r.bucket.get name w ≡ (ok b, v))
    × (r.ownership.get_permissions key_id b.id v ≡ (ok perms, w'))
    × (perms.owner ≡ true)

pure-eq : {S A : Type 0} (a b : A) (s t : S) → pure {S = S} a s ≡ (ok b, t) → (a ≡ b) × (s ≡ t)
pure-eq a b s t h = (ground arith, ground arith)

module _ {S : Type 0} (lib : Libraries) (r : BucketReconciler S) (spec : ExistingBucketSpec) where
  -- the check of the owner, for a bucket that was found
  abbrev checked : String → S3.Bucket → Exec (Run Bucket S) (S3.Bucket × String)
  checked key_id found = verify_ownership lib r spec key_id found >>= λ _. pure (found, spec.name)

  find_owned_bucket_found :
      (key_id : String) (found : S3.Bucket) (s : Run Bucket S) (w : S)
      → r.bucket.get spec.name s.world ≡ (ok found, w)
      → find_owned_bucket lib r spec key_id s ≡ checked key_id found (record s { world = w })
  unfolding find_owned_bucket
  find_owned_bucket_found key_id found s w e = ground arith

  checked-ok :
      (key_id : String) (found b : S3.Bucket) (alias : String) (s t : Run Bucket S)
      → checked key_id found s ≡ (ok (b, alias), t)
      → (perms : S3.Permissions) × (r.ownership.get_permissions key_id found.id s.world
          ≡ (ok perms, t.world))
        × (perms.owner ≡ true)
        × (found ≡ b)
        × (alias ≡ spec.name)
        × (t.object ≡ s.object)
  checked-ok key_id found b alias s t h =
      let (_, u, verified, last) =
        bind-eq-ok (verify_ownership lib r spec key_id found) (λ _. pure (found, spec.name)) s t
          (b, alias) h in
      let (perms, got, owner, same) =
        verify_ownership-ok lib r spec s key_id found u _ refl verified in
      let (named, still) = pure-eq (found, spec.name) (b, alias) u t last in
      (
        perms,
        got ∙ ap (λ (v : Run Bucket S). (ok perms, v.world)) still,
        owner,
        ap (λ x. x.0) named,
        sym (ap (λ x. x.1) named),
        ap (λ (v : Run Bucket S). v.object) (sym still) ∙ same,
      )

  pub find_owned_bucket-ok :
      (key_id : String) (b : S3.Bucket) (alias : String) (s t : Run Bucket S)
      (x : Result S3.Bucket × S)
      → r.bucket.get spec.name s.world ≡ x
      → find_owned_bucket lib r spec key_id s ≡ (ok (b, alias), t)
      → IsOwned r spec.name key_id b s.world t.world × (alias ≡ spec.name) × (t.object ≡ s.object)
  unfolding find_owned_bucket
  find_owned_bucket-ok key_id b alias s t (ok found, w) e h =
      let (perms, got, owner, same, named, kept) =
        checked-ok key_id found b alias (record s { world = w }) t
          (sym (find_owned_bucket_found key_id found s w e) ∙ h) in
      (
        (
          w,
          perms,
          e ∙ ap (λ v. (ok v, w)) same,
          ap (λ (v : S3.Bucket). r.ownership.get_permissions key_id v.id w) (sym same) ∙ got,
          owner,
        ),
        named,
        kept,
      )
  find_owned_bucket-ok key_id b alias s t (err f, w) e h = absurd (ground arith)
  find_owned_bucket-ok key_id b alias s t (panic, w) e h = absurd (ground arith)

  resolved :
      (b : S3.Bucket) (alias : String) (s t : Run Bucket S) (secret : Secret) (v : S)
      → r.client.get_secret
          (record { namespace = s.object.meta.namespace; name = spec.owner_key_secret })
          s.world
        ≡ (ok secret, v)
      → resolve_existing_bucket lib r spec s ≡ (ok (b, alias), t)
      → IsOwned r spec.name (label_value secret_key_access_key_id secret.contents) b v t.world
        × (alias ≡ spec.name)
        × (t.object ≡ s.object)
  unfolding resolve_existing_bucket
  resolved b alias s t secret v got h =
      let (id, u, asked, rest) =
        bind-eq-ok (owner_key_id lib r spec) (find_owned_bucket lib r spec) s t (b, alias) h in
      let (secret', read, named, same) = owner_key_id-ok lib r spec s id u _ refl asked in
      let ((w, perms, found, had, owner), called, kept) =
        find_owned_bucket-ok id b alias u t _ refl rest in
      let (same_secret, same_world) = pure-eq secret' secret u.world v (sym read ∙ got) in
      let same_id : label_value secret_key_access_key_id secret.contents ≡ id = sym (
        named ∙ ap (λ (x : Secret). label_value secret_key_access_key_id x.contents) same_secret) in
      (
        (
          w,
          perms,
          ap (r.bucket.get spec.name) (sym same_world) ∙ found,
          ap (λ k. r.ownership.get_permissions k b.id w) same_id ∙ had,
          owner,
        ),
        called,
        kept ∙ same,
      )

-- Where resolveExistingBucket succeeds and the owner's secret names a key, with the client of
-- Garage's admin API as the verifier, then the bucket is the one that Garage has under the spec's
-- name, the name is the spec's, the reconciled object is as before, and the key of the secret owns
-- this bucket in Garage. The laws are what Garage documents of GetKeyInfo.
pub resolve_existing_bucket_verified :
    {S : Type 0} (lib : Libraries) (c : AdminApiHttpClient S) (r : BucketReconciler S)
    (spec : ExistingBucketSpec) (b : S3.Bucket) (alias : String) (s t : Run Bucket S)
    (secret : Secret) (v : S) (permissions : S → S3.Permissions)
    → InfoLaws c (label_value secret_key_access_key_id secret.contents) b.id permissions
    → r.ownership ≡ ownership_verifier c
    → r.client.get_secret
        (record { namespace = s.object.meta.namespace; name = spec.owner_key_secret })
        s.world
      ≡ (ok secret, v)
    → nonempty (label_value secret_key_access_key_id secret.contents) ≡ true
    → resolve_existing_bucket lib r spec s ≡ (ok (b, alias), t)
    → ((w : S) × (r.bucket.get spec.name v ≡ (ok b, w)))
      × ((permissions t.world).owner ≡ true)
      × (alias ≡ spec.name)
      × (t.object ≡ s.object)
resolve_existing_bucket_verified {S} lib c r spec b alias s t secret v permissions laws real got
      names h =
    let ((w, perms, found, asked, owner), called, kept) =
      resolved lib r spec b alias s t secret v got h in
    let id = label_value secret_key_access_key_id secret.contents in
    let asked' : get_permissions c id b.id w ≡ (ok perms, t.world) =
      ap (λ (o : OwnershipVerifier S). o.get_permissions id b.id w) (sym real) ∙ asked in
    let (says, keeps) = get_permissions_exact c id b.id names laws w t.world perms asked' in
    ((w, found), ap (λ (p : S3.Permissions). p.owner) (keeps ∙ sym says) ∙ owner, called, kept)
