-- ===== src/Bucket/Identified.antt =====
-- A bucket that says that it is Ready has an identifier in its status: what the policy reconciler
-- relies on.
use garage_storage_controlle.Prelude.{
  String, ◌≡◌, ◌∙◌, refl, sym, ap, true, nonempty, arith, Option-cases, Bool-cases, inl, inr,
}
use garage_storage_controlle.Exec.{
  Result, ok, err, panic, Exec, Run, attempt, bind-eq-ok, ◌>>=◌, ◌>>◌, modify, CtrlResult, Outcome,
  returned, failed,
}
use garage_storage_controlle.S3
use garage_storage_controlle.Api.{Bucket, BucketStatus, ExistingBucketSpec}
use garage_storage_controlle.Kube.{Libraries}
use garage_storage_controlle.Kube.Laws.{ConditionLaws}
use garage_storage_controlle.Bucket.Conditions.{
  initialize_bucket_conditions, mark_bucket_not_ready, mark_bucket_ready,
  update_bucket_cm_condition, update_bucket_ready_condition,
}
use garage_storage_controlle.Bucket.Types.{BucketReconciler}
use garage_storage_controlle.Errors.{is, resource_not_found}
use garage_storage_controlle.Naming.{suffixed_resource_name}
use garage_storage_controlle.Bucket.Verified.{find_owned_bucket-ok}
use garage_storage_controlle.Bucket.Resolve.{
  resolve_new_bucket, resolve_existing_bucket, create_bucket, find_owned_bucket, owner_key_id,
}
use garage_storage_controlle.Bucket.Reconciler.{
  configure_bucket, retry_later, reconcile_existing, reconcile_new, reconcile_bucket, patch_status,
  reconcile_found,
}
use garage_storage_controlle.Bucket.Claims.{
  IsIdentified, IdentifierLaws, initialize-IsIdentified, not_ready-IsIdentified,
  update-IsIdentified,
}

module _ {S : Type 0} {lib : Libraries} (laws : ConditionLaws lib) (r : BucketReconciler S)
    (ids : IdentifierLaws r) where
  configure_bucket-identified :
      (x : S3.Bucket) (alias : String) (s : Run Bucket S)
      → nonempty x.id ≡ true
      → nonempty (configure_bucket lib r x alias s).1.object.status.bucket_id ≡ true
  unfolding configure_bucket mark_bucket_not_ready mark_bucket_ready update_bucket_cm_condition
  configure_bucket-identified x alias s h = ground arith

  identified : (b : Bucket) → nonempty b.status.bucket_id ≡ true → IsIdentified lib b
  identified b h = (ground arith, ground arith)

  resolve_new_bucket-IsIdentified :
      (s : Run Bucket S)
      → IsIdentified lib s.object
      → IsIdentified lib (resolve_new_bucket lib r s).1.object
  unfolding resolve_new_bucket
  resolve_new_bucket-IsIdentified s h =
      (grind (arith, not_ready-IsIdentified laws), grind (arith, not_ready-IsIdentified laws))

  resolve_existing_bucket-IsIdentified :
      (spec : ExistingBucketSpec) (s : Run Bucket S)
      → IsIdentified lib s.object
      → IsIdentified lib (resolve_existing_bucket lib r spec s).1.object
  unfolding resolve_existing_bucket
  resolve_existing_bucket-IsIdentified spec s h =
      (grind (arith, not_ready-IsIdentified laws), grind (arith, not_ready-IsIdentified laws))

  created :
      (alias : String) (x : S3.Bucket) (s t : Run Bucket S) (y : Result S3.Bucket × S)
      → r.bucket.create alias s.world ≡ y
      → create_bucket lib r alias s ≡ (ok x, t)
      → nonempty x.id ≡ true
  unfolding create_bucket
  created alias x s t (ok b, v) e h =
      let same : b ≡ x = ground arith in
      ids.create_identified alias s.world v x (e ∙ ap (λ z. (ok z, v)) same)
  created alias x s t (err f, v) e h = absurd (ground arith)
  created alias x s t (panic, v) e h = absurd (ground arith)

  found_new :
      (x : S3.Bucket) (alias : String) (s t : Run Bucket S) (y : Result S3.Bucket × S)
      → r.bucket.get (suffixed_resource_name lib s.object.spec.name s.object.meta) s.world ≡ y
      → resolve_new_bucket lib r s ≡ (ok (x, alias), t)
      → nonempty x.id ≡ true
  unfolding resolve_new_bucket
  found_new x alias s t (ok b, v) e h =
      let same : b ≡ x = ground arith in
      ids.get_identified _ s.world v x (e ∙ ap (λ z. (ok z, v)) same)
  found_new x alias s t (err f, v) e h = elim (Bool-cases (is f resource_not_found)) [
    | inl absent ↦
        let alias' = suffixed_resource_name lib s.object.spec.name s.object.meta in
        let made : create_bucket lib r alias' (record s { world = v }) ≡ (ok x, t) = ground arith in
        created alias' x (record s { world = v }) t _ refl made
    | inr other ↦ absurd (ground arith)
  ]
  found_new x alias s t (panic, v) e h = absurd (ground arith)

  found_existing :
      (spec : ExistingBucketSpec) (x : S3.Bucket) (alias : String) (s t : Run Bucket S)
      → resolve_existing_bucket lib r spec s ≡ (ok (x, alias), t)
      → nonempty x.id ≡ true
  unfolding resolve_existing_bucket
  found_existing spec x alias s t h =
      let (id, u, _, rest) =
        bind-eq-ok (owner_key_id lib r spec) (find_owned_bucket lib r spec) s t (x, alias) h in
      let ((v, _, got, _, _), _, _) = find_owned_bucket-ok lib r spec id x alias u t _ refl rest in
      ids.get_identified spec.name u.world v x got

  -- the object after reconcileBucket, by what its first part returned
  reconcile_new-IsIdentified :
      (s : Run Bucket S)
      → IsIdentified lib s.object
      → IsIdentified lib (reconcile_new lib r s).1.object
  unfolding reconcile_new
  reconcile_new-IsIdentified s h = go (resolve_new_bucket lib r s) refl
    where
      go :
          (y : Result (S3.Bucket × String) × Run Bucket S)
          → resolve_new_bucket lib r s ≡ y
          → IsIdentified lib
              (((λ _. y) >>= λ (x, alias). configure_bucket lib r x alias) s).1.object
      go (ok (x, alias), t) e =
          identified (configure_bucket lib r x alias t).1.object
            (configure_bucket-identified x alias t (found_new x alias s t _ refl e))
      go (err f, t) e = rw (ap (λ z. z.1.object) (sym e)) (resolve_new_bucket-IsIdentified s h)
      go (panic, t) e = rw (ap (λ z. z.1.object) (sym e)) (resolve_new_bucket-IsIdentified s h)

  retry_later-IsIdentified :
      (s : Run Bucket S)
      → IsIdentified lib s.object
      → IsIdentified lib (retry_later lib r s).1.object
  unfolding retry_later
  retry_later-IsIdentified s h = (ground arith, ground arith)

  -- the rest of reconcile_existing, by what resolveExistingBucket returned
  abbrev continued : Outcome (S3.Bucket × String) → Exec (Run Bucket S) CtrlResult
  continued (failed _) = retry_later lib r
  continued (returned (x, alias)) = configure_bucket lib r x alias

  reconcile_existing-IsIdentified :
      (spec : ExistingBucketSpec) (s : Run Bucket S)
      → IsIdentified lib s.object
      → IsIdentified lib (reconcile_existing lib r spec s).1.object
  unfolding reconcile_existing
  reconcile_existing-IsIdentified spec s h = go (resolve_existing_bucket lib r spec s) refl
    where
      go :
          (y : Result (S3.Bucket × String) × Run Bucket S)
          → resolve_existing_bucket lib r spec s ≡ y
          → IsIdentified lib ((attempt (λ _. y) >>= continued) s).1.object
      go (ok (x, alias), t) e =
          identified (configure_bucket lib r x alias t).1.object
            (configure_bucket-identified x alias t (found_existing spec x alias s t e))
      go (err f, t) e =
          retry_later-IsIdentified t
            (rw (ap (λ z. z.1.object) (sym e)) (resolve_existing_bucket-IsIdentified spec s h))
      go (panic, t) e =
          rw (ap (λ z. z.1.object) (sym e)) (resolve_existing_bucket-IsIdentified spec s h)

  reconcile_bucket-IsIdentified :
      (s : Run Bucket S)
      → IsIdentified lib s.object
      → IsIdentified lib (reconcile_bucket lib r s).1.object
  unfolding reconcile_bucket
  reconcile_bucket-IsIdentified s h = elim (Option-cases s.object.spec.existing_bucket) [
    | inl e ↦ (
      ground (arith, (reconcile_new-IsIdentified s h).0),
      ground (arith, (reconcile_new-IsIdentified s h).1),
    )
    | inr (spec, e) ↦ (
      ground (arith, (reconcile_existing-IsIdentified spec s h).0),
      ground (arith, (reconcile_existing-IsIdentified spec s h).1),
    )
  ]

  patch_status_keeps :
      (orig : BucketStatus) (o : Outcome CtrlResult) (s : Run Bucket S)
      → (patch_status lib r orig o s).1.object ≡ s.object
  unfolding patch_status
  patch_status_keeps orig (returned x) s = ground arith
  patch_status_keeps orig (failed e) s = ground arith

  -- A bucket whose condition Ready or BucketReady is True only if its identifier is recorded is left
  -- so by every way through Reconcile's part for a bucket that was found, which is what it writes to
  -- the API server. The laws are the documented behaviour of the helpers for conditions, and that
  -- Garage's identifiers are not empty.
  pub reconcile_found-IsIdentified :
      (s : Run Bucket S)
      → IsIdentified lib s.object
      → IsIdentified lib (reconcile_found lib r s).1.object
  unfolding reconcile_found
  reconcile_found-IsIdentified s h = go (reconcile_bucket lib r first) refl
    where
      first : Run Bucket S
      first = record s { object = initialize_bucket_conditions lib s.object }

      settled :
          (o : Outcome CtrlResult) (t : Run Bucket S)
          → IsIdentified lib t.object
          → IsIdentified lib
              (patch_status lib r s.object.status o
                (record t { object = update_bucket_ready_condition lib t.object })).1.object
      settled o t g =
          rw
            (patch_status_keeps s.object.status o
              (record t { object = update_bucket_ready_condition lib t.object }))
            (update-IsIdentified laws t.object g)

      known : IsIdentified lib (reconcile_bucket lib r first).1.object
      known = reconcile_bucket-IsIdentified first (initialize-IsIdentified laws s.object h)

      go :
          (y : Result CtrlResult × Run Bucket S)
          → reconcile_bucket lib r first ≡ y
          → IsIdentified lib
              ((attempt (λ _. y) >>= λ o.
                  modify (update_bucket_ready_condition lib)
                  >> patch_status lib r s.object.status o)
                first).1.object
      go (ok x, t) e = settled (returned x) t (rw (ap (λ z. z.1.object) (sym e)) known)
      go (err f, t) e = settled (failed f) t (rw (ap (λ z. z.1.object) (sym e)) known)
      go (panic, t) e = rw (ap (λ z. z.1.object) (sym e)) known
