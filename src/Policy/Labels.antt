-- ===== src/Policy/Labels.antt =====
-- ensureLabels, and the watches that rest on the labels: a policy is found again from its key and
-- from its bucket.
use garage_storage_controlle.Prelude.{
  String, ◌≡◌, ap, ◌∙◌, false, List, [], ◌∷◌, arith, str_eq, eq_iff, if◌then◌else◌,
}
use mathlib.Core.List.{Mem, mem-cons, not-mem-nil}
use mathlib.Core.Logic.{∥∥₁_prop}
use mathlib.Core.Logic.Or
use garage_storage_controlle.Exec.{ok}
use garage_storage_controlle.Api.{NamespacedName, Bucket, AccessKey, AccessPolicy}
use garage_storage_controlle.Policy.Types.{
  access_key_label, bucket_label, label_value, set_label, ensure_label, ensure_labels,
  AccessPolicyReconciler, requests_for, find_policies_for_bucket, find_policies_for_access_key,
}

label_value-set_label :
    (k j v : String) (m : List (String × String))
    → label_value j (set_label k v m) ≡ (if str_eq k j then v else label_value j m)
unfolding label_value set_label
label_value-set_label k j v [] = ground (arith, eq_iff k j)
label_value-set_label k j v ((i, w) ∷ m) =
    ground (arith, eq_iff k j, eq_iff i k, eq_iff i j, label_value-set_label k j v m)

label_value-ensure_label :
    (k j v : String) (m : List (String × String))
    → label_value j (ensure_label k v m).0 ≡ (if str_eq k j then v else label_value j m)
unfolding ensure_label
label_value-ensure_label k j v m =
    ground (arith, label_value-set_label k j v m, eq_iff k j, eq_iff (label_value k m) v)

-- After ensureLabels the bucket's label reads as the spec's bucket, the access key's label as the
-- spec's access key, and every other label as before.
pub label_value-ensure_labels :
    (p : AccessPolicy) (j : String)
    → label_value j (ensure_labels p).0.meta.labels ≡ (
        if str_eq bucket_label j
        then p.spec.bucket
        else if str_eq access_key_label j
        then p.spec.access_key
        else label_value j p.meta.labels)
unfolding ensure_labels
label_value-ensure_labels p j = simp label_value-ensure_label

ensure_label_kept :
    (k v : String) (m : List (String × String))
    → label_value k m ≡ v
    → ensure_label k v m ≡ (m, false)
unfolding ensure_label
ensure_label_kept k v m h = ground (arith, eq_iff (label_value k m) v)

pub ensure_labels_kept :
    (p : AccessPolicy)
    → label_value access_key_label p.meta.labels ≡ p.spec.access_key
    → label_value bucket_label p.meta.labels ≡ p.spec.bucket
    → ensure_labels p ≡ (p, false)
unfolding ensure_labels
ensure_labels_kept p key bucket = simp (
  ensure_label_kept access_key_label p.spec.access_key p.meta.labels key,
  ensure_label_kept bucket_label p.spec.bucket p.meta.labels bucket,
)

-- A second call of ensureLabels changes nothing and reports no change.
pub ensure_labels_idem :
    (p : AccessPolicy) → ensure_labels (ensure_labels p).0 ≡ ((ensure_labels p).0, false)
unfolding ensure_labels
ensure_labels_idem p =
    ensure_labels_kept (ensure_labels p).0 (label_value-ensure_labels p access_key_label)
      (label_value-ensure_labels p bucket_label)

abbrev pub request_of : AccessPolicy → NamespacedName
request_of p = record { namespace = p.meta.namespace; name = p.meta.name }

mem-requests_for :
    (p : AccessPolicy) (ps : List AccessPolicy) → Mem p ps → Mem (request_of p) (requests_for ps)
unfolding requests_for
mem-requests_for p [] m = absurd (not-mem-nil m)
mem-requests_for p (q ∷ ps) m =
    Or.elim ∥∥₁_prop (mem-cons.0 m) (λ e. mem-cons.1 (Or.inl (ap request_of e)))
      (λ n. mem-cons.1 (Or.inr (mem-requests_for p ps n)))

-- A label selector returns every stored object of the namespace whose label has the value.
abbrev pub ListsByLabel : List AccessPolicy → String → String → String → List AccessPolicy → Type 0
ListsByLabel stored namespace label value listed =
    (p : AccessPolicy)
    → Mem p stored
    → p.meta.namespace ≡ namespace
    → label_value label p.meta.labels ≡ value
    → Mem p listed

-- A change of a bucket brings back every policy that names it: a policy that ensureLabels has
-- labelled, and that is stored in the bucket's namespace, is among the requests of
-- findPoliciesForBucket when the label selector finds it.
pub find_policies_for_bucket_complete :
    {S : Type 0} (r : AccessPolicyReconciler S) (bucket : Bucket) (w w' : S)
    (stored listed : List AccessPolicy) (p : AccessPolicy)
    → r.client.list_access_policies bucket.meta.namespace bucket_label bucket.meta.name w
      ≡ (ok listed, w')
    → ListsByLabel stored bucket.meta.namespace bucket_label bucket.meta.name listed
    → Mem (ensure_labels p).0 stored
    → p.meta.namespace ≡ bucket.meta.namespace
    → p.spec.bucket ≡ bucket.meta.name
    → (requests : List NamespacedName) × (find_policies_for_bucket r bucket w ≡ (ok requests, w'))
      × Mem (request_of p) requests
unfolding find_policies_for_bucket ensure_labels
find_policies_for_bucket_complete r bucket w w' stored listed p got selects there same names = (
  requests_for listed,
  ground arith,
  mem-requests_for (ensure_labels p).0 listed
      (selects (ensure_labels p).0 there same (label_value-ensure_labels p bucket_label ∙ names)),
)

-- A change of an access key brings back every policy that names it: a policy that ensureLabels has
-- labelled, and that is stored in the key's namespace, is among the requests of
-- findPoliciesForAccessKey when the label selector finds it.
pub find_policies_for_access_key_complete :
    {S : Type 0} (r : AccessPolicyReconciler S) (key : AccessKey) (w w' : S)
    (stored listed : List AccessPolicy) (p : AccessPolicy)
    → r.client.list_access_policies key.meta.namespace access_key_label key.meta.name w
      ≡ (ok listed, w')
    → ListsByLabel stored key.meta.namespace access_key_label key.meta.name listed
    → Mem (ensure_labels p).0 stored
    → p.meta.namespace ≡ key.meta.namespace
    → p.spec.access_key ≡ key.meta.name
    → (requests : List NamespacedName) × (find_policies_for_access_key r key w ≡ (ok requests, w'))
      × Mem (request_of p) requests
unfolding find_policies_for_access_key ensure_labels
find_policies_for_access_key_complete r key w w' stored listed p got selects there same names = (
  requests_for listed,
  ground arith,
  mem-requests_for (ensure_labels p).0 listed (
      selects (ensure_labels p).0 there same
        (label_value-ensure_labels p access_key_label ∙ names)),
)
