-- ===== src/Policy/Metadata.antt =====
-- Reconcile of a policy that has not got its finalizer yet.
use garage_storage_controlle.Prelude.{◌≡◌, true, false, if◌then◌else◌, none, Bool, arith}
use garage_storage_controlle.Errors.{wrap}
use garage_storage_controlle.Exec.{Result, CtrlResult, ok, err, panic, no_requeue}
use garage_storage_controlle.Api.{AccessPolicy}
use garage_storage_controlle.Kube.{Libraries}
use garage_storage_controlle.Conditions.{finalizer_name}
use garage_storage_controlle.Policy.Types.{AccessPolicyReconciler, ensure_labels}
use garage_storage_controlle.Policy.Reconciler.{reconcile_live, reconcile_found}

abbrev pub conflict_is_done : Libraries → Result (Unit {0}) → Result CtrlResult
conflict_is_done lib (ok _) = ok no_requeue
conflict_is_done lib (err e) =
    if lib.is_conflict e then ok no_requeue else err (wrap "updating object meta: " e "")
conflict_is_done lib panic = panic

-- the live policy with its finalizer
abbrev pub with_finalizer : Libraries → AccessPolicy → AccessPolicy
with_finalizer lib p = record p { meta = (lib.add_finalizer p.meta finalizer_name).0 }

reconcile_live_saves :
    {S : Type 0} (lib : Libraries) (r : AccessPolicyReconciler S) (p : AccessPolicy) (w : S)
    (labels_changed : Bool)
    → lib.contains_finalizer p.meta finalizer_name ≡ false
    → (lib.add_finalizer p.meta finalizer_name).1 ≡ true
    → let (answer, w') = r.client.update_access_policy (with_finalizer lib p) w in
      reconcile_live lib r labels_changed (record { object = p; world = w })
      ≡ (conflict_is_done lib answer, record { object = with_finalizer lib p; world = w' })
unfolding reconcile_live
reconcile_live_saves lib r p w true absent added = ground arith
reconcile_live_saves lib r p w false absent added = ground arith

-- Metadata first: while a live policy lacks the finalizer, Reconcile's only call is the update that
-- stores the labels and the finalizer, and a conflict there is no error. So no permission is granted
-- before the finalizer that takes it back is stored.
pub reconcile_found_metadata_first :
    {S : Type 0} (lib : Libraries) (r : AccessPolicyReconciler S) (p : AccessPolicy) (w : S)
    → p.meta.deletion_timestamp ≡ none
    → lib.contains_finalizer (ensure_labels p).0.meta finalizer_name ≡ false
    → (lib.add_finalizer (ensure_labels p).0.meta finalizer_name).1 ≡ true
    → let q = with_finalizer lib (ensure_labels p).0 in
      let (answer, w') = r.client.update_access_policy q w in
      reconcile_found lib r (record { object = p; world = w })
      ≡ (conflict_is_done lib answer, record { object = q; world = w' })
unfolding reconcile_found
reconcile_found_metadata_first lib r p w alive absent added =
    ground
      (arith, reconcile_live_saves lib r (ensure_labels p).0 w (ensure_labels p).1 absent added)
