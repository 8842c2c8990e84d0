-- ===== src/Examples/Keys.antt =====
-- Runs of the access key reconciler.
use garage_storage_controlle.Prelude.{is_some, ℕ, suc, ◌≡◌, refl, sym, arith, true, some, []}
use garage_storage_controlle.Errors.{
  Err, plain, wrap, is, sentinel, resource_not_found, name_conflict,
}
use garage_storage_controlle.Exec.{ok, err}
use garage_storage_controlle.S3
use garage_storage_controlle.Api.{AccessKey, condition_true, condition_false}
use garage_storage_controlle.Kube.{Secret}
use garage_storage_controlle.Conditions.{default_ready_reason}
use garage_storage_controlle.AccessKey.Conditions.{
  initialize_conditions, mark_access_key_ready, update_access_key_condition,
  reason_secret_name_conflict,
}
use garage_storage_controlle.AccessKey.Types.{AccessKeyReconciler}
use garage_storage_controlle.AccessKey.External.{
  ensure_external_key, ensure_secret, write_secret, resolve_ext_key_id,
}
use garage_storage_controlle.AccessKey.Claims.{IsIdentified, IdentifierLaws}
use garage_storage_controlle.AccessKey.Identified.{reconcile_status-IsIdentified}
use garage_storage_controlle.AccessKey.Reconciler.{
  reconcile_status, is_settled, reconcile_access_key, finalize,
}
use garage_storage_controlle.AccessKey.Ready.{update-reconcile_access_key}
use garage_storage_controlle.AccessKey.Settled.{
  ShowsReady, IsFinal, reconcile_access_key_settles, reconcile_access_key_gives_up,
}
use garage_storage_controlle.AccessKey.Ownership.{finalize_answers}
use garage_storage_controlle.Examples.Fixtures.{
  lib, condition_laws, client, recorder, reader, credentials,
}

abbrev external : S3.AccessKey
external = record { id = "GK1"; secret = "s3cret"; name = "team-reader" }

abbrev gone : Err
gone = wrap "get key: " (sentinel resource_not_found) ""

abbrev outage : Err
outage = plain "connection refused"

abbrev providing : AccessKeyReconciler ℕ
providing = record {
  client = client;
  access_key = record {
    create = λ _ w. (ok external, suc w);
    get = λ _ w. (ok external, suc w);
    lookup = λ _ w. (err gone, suc w);
    delete = λ _ w. (ok tt, suc w);
  };
  recorder = recorder;
}

abbrev unreachable : AccessKeyReconciler ℕ
unreachable = record providing {
  access_key = record {
    create = λ _ w. (err outage, suc w);
    get = λ _ w. (err outage, suc w);
    lookup = λ _ w. (err outage, suc w);
    delete = λ _ w. (err outage, suc w);
  };
}

-- a key that was never given one in Garage
abbrev new_key : AccessKey
new_key = record reader { status = record reader.status { access_key_id = ""; conditions = [] } }

abbrev foreign_secret : Secret
foreign_secret = record credentials { meta = record credentials.meta { owner_references = [] } }

abbrev taken : AccessKeyReconciler ℕ
taken = record providing {
  client = record client { get_secret = λ _ w. (ok foreign_secret, suc w) };
}

reconcile_access_key_settles_example :
    (q q' : AccessKey) × (reconcile_access_key lib providing
        (record { object = new_key; world = 0 })
      ≡ (ok tt, record { object = q; world = 4 }))
    × (update_access_key_condition lib q ≡ some q')
    × ShowsReady lib q' condition_true default_ready_reason
    × (q'.status.access_key_id ≡ "GK1")
    × (q'.status.secret_name ≡ "reader-credentials")
    × IsFinal lib providing q'
unfolding is_settled ensure_external_key ensure_secret write_secret is mark_access_key_ready
reconcile_access_key_settles_example =
    reconcile_access_key_settles condition_laws providing new_key external 0 2 4 refl refl refl refl
      refl

abbrev taken_conflict : Err
taken_conflict =
    wrap "existing secret 'reader-credentials' not owned by AccessKey 'reader': "
      (sentinel name_conflict) ""

reconcile_access_key_gives_up_example :
    (q q' : AccessKey) × (reconcile_access_key lib taken (record { object = new_key; world = 0 })
      ≡ (ok tt, record { object = q; world = 3 }))
    × (update_access_key_condition lib q ≡ some q')
    × ShowsReady lib q' condition_false reason_secret_name_conflict
    × (q'.status.observed_generation ≡ 3)
    × IsFinal lib taken q'
unfolding is_settled ensure_external_key ensure_secret is mark_access_key_ready
reconcile_access_key_gives_up_example =
    reconcile_access_key_gives_up condition_laws taken new_key external 0 2 3 refl refl refl
      taken_conflict refl refl

finalize_answers_example :
    finalize lib unreachable (record { object = reader; world = 0 })
    ≡ (err outage, record { object = reader; world = 1 })
unfolding resolve_ext_key_id is
finalize_answers_example = finalize_answers lib unreachable reader refl 0

update-reconcile_access_key_example :
    (is_some (is_settled lib (initialize_conditions lib new_key)) ≡ true)
    × (is_some (
          update_access_key_condition lib
            (reconcile_access_key lib unreachable
              (record { object = initialize_conditions lib new_key; world = 0 })).1.object)
        ≡ true)
update-reconcile_access_key_example =
    update-reconcile_access_key condition_laws unreachable new_key 0

providing_identifies : IdentifierLaws providing
providing_identifies = record {
  get_identified = λ id w w' x h. let same : external ≡ x = ground arith in rw (sym same) refl;
  lookup_identified = λ name w w' x h. absurd (ground arith);
  create_identified = λ name w w' x h. let same : external ≡ x = ground arith in rw (sym same) refl;
}

reconcile_status-IsIdentified_example :
    IsIdentified lib
      (reconcile_status lib providing
        (record { namespace = "team"; name = "reader" })
        (record { object = new_key; world = 0 })).1.object
reconcile_status-IsIdentified_example =
    reconcile_status-IsIdentified condition_laws providing providing_identifies
      (record { namespace = "team"; name = "reader" }) (record { object = new_key; world = 0 })
      (refl, refl)
