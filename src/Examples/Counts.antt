-- ===== src/Examples/Counts.antt =====
-- Runs of ensureExternalKey against a server that counts the keys of one name.
use garage_storage_controlle.Prelude.{
  ℕ, suc, ◌≤◌, String, ◌≡◌, refl, sym, Bool, true, false, ◌&&◌, ◌==◌, nonempty, ◌⊎◌, ltb, str_eq,
  inl, if◌then◌else◌, arith,
}
use garage_storage_controlle.Errors.{Err, wrap, is, sentinel, resource_not_found, multiple_matches}
use garage_storage_controlle.Exec.{ok, err}
use garage_storage_controlle.S3
use garage_storage_controlle.AccessKey.Types.{
  AccessKeyManager, AccessKeyReconciler, set_access_key_id,
}
use garage_storage_controlle.AccessKey.KeyLaws.{KeyLaws}
use garage_storage_controlle.AccessKey.External.{ensure_external_key}
use garage_storage_controlle.AccessKey.Single.{
  Steps, lost, saved, stop, next, ensure_external_key-IsSingle, ensure_external_key_repeats,
}
use garage_storage_controlle.Examples.Fixtures.{lib, client, recorder, reader}

abbrev gone : Err
gone = wrap "get key: " (sentinel resource_not_found) ""

abbrev ambiguous : Err
ambiguous = wrap "get key: " (sentinel multiple_matches) ""

abbrev key_of : String → S3.AccessKey
key_of id = record { id = id; secret = "s3cret"; name = "team-reader" }

-- GK1 is there once there is any
abbrev is_there : String → ℕ → Bool
is_there id n = str_eq id "GK1" && ltb 0 n

abbrev counting : AccessKeyManager ℕ
counting = record {
  create = λ _ n. (ok (key_of "GK1"), suc n);
  get = λ id n. (if is_there id n then ok (key_of id) else err gone, n);
  lookup =
      λ _ n. (if n == 0 then err gone else if n == 1 then ok (key_of "GK1") else err ambiguous, n);
  delete = λ _ n. (ok tt, n);
}

counting_laws : KeyLaws counting
unfolding is
counting_laws = record {
  count = λ _ n. n;
  has = is_there;
  get_keeps = λ name id' id w w' x h. (ground arith, ground arith);
  get_finds = λ id w w' key h. (ground arith, ground arith);
  get_misses = λ id w w' e h g. ground arith;
  lookup_keeps = λ name id' name' w w' x h. (ground arith, ground arith);
  lookup_finds = λ name w w' key h.
      let same : key_of "GK1" ≡ key = ground arith in
      let some_key : ltb 0 w ≡ true = ground arith in rw (sym same) some_key;
  lookup_misses = λ name w w' e h g. ground arith;
  create_adds = λ name w w' key h.
      let same : key_of "GK1" ≡ key = ground arith in
      let some_key : ltb 0 w' ≡ true = ground arith in (ground arith, rw (sym same) some_key);
  create_may_add = λ name w w' x h. ground arith;
}

abbrev counted : AccessKeyReconciler ℕ
counted = record { client = client; access_key = counting; recorder = recorder }

-- the status is lost after the first call and saved after the second
two_calls : Steps lib counted reader counting_laws ("", 0) ("GK1", 1)
unfolding ensure_external_key is
two_calls =
    next (lost {recorded = ""} {w = 0} {w' = 1} {x = ok (key_of "GK1")} refl)
      (next (saved {recorded = ""} {w = 1} {w' = 1} {key = key_of "GK1"} refl) stop)

ensure_external_key-IsSingle_example :
    (1 ≤ 1) × ((nonempty "GK1" ≡ false) ⊎ (is_there "GK1" 1 ≡ true))
unfolding counting_laws
ensure_external_key-IsSingle_example =
    ensure_external_key-IsSingle lib counted reader counting_laws two_calls (omega arith, inl refl)

ensure_external_key_repeats_example :
    (ensure_external_key lib counted (set_access_key_id "GK0" reader) 1).1 ≡ 2
unfolding counting_laws ensure_external_key is
ensure_external_key_repeats_example =
    ensure_external_key_repeats lib counted reader counting_laws "GK0" 0 1 2 (key_of "GK1")
      (key_of "GK1") refl refl refl refl refl
