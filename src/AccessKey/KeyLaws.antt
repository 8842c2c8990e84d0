-- ===== src/AccessKey/KeyLaws.antt =====
-- What the reconciler of access keys relies on of the keys that Garage has.
use garage_storage_controlle.Prelude.{ℕ, suc, ◌≤◌, String, ◌≡◌, Bool, true, false}
use garage_storage_controlle.Errors.{Err, is, resource_not_found}
use garage_storage_controlle.Exec.{Result, ok, err}
use garage_storage_controlle.S3
use garage_storage_controlle.AccessKey.Types.{AccessKeyManager}

-- What Garage documents of its keys: how many have a name, and whether one has an identifier. Asking
-- changes nothing, an answer of a key means that it is there, and that none was found means that
-- there is none. Creating adds one key of that name; where its answer is lost, it may have.
pub record KeyLaws {S : Type 0} (m : AccessKeyManager S) : Type 0 where
  pub count : String → S → ℕ
  pub has : String → S → Bool
  pub get_keeps :
      (name id' id : String) (w w' : S) (x : Result S3.AccessKey)
      → m.get id w ≡ (x, w')
      → (count name w' ≡ count name w) × (has id' w' ≡ has id' w)
  pub get_finds :
      (id : String) (w w' : S) (key : S3.AccessKey)
      → m.get id w ≡ (ok key, w')
      → (key.id ≡ id) × (has id w ≡ true)
  pub get_misses :
      (id : String) (w w' : S) (e : Err)
      → m.get id w ≡ (err e, w')
      → is e resource_not_found ≡ true
      → has id w ≡ false
  pub lookup_keeps :
      (name id' name' : String) (w w' : S) (x : Result S3.AccessKey)
      → m.lookup name' w ≡ (x, w')
      → (count name w' ≡ count name w) × (has id' w' ≡ has id' w)
  pub lookup_finds :
      (name : String) (w w' : S) (key : S3.AccessKey)
      → m.lookup name w ≡ (ok key, w')
      → has key.id w ≡ true
  pub lookup_misses :
      (name : String) (w w' : S) (e : Err)
      → m.lookup name w ≡ (err e, w')
      → is e resource_not_found ≡ true
      → count name w ≡ 0
  pub create_adds :
      (name : String) (w w' : S) (key : S3.AccessKey)
      → m.create name w ≡ (ok key, w')
      → (count name w' ≡ suc (count name w)) × (has key.id w' ≡ true)
  pub create_may_add :
      (name : String) (w w' : S) (x : Result S3.AccessKey)
      → m.create name w ≡ (x, w')
      → count name w' ≤ suc (count name w)
