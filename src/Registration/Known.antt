-- ===== src/Registration/Known.antt =====
-- The scheme of the manager knows all six object types.
use garage_storage_controlle.Prelude.{◌≡◌, ◌∙◌, ap, refl, true, List, ◌∷◌}
use garage_storage_controlle.Exec.{Result, ok, err, panic, bind-eq-ok}
use garage_storage_controlle.DeepCopy.ObjectKinds.{
  ObjectKind, access_key_kind, access_key_list_kind, access_policy_kind, access_policy_list_kind,
  bucket_kind, bucket_list_kind,
}
use garage_storage_controlle.Registration.{
  GroupVersion, group_version, Schemes, must, initialized_builder, init_scheme, scheme,
}

-- Whether a kind is among some.
pub data IsAmong (o : ObjectKind) : List ObjectKind → Type 0 where
  first : (os : List ObjectKind) → IsAmong o (o ∷ os)
  later : (p : ObjectKind) (os : List ObjectKind) → IsAmong o os → IsAmong o (p ∷ os)

-- What controller-runtime and apimachinery document of them.
pub record SchemeLaws {B Scheme : Type 0} (lib : Schemes B Scheme) : Type 0 where
  pub version-new_builder : (v : GroupVersion) → lib.version_of (lib.new_builder v) ≡ v
  pub version-register :
      (os : List ObjectKind) (b : B) → lib.version_of (lib.register os b) ≡ lib.version_of b
  pub known-register :
      (o : ObjectKind) (os : List ObjectKind) (b : B)
      → IsAmong o os
      → lib.known (lib.register os b) o ≡ true
  pub known_before :
      (o : ObjectKind) (os : List ObjectKind) (b : B)
      → lib.known b o ≡ true
      → lib.known (lib.register os b) o ≡ true
  pub recognizes-add_to_scheme :
      (o : ObjectKind) (b : B) (s t : Scheme)
      → lib.add_to_scheme b s ≡ ok t
      → lib.known b o ≡ true
      → lib.recognizes t (lib.version_of b) o ≡ true

module _ {B Scheme : Type 0} (lib : Schemes B Scheme) (laws : SchemeLaws lib) where
  builder_knows : (o : ObjectKind) → lib.known (initialized_builder lib) o ≡ true
  unfolding initialized_builder
  builder_knows access_key_kind =
      laws.known_before _ _ _ (laws.known_before _ _ _ (laws.known-register _ _ _ (first _)))
  builder_knows access_key_list_kind =
      laws.known_before _ _ _
        (laws.known_before _ _ _ (laws.known-register _ _ _ (later _ _ (first _))))
  builder_knows access_policy_kind = laws.known_before _ _ _ (laws.known-register _ _ _ (first _))
  builder_knows access_policy_list_kind =
      laws.known_before _ _ _ (laws.known-register _ _ _ (later _ _ (first _)))
  builder_knows bucket_kind = laws.known-register _ _ _ (first _)
  builder_knows bucket_list_kind = laws.known-register _ _ _ (later _ _ (first _))

  builder_version : lib.version_of (initialized_builder lib) ≡ group_version
  unfolding initialized_builder
  builder_version =
      laws.version-register _ _
      ∙ laws.version-register _ _
      ∙ laws.version-register _ _
      ∙ laws.version-new_builder group_version

  must-eq-ok :
      (add : Scheme → Result Scheme) (s t : Scheme) → must add s ≡ (ok tt, t) → add s ≡ ok t
  unfolding must
  must-eq-ok add s t h = added (add s) refl h
    where
      added : (x : Result Scheme) → add s ≡ x → must (λ _. x) s ≡ (ok tt, t) → add s ≡ ok t
      added (ok u) e g = e ∙ ap ok (ap (λ z. z.1) g)
      added (err f) e g = cc
      added panic e g = cc

  init_scheme_recognizes :
      (o : ObjectKind) (s t : Scheme)
      → init_scheme lib s ≡ (ok tt, t)
      → lib.recognizes t group_version o ≡ true
  unfolding init_scheme
  init_scheme_recognizes o s t h =
      let (done, u, first_step, second_step) =
        bind-eq-ok (must lib.add_client_go)
          (λ _. must (lib.add_to_scheme (initialized_builder lib))) s t tt h in
      rw builder_version at (
        laws.recognizes-add_to_scheme o (initialized_builder lib) u t
          (must-eq-ok (lib.add_to_scheme (initialized_builder lib)) u t second_step)
          (builder_knows o))

  -- With the laws of Builder and Scheme: where the init functions end without a panic, the scheme
  -- that main hands to the manager recognizes AccessKey, AccessPolicy, Bucket and their lists under
  -- the group garage.getclustered.net and the version v1alpha1.
  pub scheme_recognizes :
      (o : ObjectKind)
      → (scheme lib).0 ≡ ok tt
      → lib.recognizes (scheme lib).1 group_version o ≡ true
  unfolding scheme
  scheme_recognizes o h =
      init_scheme_recognizes o lib.new_scheme (scheme lib).1 (ap (λ r. (r, (scheme lib).1)) h)
