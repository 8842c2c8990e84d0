-- ===== src/Examples/Schemes.antt =====
-- A builder and a scheme that are functions into Bool, and the scheme that main makes of them.
use garage_storage_controlle.Prelude.{
  ℕ, ◌==◌, Bool, true, false, ◌&&◌, ◌||◌, str_eq, eq_refl, ◌≡◌, ◌∙◌, ap, sym, refl, List, [], ◌∷◌,
  arith,
}
use garage_storage_controlle.Exec.{ok, err, panic}
use garage_storage_controlle.DeepCopy.ObjectKinds.{
  ObjectKind, access_key_kind, access_key_list_kind, access_policy_kind, access_policy_list_kind,
  bucket_kind, bucket_list_kind,
}
use garage_storage_controlle.Registration.{GroupVersion, group_version, Schemes, scheme}
use garage_storage_controlle.Registration.Known.{
  IsAmong, first, later, SchemeLaws, scheme_recognizes,
}

abbrev number : ObjectKind → ℕ
number access_key_kind = 0
number access_key_list_kind = 1
number access_policy_kind = 2
number access_policy_list_kind = 3
number bucket_kind = 4
number bucket_list_kind = 5

abbrev among : ObjectKind → List ObjectKind → Bool
among o [] = false
among o (p ∷ os) = number o == number p || among o os

among-true : (o : ObjectKind) (os : List ObjectKind) → IsAmong o os → among o os ≡ true
among-true o [] h = elim h [ ]
among-true o (_ ∷ _) (first os) = ground arith
among-true o (_ ∷ _) (later p os h) = ground (arith, among-true o os h)

abbrev same : GroupVersion → GroupVersion → Bool
same v w = str_eq v.group w.group && str_eq v.version w.version

same_self : (v : GroupVersion) → same v v ≡ true
same_self v = rw (eq_refl v.group, eq_refl v.version)

abbrev tables : Schemes (GroupVersion × (ObjectKind → Bool)) (GroupVersion → ObjectKind → Bool)
tables = record {
  new_builder = λ v. (v, λ _. false);
  register = λ os b. (b.0, λ o. among o os || b.1 o);
  add_to_scheme = λ b s. ok (λ v o. (same v b.0 && b.1 o) || s v o);
  add_client_go = λ s. ok s;
  new_scheme = λ _ _. false;
  known = λ b. b.1;
  version_of = λ b. b.0;
  recognizes = λ s. s;
}

tables-SchemeLaws : SchemeLaws tables
tables-SchemeLaws = record {
  version-new_builder = λ v. refl;
  version-register = λ os b. refl;
  known-register = λ o os b h. ground (arith, among-true o os h);
  known_before = λ o os b h. ground (arith, h);
  recognizes-add_to_scheme = λ o b s t e h.
      sym (ap (λ r. elim r [ ok f ↦ f b.0 o | err _ ↦ false | panic ↦ false ]) e)
      ∙ ground (arith, same_self b.0, h);
}

scheme_recognizes_example : (scheme tables).1 group_version bucket_list_kind ≡ true
unfolding scheme
scheme_recognizes_example = scheme_recognizes tables tables-SchemeLaws bucket_list_kind refl
