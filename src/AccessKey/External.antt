-- ===== src/AccessKey/External.antt =====
-- The calls of internal/controller/accesskey_controller.go that look for the key in Garage and write
-- its secret.
use garage_storage_controlle.Prelude.{String, ◌++◌, [], nonempty, if◌then◌else◌}
use garage_storage_controlle.Errors.{sentinel, wrap, is, resource_not_found, name_conflict}
use garage_storage_controlle.Exec.{
  ok, err, panic, Exec, pure, fail, ◌>>=◌, ◌>>◌, returned, failed, attempt,
}
use garage_storage_controlle.S3
use garage_storage_controlle.Api.{AccessKey}
use garage_storage_controlle.Kube.{Libraries, Secret}
use garage_storage_controlle.Naming.{namespaced_resource_name}
use garage_storage_controlle.AccessKey.Types.{
  AccessKeyReconciler, new_meta, new_secret, fill_secret,
}

module _ {S : Type 0} (lib : Libraries) (r : AccessKeyReconciler S) where
  unfoldable pub cleanup_old_secret : String → String → Exec S (Unit {0})
  cleanup_old_secret secret_name namespace = do
    let old_secret : Secret = record {
      meta = new_meta secret_name namespace [];
      type = "";
      contents = [];
    }
    deleted ← attempt (r.client.delete_secret old_secret)
    elim deleted [
      | failed e ↦
          if lib.is_not_found e
          then pure tt
          else fail
              (wrap ("deleting secret '" ++ (namespace ++ ("/" ++ (secret_name ++ "': ")))) e "")
      | returned _ ↦ pure tt
    ]

  -- The identifier of the key to delete, or "" where there is none.
  unfoldable pub resolve_ext_key_id : AccessKey → Exec S String
  resolve_ext_key_id resource =
      if nonempty resource.status.access_key_id then pure resource.status.access_key_id else (do
        found ← attempt (r.access_key.lookup (namespaced_resource_name lib resource.meta))
        elim found [
          | failed e ↦
              if is e resource_not_found
              then pure ""
              else fail (wrap "looking up key for deletion: " e "")
          | returned key ↦ pure key.id
        ])

  unfoldable pub ensure_external_key : AccessKey → Exec S S3.AccessKey
  ensure_external_key resource =
      let external_key_name = namespaced_resource_name lib resource.meta in
      if nonempty resource.status.access_key_id
      then (do
        existing ← attempt (r.access_key.get resource.status.access_key_id)
        elim existing [
          | failed e ↦
              if is e resource_not_found
              then r.access_key.create external_key_name
              else fail (wrap "verifying existing key: " e "")
          | returned key ↦ pure key
        ])
      else (do
        existing ← attempt (r.access_key.lookup external_key_name)
        elim existing [
          | failed e ↦
              if is e resource_not_found
              then r.access_key.create external_key_name
              else fail (wrap "unable to check for existing remote key: " e "")
          | returned key ↦ pure key
        ])

  -- the part of ensureSecret that writes
  unfoldable pub write_secret : AccessKey → String → Exec S (Unit {0})
  write_secret parent secret =
      elim (lib.set_controller_reference parent.meta (new_secret parent).meta) [
        | ok owned ↦ do
          r.client.create_or_update_secret (record (new_secret parent) { meta = owned })
              (fill_secret parent secret)
          pure tt
        | err e ↦ fail (wrap "setting owner reference on secret: " e "")
        | panic ↦ λ w. (panic, w)
      ]

  unfoldable pub ensure_secret : AccessKey → String → Exec S (Unit {0})
  unfolding write_secret
  ensure_secret parent secret = do
    existing ← attempt (
        r.client.get_secret
          (record { namespace = parent.meta.namespace; name = parent.spec.secret_name }))
    elim existing [
      | failed e ↦
          if lib.is_not_found e
          then write_secret parent secret
          else fail (wrap "checking for existing secret: " e "")
      | returned s ↦
          if lib.is_controlled_by s.meta parent.meta
          then write_secret parent secret
          else fail (
              wrap
                ("existing secret '"
                  ++ (s.meta.name
                      ++ ("' not owned by AccessKey '" ++ (lib.show_meta parent.meta ++ "': "))))
                (sentinel name_conflict) "")
    ]
