-- ===== src/Errors.antt =====
-- Go errors as trees: the sentinels of internal/s3/bucket.go and internal/controller, what
-- `errors.New`, `fmt.Errorf` and `errors.Join` build, and `errors.Is`.
use garage_storage_controlle.Prelude.{String, ◌++◌, Bool, true, false, ◌||◌}

-- The package variables that `errors.Is` is asked about.
pub data Sentinel : Type 0 where
  bucket_exists resource_not_found multiple_matches : Sentinel
  name_conflict dependency_not_ready : Sentinel

-- `status` is what the Kubernetes API server answered (reason and message). `wrap pre e post` is
-- `fmt.Errorf` with one `%w`, and `wrap_both e mid f` with two. `join` is `errors.Join` of two.
pub data Err : Type 0 where
  sentinel : Sentinel → Err
  status : String → String → Err
  plain : String → Err
  wrap : String → Err → String → Err
  wrap_both : Err → String → Err → Err
  join : Err → Err → Err

abbrev pub sentinel_eq : Sentinel → Sentinel → Bool
sentinel_eq bucket_exists bucket_exists = true
sentinel_eq resource_not_found resource_not_found = true
sentinel_eq multiple_matches multiple_matches = true
sentinel_eq name_conflict name_conflict = true
sentinel_eq dependency_not_ready dependency_not_ready = true
sentinel_eq _ _ = false

-- errors.Is
unfoldable pub is : Err → Sentinel → Bool
is (sentinel s) t = sentinel_eq s t
is (status _ _) t = false
is (plain _) t = false
is (wrap _ e _) t = is e t
is (wrap_both e _ f) t = is e t || is f t
is (join e f) t = is e t || is f t

abbrev pub sentinel_text : Sentinel → String
sentinel_text bucket_exists = "bucket with alias already exists"
sentinel_text resource_not_found = "resource not found"
sentinel_text multiple_matches = "multiple resources match"
sentinel_text name_conflict = "name conflict with existing resource"
sentinel_text dependency_not_ready = "resource dependency is not ready"

-- err.Error()
unfoldable pub text : Err → String
text (sentinel s) = sentinel_text s
text (status _ message) = message
text (plain message) = message
text (wrap pre e post) = pre ++ (text e ++ post)
text (wrap_both e mid f) = text e ++ (mid ++ text f)
text (join e f) = text e ++ ("\n" ++ text f)
