-- ===== src/Naming.antt =====
-- suffixedResourceName (internal/controller/bucket_controller.go) and namespacedResourceName
-- (accesskey_controller.go): names with the hexadecimal digest of the resource's UID.
pub mod Unique
use garage_storage_controlle.Prelude.{
  ℕ, zero, suc, ◌/◌, ◌%◌, String, ◌++◌, List, [], ◌∷◌, if◌then◌else◌, ◌==◌,
}
use garage_storage_controlle.Api.{ObjectMeta}
use garage_storage_controlle.Kube.{Libraries}

-- An index into a list of texts, as Go's constant of the hexadecimal digits is indexed.
unfoldable pub pick : ℕ → List String → String
pick n [] = ""
pick zero (s ∷ ss) = s
pick (suc n) (s ∷ ss) = pick n ss

abbrev pub digits : List String
digits =
    "0" ∷ "1" ∷ "2" ∷ "3" ∷ "4" ∷ "5" ∷ "6" ∷ "7" ∷ "8" ∷ "9" ∷ "a" ∷ "b" ∷ "c" ∷ "d" ∷ "e" ∷ "f"
    ∷ []

-- `%x` of a byte, and of a slice of bytes
unfoldable pub hex_byte : ℕ → String
hex_byte n = pick (n / 16) digits ++ pick (n % 16) digits

unfoldable pub hex : List ℕ → String
unfolding hex_byte
hex [] = ""
hex (b ∷ bs) = hex_byte b ++ hex bs

-- `hash[:8]` of the 32 bytes of a digest
unfoldable pub take : ℕ → List ℕ → List ℕ
take zero bs = []
take (suc n) [] = []
take (suc n) (b ∷ bs) = b ∷ take n bs

unfoldable pub uid_suffix : Libraries → ObjectMeta → String
unfolding hex take
uid_suffix lib meta = hex (take 8 (lib.sum256 meta.uid))

unfoldable pub suffixed_resource_name : Libraries → String → ObjectMeta → String
suffixed_resource_name lib name meta = name ++ ("-" ++ uid_suffix lib meta)

unfoldable pub namespaced_resource_name : Libraries → ObjectMeta → String
namespaced_resource_name lib meta =
    meta.namespace ++ ("-" ++ (meta.name ++ ("-" ++ uid_suffix lib meta)))
