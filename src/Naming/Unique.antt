-- ===== src/Naming/Unique.antt =====
-- The names of external resources: how long they are, and that two are equal only if they are made
-- of the same parts.
use text.Mathlib.TextLemmas.{length-append, append_inj, append_cancel_left, append_assoc}
use Prim.Native.String.{count}
use garage_storage_controlle.Prelude.{
  ℕ, zero, suc, ◌+◌, ◌*◌, ◌/◌, ◌%◌, ◌≤◌, ◌<◌, ◌≡◌, ◌∙◌, refl, ap, sym, String, ◌++◌, Bool, true,
  ◌&&◌, List, [], ◌∷◌, arith, str_eq, ◌==◌, if◌then◌else◌,
}
use garage_storage_controlle.Api.{ObjectMeta}
use garage_storage_controlle.Kube.{Libraries}
use garage_storage_controlle.Naming.{
  pick, digits, hex_byte, hex, take, uid_suffix, suffixed_resource_name, namespaced_resource_name,
}

-- a test of every number from `top` down
holds_down_from : ℕ → (ℕ → Bool) → Bool
holds_down_from zero test = test 0
holds_down_from (suc top) test = holds_down_from top test && test (suc top)

test-holds_down_from :
    (top n : ℕ) (test : ℕ → Bool) → holds_down_from top test ≡ true → n ≤ top → test n ≡ true
unfolding holds_down_from
test-holds_down_from zero zero test h small = h
test-holds_down_from zero (suc n) test h small = absurd (omega arith)
test-holds_down_from (suc top) n test h small = ground (arith, test-holds_down_from top n test)

-- the digit that a text shows
digit_of : List String → String → ℕ
digit_of [] t = 0
digit_of (s ∷ ss) t = if str_eq s t then 0 else suc (digit_of ss t)

-- the n-th digit is one character, and it shows n
abbrev is_digit_of : ℕ → Bool
is_digit_of n = digit_of digits (pick n digits) == n && count (pick n digits) == 1

digit_table : holds_down_from 15 is_digit_of ≡ true
unfolding holds_down_from digit_of pick
digit_table = refl

digit_of-pick :
    (n : ℕ) → n < 16 → (digit_of digits (pick n digits) ≡ n) × (count (pick n digits) ≡ 1)
digit_of-pick n h = ground (arith, test-holds_down_from 15 n is_digit_of digit_table (omega arith))

pick-inj : (m n : ℕ) → m < 16 → n < 16 → pick m digits ≡ pick n digits → m ≡ n
pick-inj m n hm hn e = sym (digit_of-pick m hm).0 ∙ ap (digit_of digits) e ∙ (digit_of-pick n hn).0

count-hex_byte : (b : ℕ) → b < 256 → count (hex_byte b) ≡ 2
unfolding hex_byte
count-hex_byte b h =
    length-append (pick (b / 16) digits) (pick (b % 16) digits)
    ∙ omega
        (arith, (digit_of-pick (b / 16) (omega arith)).1, (digit_of-pick (b % 16) (omega arith)).1)

hex_byte-inj : (a b : ℕ) → a < 256 → b < 256 → hex_byte a ≡ hex_byte b → a ≡ b
unfolding hex_byte
hex_byte-inj a b ha hb e =
    let same =
      (digit_of-pick (a / 16) (omega arith)).1 ∙ sym (digit_of-pick (b / 16) (omega arith)).1 in
    let (high, low) = append_inj e same in
    omega (
      arith,
      pick-inj (a / 16) (b / 16) (omega arith) (omega arith) high,
      pick-inj (a % 16) (b % 16) (omega arith) (omega arith) low,
    )

-- every number of the list is a byte
abbrev pub AreBytes : List ℕ → Type 0
AreBytes [] = Unit
AreBytes (b ∷ bs) = (b < 256) × AreBytes bs

abbrev pub length : List ℕ → ℕ
length [] = 0
length (b ∷ bs) = suc (length bs)

-- SHA-256 has a digest of 32 bytes.
pub record DigestLaws (lib : Libraries) : Type 0 where
  pub sum256_bytes : (t : String) → AreBytes (lib.sum256 t)
  pub sum256_length : (t : String) → length (lib.sum256 t) ≡ 32

take-AreBytes : (n : ℕ) (bs : List ℕ) → AreBytes bs → AreBytes (take n bs)
unfolding take
take-AreBytes zero bs h = tt
take-AreBytes (suc n) [] h = tt
take-AreBytes (suc n) (b ∷ bs) h = (h.0, take-AreBytes n bs h.1)

length-take : (n : ℕ) (bs : List ℕ) → n ≤ length bs → length (take n bs) ≡ n
unfolding take
length-take zero bs h = refl
length-take (suc n) [] h = absurd (omega arith)
length-take (suc n) (b ∷ bs) h = omega (arith, length-take n bs)

count-hex : (bs : List ℕ) → AreBytes bs → count (hex bs) ≡ 2 * length bs
unfolding hex
count-hex [] h = refl
count-hex (b ∷ bs) h =
    length-append (hex_byte b) (hex bs) ∙ omega (arith, count-hex_byte b h.0, count-hex bs h.1)

hex-inj :
    (bs cs : List ℕ) → AreBytes bs → AreBytes cs → length bs ≡ length cs → hex bs ≡ hex cs → bs ≡ cs
unfolding hex
hex-inj [] [] h k same e = refl
hex-inj [] (c ∷ cs) h k same e = absurd (omega arith)
hex-inj (b ∷ bs) [] h k same e = absurd (omega arith)
hex-inj (b ∷ bs) (c ∷ cs) h k same e =
    let (first, rest) = append_inj e (count-hex_byte b h.0 ∙ sym (count-hex_byte c k.0)) in
    cc (hex_byte-inj b c h.0 k.0 first, hex-inj bs cs h.1 k.1 (omega arith) rest)

module _ {lib : Libraries} (laws : DigestLaws lib) where
  count-uid_suffix : (m : ObjectMeta) → count (uid_suffix lib m) ≡ 16
  unfolding uid_suffix
  count-uid_suffix m =
      let bs = lib.sum256 m.uid in
      count-hex (take 8 bs) (take-AreBytes 8 bs (laws.sum256_bytes m.uid))
      ∙ ap (λ (n : ℕ). 2 * n) (length-take 8 bs (omega (arith, laws.sum256_length m.uid)))

  uid_suffix-inj :
      (m n : ObjectMeta)
      → uid_suffix lib m ≡ uid_suffix lib n
      → take 8 (lib.sum256 m.uid) ≡ take 8 (lib.sum256 n.uid)
  unfolding uid_suffix
  uid_suffix-inj m n e =
      let bs = lib.sum256 m.uid in
      let cs = lib.sum256 n.uid in
      hex-inj (take 8 bs) (take 8 cs) (take-AreBytes 8 bs (laws.sum256_bytes m.uid))
        (take-AreBytes 8 cs (laws.sum256_bytes n.uid))
        (length-take 8 bs (omega (arith, laws.sum256_length m.uid))
          ∙ sym (length-take 8 cs (omega (arith, laws.sum256_length n.uid))))
        e

  -- What two names with a suffix have in common, whatever stands before the suffix.
  with_suffix-inj :
      (s t : String) (m n : ObjectMeta)
      → s ++ ("-" ++ uid_suffix lib m) ≡ t ++ ("-" ++ uid_suffix lib n)
      → (s ≡ t) × (take 8 (lib.sum256 m.uid) ≡ take 8 (lib.sum256 n.uid))
  with_suffix-inj s t m n e =
      let whole =
        sym (length-append s ("-" ++ uid_suffix lib m))
        ∙ ap count e
        ∙ length-append t ("-" ++ uid_suffix lib n) in
      let same : count s ≡ count t = omega (
        arith,
        whole,
        length-append "-" (uid_suffix lib m),
        length-append "-" (uid_suffix lib n),
        count-uid_suffix m,
        count-uid_suffix n,
      ) in
      let (first, rest) = append_inj e same in
      (
        first,
        uid_suffix-inj m n (append_cancel_left "-" (uid_suffix lib m) (uid_suffix lib n) rest),
      )

  -- The name of a bucket in Garage is 17 characters longer than the name that is asked for. (So the
  -- 46 characters that the resource definition allows make 63.)
  pub count-suffixed_resource_name :
      (name : String) (m : ObjectMeta) → count (suffixed_resource_name lib name m) ≡ count name + 17
  unfolding suffixed_resource_name
  count-suffixed_resource_name name m =
      length-append name ("-" ++ uid_suffix lib m)
      ∙ omega (arith, length-append "-" (uid_suffix lib m), count-uid_suffix m)

  -- Two buckets have the same name in Garage only if the same name was asked for and the first eight
  -- bytes of the digests of their UIDs agree.
  pub suffixed_resource_name-inj :
      (name other : String) (m n : ObjectMeta)
      → suffixed_resource_name lib name m ≡ suffixed_resource_name lib other n
      → (name ≡ other) × (take 8 (lib.sum256 m.uid) ≡ take 8 (lib.sum256 n.uid))
  unfolding suffixed_resource_name
  suffixed_resource_name-inj name other m n e = with_suffix-inj name other m n e

  -- Two access keys have the same name in Garage only if namespace and name, joined by a dash, are
  -- the same and the first eight bytes of the digests of their UIDs agree.
  pub namespaced_resource_name-inj :
      (m n : ObjectMeta)
      → namespaced_resource_name lib m ≡ namespaced_resource_name lib n
      → (m.namespace ++ ("-" ++ m.name) ≡ n.namespace ++ ("-" ++ n.name))
        × (take 8 (lib.sum256 m.uid) ≡ take 8 (lib.sum256 n.uid))
  unfolding namespaced_resource_name
  namespaced_resource_name-inj m n e =
      with_suffix-inj (m.namespace ++ ("-" ++ m.name)) (n.namespace ++ ("-" ++ n.name)) m n
        (regroup m ∙ e ∙ sym (regroup n))
    where
      regroup :
          (k : ObjectMeta)
          → (k.namespace ++ ("-" ++ k.name)) ++ ("-" ++ uid_suffix lib k)
            ≡ k.namespace ++ ("-" ++ (k.name ++ ("-" ++ uid_suffix lib k)))
      regroup k =
          append_assoc k.namespace ("-" ++ k.name) ("-" ++ uid_suffix lib k)
          ∙ ap (λ (t : String). k.namespace ++ t)
              (append_assoc "-" k.name ("-" ++ uid_suffix lib k))
