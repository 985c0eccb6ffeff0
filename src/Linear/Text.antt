-- ===== src/Linear/Text.antt =====
-- The texts of kv_store_linear/include/kv_store_linear/kvstore_linear.hpp: string views, character
-- arrays that end at a zero byte, and the hash.
use Prim.Native.Nat.{bit_xor}
use mathlib.Core.List.{append-nil}
use cpp_systems_playground.Prelude.{
  ℕ, zero, suc, ◌+◌, ◌-◌, ◌*◌, ◌%◌, ◌^◌, ◌≤◌, ◌≡◌, refl, ap, ◌∙◌, ◌↔◌, Bool, true, false, ◌&&◌,
  List, [], ◌∷◌, ◌++◌, arith, length, length-append, ◌≢◌, replicate, ltb, ◌==◌, if◌then◌else◌,
}

-- `std::string_view`: its bytes, and the bytes that follow them in memory.
pub record View : Type 0 where
  pub bytes : List ℕ
  pub behind : List ℕ

-- What `strcmp` and the `char*` constructor of a view read: the bytes before the first zero.
unfoldable pub c_string : List ℕ → List ℕ
c_string [] = []
c_string (b ∷ l) = if b == 0 then [] else b ∷ c_string l

unfoldable pub same : List ℕ → List ℕ → Bool
same [] [] = true
same [] (b ∷ l) = false
same (a ∷ k) [] = false
same (a ∷ k) (b ∷ l) = a == b && same k l

-- `strcmp(a, b) == 0`
unfoldable pub strcmp_equal : List ℕ → List ℕ → Bool
strcmp_equal a b = same (c_string a) (c_string b)

unfoldable pub drop : ℕ → List ℕ → List ℕ
drop zero l = l
drop (suc n) [] = []
drop (suc n) (b ∷ l) = drop n l

-- `memcpy(buffer, text.data(), text.size()); buffer[text.size()] = 0;` on an array: what stood
-- behind the zero stays.
unfoldable pub copy : List ℕ → List ℕ → List ℕ
unfolding drop
copy text buffer = text ++ (0 ∷ drop (length text + 1) buffer)

-- `h ^ c` converts the signed `char` to 64 bits.
unfoldable pub sign_extend : ℕ → ℕ
sign_extend c = if ltb c 128 then c else 2 ^ 64 - 256 + c

unfoldable pub hash_from : ℕ → List ℕ → ℕ
hash_from h [] = h
hash_from h (c ∷ l) = hash_from (bit_xor h (sign_extend c) * 16777619 % 2 ^ 64) l

unfoldable pub hash : View → ℕ
hash v = hash_from 2166136261 v.bytes

-- The view ends where its C string does, as a view of a string literal or of a `std::string`.
pub record IsTerminated (v : View) : Type 0 where
  pub ends : c_string (v.bytes ++ v.behind) ≡ v.bytes

pub same_iff : (a b : List ℕ) → (same a b ≡ true) ↔ (a ≡ b)
unfolding same
same_iff [] [] = ground arith
same_iff [] (b ∷ l) = ground arith
same_iff (a ∷ k) [] = ground arith
same_iff (a ∷ k) (b ∷ l) = ground (arith, same_iff k l)

pub strcmp_equal_iff : (a b : List ℕ) → (strcmp_equal a b ≡ true) ↔ (c_string a ≡ c_string b)
unfolding strcmp_equal
strcmp_equal_iff a b = same_iff (c_string a) (c_string b)

-- A C string has no zero byte.
c_string-append : (a l m : List ℕ) → c_string (a ++ l) ≡ a → c_string (a ++ (0 ∷ m)) ≡ a
unfolding c_string
c_string-append [] l m h = refl
c_string-append (b ∷ a) l m h = ground (arith, c_string-append a l m)

-- A terminated text is read back from the array that it was copied to.
pub c_string-copy :
    (v : View) (buffer : List ℕ) → IsTerminated v → c_string (copy v.bytes buffer) ≡ v.bytes
unfolding copy
c_string-copy v buffer t = c_string-append v.bytes v.behind _ t.ends

-- So is any text without a zero byte.
pub c_string-copy_plain :
    (text buffer : List ℕ) → c_string text ≡ text → c_string (copy text buffer) ≡ text
unfolding copy
c_string-copy_plain text buffer h = c_string-append text [] _ (ap c_string (append-nil text) ∙ h)

length-drop : (n : ℕ) (l : List ℕ) → length (drop n l) ≡ length l - n
unfolding drop
length-drop zero l = omega arith
length-drop (suc n) [] = omega arith
length-drop (suc n) (b ∷ l) = omega (arith, length-drop n l)

-- The copy stays inside the array.
pub length-copy :
    (text buffer : List ℕ)
    → length text + 1 ≤ length buffer
    → length (copy text buffer) ≡ length buffer
unfolding copy
length-copy text buffer h = omega (
  arith,
  length-append text (0 ∷ drop (length text + 1) buffer),
  length-drop (length text + 1) buffer,
)

-- The view of a `std::string`: a zero byte follows its text.
abbrev pub view_of : List ℕ → View
view_of text = record { bytes = text; behind = 0 ∷ [] }

-- A text without a zero byte.
abbrev pub IsPlain : List ℕ → Type 0
IsPlain text = c_string text ≡ text

pub view-IsTerminated : (text : List ℕ) → IsPlain text → IsTerminated (view_of text)
view-IsTerminated text p = record {
  ends = c_string-append text [] [] (ap c_string (append-nil text) ∙ p);
}

pub append-IsPlain : (a b : List ℕ) → IsPlain a → IsPlain b → IsPlain (a ++ b)
unfolding c_string
append-IsPlain [] b p q = q
append-IsPlain (x ∷ a) b p q = ground (arith, append-IsPlain a b)

pub replicate-IsPlain : (n b : ℕ) → b ≢ 0 → IsPlain (replicate n b)
unfolding c_string
replicate-IsPlain zero b ne = refl
replicate-IsPlain (suc n) b ne = ground (arith, replicate-IsPlain n b)
