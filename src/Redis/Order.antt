-- ===== src/Redis/Order.antt =====
-- The order of texts and the sorted map of `KVStore`.
use cpp_systems_playground.Prelude.{
  ◌≡◌, refl, ◌↔◌, true, false, none, some, List, [], ◌∷◌, arith, if◌then◌else◌, Bool-cases, inl,
  inr,
}
use cpp_systems_playground.Redis.{Text, Entry, less, same, find, assign, remove}

pub same_iff : (a b : Text) → (same a b ≡ true) ↔ (a ≡ b)
unfolding same
same_iff [] [] = ground arith
same_iff [] (b ∷ l) = ground arith
same_iff (a ∷ k) [] = ground arith
same_iff (a ∷ k) (b ∷ l) = ground (arith, same_iff k l)

pub less_irrefl : (a : Text) → less a a ≡ false
unfolding less
less_irrefl [] = refl
less_irrefl (a ∷ k) = ground (arith, less_irrefl k)

pub less_trans : (a b c : Text) → less a b ≡ true → less b c ≡ true → less a c ≡ true
unfolding less
less_trans a b [] h k = cc
less_trans [] [] (z ∷ c) h k = refl
less_trans [] (y ∷ b) (z ∷ c) h k = refl
less_trans (x ∷ a) [] (z ∷ c) h k = cc
less_trans (x ∷ a) (y ∷ b) (z ∷ c) h k = ground (arith, less_trans a b c)

pub less_total : (a b : Text) → same a b ≡ false → less b a ≡ false → less a b ≡ true
unfolding same less
less_total [] [] h k = cc
less_total [] (b ∷ l) h k = refl
less_total (a ∷ k) [] h e = cc
less_total (a ∷ k) (b ∷ l) h e = ground (arith, less_total k l)

-- Every key comes after a text.
abbrev pub Above : Text → List (Text × Entry) → Type 0
Above k [] = Unit
Above k ((j, e) ∷ m) = (less k j ≡ true) × Above k m

abbrev pub IsSorted : List (Text × Entry) → Type 0
IsSorted [] = Unit
IsSorted ((j, e) ∷ m) = Above j m × IsSorted m

pub Above-trans : (a b : Text) (m : List (Text × Entry)) → less a b ≡ true → Above b m → Above a m
Above-trans a b [] h s = tt
Above-trans a b ((j, e) ∷ m) h s = (less_trans a b j h s.0, Above-trans a b m h s.1)

pub find-Above : (k : Text) (m : List (Text × Entry)) → Above k m → find k m ≡ none
unfolding find
find-Above k [] s = refl
find-Above k ((j, e) ∷ m) s = ground (arith, find-Above k m, same_iff j k, less_irrefl k)

pub find-assign :
    (k q : Text) (e : Entry) (m : List (Text × Entry))
    → find q (assign k e m) ≡ (if same k q then some e else find q m)
unfolding find assign
find-assign k q e [] = refl
find-assign k q e ((j, f) ∷ m) =
    ground (arith, find-assign k q e m, same_iff j k, same_iff j q, same_iff k q)

pub find-remove :
    (k q : Text) (m : List (Text × Entry))
    → IsSorted m
    → find q (remove k m) ≡ (if same k q then none else find q m)
unfolding find remove
find-remove k q [] s = ground arith
find-remove k q ((j, f) ∷ m) s =
    ground
      (arith, find-remove k q m s.1, find-Above j m s.0, same_iff j k, same_iff j q, same_iff k q)

Above-assign :
    (b k : Text) (e : Entry) (m : List (Text × Entry))
    → less b k ≡ true
    → Above b m
    → Above b (assign k e m)
unfolding assign
Above-assign b k e [] h s = (h, tt)
Above-assign b k e ((j, f) ∷ m) h s = ground (arith, Above-assign b k e m h s.1)

pub assign-IsSorted :
    (k : Text) (e : Entry) (m : List (Text × Entry)) → IsSorted m → IsSorted (assign k e m)
unfolding assign
assign-IsSorted k e [] s = (tt, tt)
assign-IsSorted k e ((j, f) ∷ m) s = elim (Bool-cases (same j k)) [
  | inl here ↦ rw here s
  | inr other ↦ elim (Bool-cases (less k j)) [
    | inl before ↦ rw (other, before) ((before, Above-trans k j m before s.0), s)
    | inr after ↦
        rw (other, after)
          (Above-assign j k e m (less_total j k other after) s.0, assign-IsSorted k e m s.1)
  ]
]

Above-remove : (b k : Text) (m : List (Text × Entry)) → Above b m → Above b (remove k m)
unfolding remove
Above-remove b k [] s = tt
Above-remove b k ((j, f) ∷ m) s = ground (arith, Above-remove b k m s.1)

pub remove-IsSorted : (k : Text) (m : List (Text × Entry)) → IsSorted m → IsSorted (remove k m)
unfolding remove
remove-IsSorted k [] s = tt
remove-IsSorted k ((j, f) ∷ m) s = ground (arith, remove-IsSorted k m s.1, Above-remove j k m s.0)
