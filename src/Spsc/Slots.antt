-- ===== src/Spsc/Slots.antt =====
-- The circular storage seen from a base index: slot `base + i` holds item `i`, the others none.
use native.Mathlib.Decide.{ℕ_discrete}
use cpp_systems_playground.Prelude.{
  ℕ, suc, ◌+◌, ◌%◌, ◌<◌, ◌≡◌, sym, ap, ◌∙◌, Option, none, some, List, [], ◌∷◌, ◌++◌, arith, length,
  get_elem?, get_elem?-append_last, get_elem?-append_ne, get_elem?-ge, update, update_self,
  update_ne,
}
use cpp_systems_playground.Prelude.Modular.{mod_lap, offset_ne}

module _ {ℓ} {A : Type ℓ} (n : ℕ) where
  abbrev pub Stores : (ℕ → Option A) → ℕ → List A → Type ℓ
  Stores buffer base xs = (i : ℕ) → i < n → buffer ((base + i) % n) ≡ get_elem? xs i

  -- An object constructed behind the last item appends it.
  pub construct-Stores :
      (buffer : ℕ → Option A) (base : ℕ) (xs : List A) (v : A)
      → length xs < n
      → Stores buffer base xs
      → Stores (update buffer ((base + length xs) % n) (some v)) base (xs ++ v ∷ [])
  construct-Stores buffer base xs v room h i k = elim (ℕ_discrete i (length xs)) [
    | yes p ↦ rw p (update_self buffer _ (some v) ∙ sym (get_elem?-append_last xs v))
    | no p ↦
        update_ne buffer _ (some v) _ (offset_ne n base (length xs) i room k (λ e. p (sym e)))
        ∙ h i k
        ∙ sym (get_elem?-append_ne xs v i p)
  ]

  -- The object destroyed at the base was the first item.
  pub destroy-Stores :
      (buffer : ℕ → Option A) (base : ℕ) (x : A) (xs : List A)
      → length xs < n
      → Stores buffer base (x ∷ xs)
      → Stores (update buffer (base % n) none) (base + 1) xs
  destroy-Stores buffer base x xs room h i k = elim (ℕ_discrete (i + 1) n) [
    | yes p ↦
        let sum : base + 1 + i ≡ base + n = omega arith in
        rw (sum, mod_lap n base) (update_self buffer _ none ∙ sym (get_elem?-ge xs i (omega arith)))
    | no p ↦
        let sum : base + 1 + i ≡ base + suc i = omega arith in
        let start : base + 0 ≡ base = omega arith in
        let apart = offset_ne n base 0 (suc i) (omega arith) (omega arith) (omega arith) in
        rw sum (
          update_ne buffer _ none _ (λ e. apart (ap (λ b. b % n) start ∙ e))
          ∙ h (suc i) (omega arith))
  ]

  -- The slot at the base holds the first item.
  pub Stores-first :
      (buffer : ℕ → Option A) (base : ℕ) (x : A) (xs : List A)
      → 0 < n
      → Stores buffer base (x ∷ xs)
      → buffer (base % n) ≡ some x
  Stores-first buffer base x xs pos h =
      let start : base ≡ base + 0 = omega arith in ap buffer (ap (λ b. b % n) start) ∙ h 0 pos
