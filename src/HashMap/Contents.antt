-- ===== src/HashMap/Contents.antt =====
-- `HashMap` up to the number of its buckets and how its entries lie in them: the quotient of the valid
-- maps by what they read as, how many entries they count and their maximal load factor, in which the
-- writes of different keys commute.
use mathlib.Core.Quot
use mathlib.Core.Quot.{Quot, Quot-set}
use cpp_systems_playground.Prelude.{
  ◌≡◌, ◌≢◌, refl, sym, ap, ◌∙◌, Option, none, some, arith, Key, if◌then◌else◌, is_some, equal_self,
  equal_ne,
}
use cpp_systems_playground.HashMap.{Map, Floats}
use cpp_systems_playground.HashMap.Bucket.{bit}
use cpp_systems_playground.HashMap.Refine.{IsValid, lookup, Writes}
use cpp_systems_playground.HashMap.Members.{insert_or_assign-Writes, erase-Writes}

module _ (D K V : Type 0) ⦃floats : Floats D⦄ ⦃key : Key K⦄ where
  abbrev pub ValidMap : Type 0
  ValidMap = (m : Map D K V) × IsValid m

  -- The same values under all keys, as many of them, and the same maximal load factor.
  pub record Agree (a b : Map D K V) : Type 0 where
    pub size : a.size ≡ b.size
    pub factor : a.max_load_factor ≡ b.max_load_factor
    pub reads : (q : K) → lookup a q ≡ lookup b q

  abbrev pub Contents : Type 0
  Contents = Quot (λ (a b : ValidMap). Agree a.0 b.0)

module _ {D K V : Type 0} ⦃floats : Floats D⦄ ⦃key : Key K⦄ where
  -- The map that `insert_or_assign` leaves, and without a value the map that `erase` leaves.
  unfoldable pub written : K → Option V → ValidMap D K V → ValidMap D K V
  written k none m = let (m', e, w) = erase-Writes k m.1 in (m', w.valid)
  written k (some v) m = let (m', e, w) = insert_or_assign-Writes k v m.1 in (m', w.valid)

  pub written-Writes :
      (k : K) (w : Option V) (m : ValidMap D K V) → Writes m.0 (written k w m).0 k w
  unfolding written
  written-Writes k none m = (erase-Writes k m.1).2
  written-Writes k (some v) m = (insert_or_assign-Writes k v m.1).2

  pub Writes-Agree :
      {a b a' b' : Map D K V} (k : K) (w : Option V)
      → Agree D K V a b
      → Writes a a' k w
      → Writes b b' k w
      → Agree D K V a' b'
  Writes-Agree k w h wa wb = record {
    size = ground (arith, wa.size, wb.size, h.size, ap (λ o. bit (is_some o)) (h.reads k));
    factor = wa.factor ∙ h.factor ∙ sym wb.factor;
    reads =
        λ q. wa.reads q ∙ ap (λ o. if key.equal k q then w else o) (h.reads q) ∙ sym (wb.reads q);
  }

  -- The calls on contents.
  unfoldable pub write : K → Option V → Contents D K V → Contents D K V
  write k w =
      Quot.lift Quot-set (λ m. Quot.mk (written k w m))
        (λ a b h. Quot.sound (Writes-Agree k w h (written-Writes k w a) (written-Writes k w b)))

  -- Two writes under different keys, in either order.
  writes_commute :
      {m m1 m2 n1 n2 : Map D K V} (k k' : K) (w w' : Option V)
      → k ≢ k'
      → Writes m m1 k w
      → Writes m1 m2 k' w'
      → Writes m n1 k' w'
      → Writes n1 n2 k w
      → Agree D K V m2 n2
  writes_commute {m} {m1} {m2} {n1} {n2} k k' w w' ne a b c d =
      let apart = equal_ne k k' ne in
      let apart' = equal_ne k' k (λ e. ne (sym e)) in
      let first : lookup m1 k' ≡ lookup m k' = a.reads k' ∙ rw apart refl in
      let second : lookup n1 k ≡ lookup m k = c.reads k ∙ rw apart' refl in
      record {
        size = ground (
          arith,
          a.size,
          b.size,
          c.size,
          d.size,
          ap (λ o. bit (is_some o)) first,
          ap (λ o. bit (is_some o)) second,
        );
        factor = b.factor ∙ a.factor ∙ sym (d.factor ∙ c.factor);
        reads = λ q.
            b.reads q
            ∙ ap (λ o. if key.equal k' q then w' else o) (a.reads q)
            ∙ swap q (lookup m q)
            ∙ sym (d.reads q ∙ ap (λ o. if key.equal k q then w else o) (c.reads q));
      }
    where
      swap :
          (q : K) (o : Option V)
          → (if key.equal k' q then w' else (if key.equal k q then w else o))
            ≡ (if key.equal k q then w else (if key.equal k' q then w' else o))
      swap q o = ground (arith, key.equal_iff k q, key.equal_iff k' q)

  -- A write over a write under the same key.
  writes_overwrite :
      {m m1 m2 n : Map D K V} (k : K) (w w' : Option V)
      → Writes m m1 k w
      → Writes m1 m2 k w'
      → Writes m n k w'
      → Agree D K V m2 n
  writes_overwrite {m} {m1} k w w' a b c =
      let here : lookup m1 k ≡ w = a.reads k ∙ rw (equal_self k) refl in
      record {
        size = ground (arith, a.size, b.size, c.size, ap (λ o. bit (is_some o)) here);
        factor = b.factor ∙ a.factor ∙ sym c.factor;
        reads = λ q.
            b.reads q
            ∙ ap (λ o. if key.equal k q then w' else o) (a.reads q)
            ∙ over q (lookup m q)
            ∙ sym (c.reads q);
      }
    where
      over :
          (q : K) (o : Option V)
          → (if key.equal k q then w' else (if key.equal k q then w else o))
            ≡ (if key.equal k q then w' else o)
      over q o = ground arith

  commutes :
      (k k' : K) (w w' : Option V)
      → k ≢ k'
      → (c : Contents D K V) → write k w (write k' w' c) ≡ write k' w' (write k w c)
  unfolding write
  commutes k k' w w' ne =
      Quot.ind (λ b. Quot-set _ _)
        (λ m. Quot.sound (
          writes_commute k' k w' w (λ e. ne (sym e)) (written-Writes k' w' m)
            (written-Writes k w (written k' w' m)) (written-Writes k w m)
            (written-Writes k' w' (written k w m))))

  overwrites :
      (k : K) (w w' : Option V) (c : Contents D K V) → write k w' (write k w c) ≡ write k w' c
  unfolding write
  overwrites k w w' =
      Quot.ind (λ b. Quot-set _ _)
        (λ m. Quot.sound (
          writes_overwrite k w w' (written-Writes k w m) (written-Writes k w' (written k w m))
            (written-Writes k w' m)))

  -- Up to the number of buckets and how the entries lie in them, `insert_or_assign` and `erase` of
  -- different keys can be called in either order, and a later call of one of them under the same key
  -- makes up for an earlier one.
  pub write-laws :
      (k k' : K) (w w' : Option V) (c : Contents D K V)
      → k ≢ k'
      → (write k w (write k' w' c) ≡ write k' w' (write k w c))
        × (write k w' (write k w c) ≡ write k w' c)
  write-laws k k' w w' c ne = (commutes k k' w w' ne c, overwrites k w w' c)
