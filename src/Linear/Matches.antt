-- ===== src/Linear/Matches.antt =====
-- What a `KVStoreOptimized` holds, as a bounded map from texts to texts, and what `insert` makes of it.
use cpp_systems_playground.Prelude.{
  not, ok-injective, update, ℕ, ◌+◌, ◌<◌, ◌≡◌, ◌≢◌, ◌⊎◌, inl, inr, refl, sym, ◌∙◌, subst, Bool,
  true, false, ◌||◌, none, some, ok, List, [], ◌∷◌, ◌++◌, arith, length, Key, if◌then◌else◌,
  is_some, Bool-cases, ltb,
}
use cpp_systems_playground.Prelude.Maps.{Ideal, nothing, assigned}
use cpp_systems_playground.Prelude.Totals.{total-zero}
use cpp_systems_playground.Linear
use cpp_systems_playground.Linear.{Store, Probe, max_key, max_value, find_slot, write, write_entry}
use cpp_systems_playground.Linear.Text.{
  c_string, same, same_iff, hash, view_of, IsPlain, view-IsTerminated,
}
use cpp_systems_playground.Linear.Compact.{
  IsCompact, new-IsCompact, insert-IsCompact, get-insert_other,
}
use cpp_systems_playground.Linear.Reads.{
  Probe-cases, probe_for, answer, get-answer, get-insert_self, probe_at_home,
}
use cpp_systems_playground.Linear.Full.{
  weight, filled, filled-exhausted, filled-vacant, filled-hit, filled-lt,
}

instance unfoldable pub text_key : Key (List ℕ)
text_key = record { hash = λ t. hash (view_of t); equal = same; equal_iff = same_iff }

-- What fits into an entry.
abbrev pub fits : List ℕ → List ℕ → Bool
fits k v = not (ltb max_key (length k) || ltb max_value (length v))

-- A compact store with slots, whose size counts the occupied ones, and the map that it holds.
pub record Matches (n : ℕ) (s : Store) (m : Ideal (List ℕ) (List ℕ)) : Type 0 where
  pub slots : 0 < n
  pub width : s.cap ≡ n
  pub compact : IsCompact s
  pub counted : s.size ≡ filled s
  pub reads : (q : List ℕ) → IsPlain q → Linear.get s (view_of q) ≡ ok (m.reads q)
  pub number : s.size ≡ m.number

-- The ways of an `insert` whose key and value fit.
pub record Inserts (n : ℕ) (s : Store) (m : Ideal (List ℕ) (List ℕ)) (k v : List ℕ) : Type 0 where
  pub after : Store
  pub room : (is_some (m.reads k) ≡ true) ⊎ (m.number < n)
  pub run : Linear.insert s (view_of k) (view_of v) ≡ ok (true, after)
  pub width : after.cap ≡ s.cap
  pub counted : after.size ≡ filled after
  pub number : after.size ≡ (if is_some (m.reads k) then m.number else m.number + 1)

module _ {n : ℕ} {s : Store} {m : Ideal (List ℕ) (List ℕ)} (k v : List ℕ) (h : Matches n s m)
    (plain : IsPlain k) where
  reads-answer : m.reads k ≡ answer s (probe_for s (view_of k))
  reads-answer =
      ok-injective
        (sym (h.reads k plain) ∙ get-answer s (view_of k) (omega (arith, h.slots, h.width)))

  pub insert-Inserts :
      fits k v ≡ true
      → ((m.reads k ≡ none)
          × (m.number ≡ n)
          × (Linear.insert s (view_of k) (view_of v) ≡ ok (false, s)))
        ⊎ Inserts n s m k v
  unfolding Linear.insert find_slot write
  insert-Inserts fit =
      let key = view_of k in
      let pos : 0 < s.cap = omega (arith, h.slots, h.width) in
      let reads = reads-answer in
      elim (Probe-cases (probe_for s key)) [
        | inl e ↦ inl (
          ground (arith, reads, e),
          omega (arith, filled-exhausted s key pos e, h.counted, h.number, h.width),
          ground (arith, e, fit, pos),
        )
        | inr (inl (x, e)) ↦
            let entry = write_entry (s.entries x) (hash key) key (view_of v) in
            let grows =
              filled-vacant s key x (s.size + 1) entry pos e (unfold write_entry in refl) in
            inr (record {
              after = record s { size = s.size + 1; entries = update s.entries x entry };
              room = inr (omega (arith, filled-lt s key x pos e, h.counted, h.number, h.width));
              run = ground (arith, e, fit, pos);
              width = refl;
              counted = omega (arith, grows, h.counted);
              number = ground (arith, reads, e, h.number);
            })
        | inr (inr (x, e)) ↦
            let entry = write_entry (s.entries x) (hash key) key (view_of v) in
            let keeps = filled-hit s key x s.size entry pos e (unfold write_entry in refl) in
            inr (record {
              after = record s { entries = update s.entries x entry };
              room = inl (ground (arith, reads, e));
              run = ground (arith, e, fit, pos);
              width = refl;
              counted = omega (arith, keeps, h.counted);
              number = ground (arith, reads, e, h.number);
            })
      ]

  pub inserted-Matches : IsPlain v → (i : Inserts n s m k v) → Matches n i.after (assigned m k v)
  unfolding text_key
  inserted-Matches plain_value i =
      let tk = view-IsTerminated k plain in
      record {
        slots = h.slots;
        width = i.width ∙ h.width;
        compact = insert-IsCompact s (view_of k) (view_of v) h.compact i.run;
        counted = i.counted;
        reads = λ q plain_q. elim (Bool-cases (same k q)) [
          | inl here ↦
              let at : k ≡ q = (same_iff k q).0 here in
              let stored =
                get-insert_self s (view_of k) (view_of v) tk (view-IsTerminated v plain_value)
                  i.run in
              rw here (subst (λ x. Linear.get i.after (view_of x) ≡ ok (some v)) at stored)
          | inr other ↦
              let apart : c_string (q ++ (0 ∷ [])) ≢ k = λ e.
                absurd
                  (ground (arith, other, same_iff k q, e, (view-IsTerminated q plain_q).ends)) in
              rw other (
                get-insert_other s (view_of k) (view_of v) (view_of q) h.compact tk apart i.run
                ∙ h.reads q plain_q)
        ];
        number = i.number;
      }

  -- An `insert` for which there is room.
  pub insert-Matches :
      IsPlain v
      → fits k v ≡ true
      → (is_some (m.reads k) ≡ true) ⊎ (m.number < n)
      → (s' : Store) × (Linear.insert s (view_of k) (view_of v) ≡ ok (true, s'))
        × Matches n s' (assigned m k v)
  insert-Matches plain_value fit room = elim (insert-Inserts fit) [
    | inl (absent, full, e) ↦ absurd (ground (arith, room, absent, full))
    | inr i ↦ (i.after, i.run, inserted-Matches plain_value i)
  ]

-- A new store with slots holds nothing.
pub new-Matches : (n : ℕ) → 0 < n → Matches n (Linear.new n) nothing
unfolding Linear.new Linear.zeroed
new-Matches n pos = record {
  slots = pos;
  width = refl;
  compact = new-IsCompact n;
  counted = sym (total-zero weight Linear.zeroed n refl);
  reads = λ q plain.
      let home = probe_at_home (Linear.new n) (hash (view_of q)) (view_of q) n pos refl in
      get-answer (Linear.new n) (view_of q) pos ∙ rw home;
  number = refl;
}
