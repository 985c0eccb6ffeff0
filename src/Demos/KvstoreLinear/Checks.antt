-- ===== src/Demos/KvstoreLinear/Checks.antt =====
-- What the checks of kvstore_linear_demo.cpp report.
use native.Mathlib.Nat.{mod-lt}
use cpp_systems_playground.Prelude.{
  ℕ, zero, suc, ◌+◌, ◌-◌, ◌*◌, ◌%◌, ◌^◌, ◌≤◌, ◌<◌, ◌≡◌, inl, inr, refl, ap, ◌∙◌, true, false, ◌&&◌,
  none, some, ok, ◌>>=◌, [], ◌∷◌, if◌then◌else◌, ◌==◌, ltb, leb, length, length-append,
  length-replicate, replicate, arith,
}
use cpp_systems_playground.Prelude.Maps.{Ideal, nothing, assigned}
use cpp_systems_playground.Linear
use cpp_systems_playground.Linear.{Store, max_key, max_value}
use cpp_systems_playground.Linear.Text.{
  view_of, IsPlain, append-IsPlain, replicate-IsPlain, same, same_iff, c_string,
}
use cpp_systems_playground.Linear.Reads.{erase-found, get-erase_self}
use cpp_systems_playground.Linear.Matches.{fits, Matches, insert-Matches, new-Matches, text_key}
use cpp_systems_playground.Demos.KvstoreLinear.{
  Text, big_key, big_value, ow_key, first_value, second_value, entry_key, value_prefix, entry_value,
  bulk_insert, lookup_ok, lookups_ok, main,
}

-- What `std::to_string` is relied on for at the numbers of a `std::size_t`: texts without a zero byte,
-- of at most 20 digits, that differ for different numbers.
pub record IsDecimal (to_string : ℕ → Text) : Type 0 where
  pub plain : (i : ℕ) → i < 2 ^ 64 → IsPlain (to_string i)
  pub short : (i : ℕ) → i < 2 ^ 64 → length (to_string i) ≤ 20
  pub injective : (i j : ℕ) → i < 2 ^ 64 → j < 2 ^ 64 → to_string i ≡ to_string j → i ≡ j

module _ (to_string : ℕ → Text) (decimal : IsDecimal to_string) where
  key_at : (i : ℕ) → i < 2 ^ 64 → entry_key to_string i ≡ 107 ∷ 101 ∷ 121 ∷ 95 ∷ to_string i
  unfolding entry_key
  key_at i low = ground (arith, decimal.short i low)

  key-IsPlain : (i : ℕ) → i < 2 ^ 64 → IsPlain (entry_key to_string i)
  unfolding c_string
  key-IsPlain i low = rw (key_at i low, decimal.plain i low)

  prefix-IsPlain : (i : ℕ) → i < 2 ^ 64 → IsPlain (value_prefix to_string i)
  unfolding value_prefix c_string
  prefix-IsPlain i low =
      ap (λ l. 118 ∷ 97 ∷ 108 ∷ 117 ∷ 101 ∷ 95 ∷ l)
        (append-IsPlain (to_string i) (95 ∷ []) (decimal.plain i low) (unfold c_string in refl))

  value-IsPlain : (i : ℕ) → i < 2 ^ 64 → IsPlain (entry_value to_string i)
  unfolding entry_value
  value-IsPlain i low =
      append-IsPlain (value_prefix to_string i) _ (prefix-IsPlain i low)
        (replicate-IsPlain _ 88 (λ e. absurd (omega arith)))

  prefix_length : (i : ℕ) → length (value_prefix to_string i) ≡ length (to_string i) + 7
  unfolding value_prefix
  prefix_length i = omega (arith, length-append (to_string i) (95 ∷ []))

  value_length : (i : ℕ) → i < 2 ^ 64 → length (entry_value to_string i) ≡ 256
  unfolding entry_value
  value_length i low =
      let size = length (value_prefix to_string i) in
      let rest = if ltb size max_value then max_value - size else 0 in
      ground (
        arith,
        length-append (value_prefix to_string i) (replicate rest 88),
        length-replicate {A = ℕ} rest 88,
        prefix_length i,
        decimal.short i low,
      )

  entry_fits : (i : ℕ) → i < 2 ^ 64 → fits (entry_key to_string i) (entry_value to_string i) ≡ true
  entry_fits i low = rw (key_at i low) (ground (arith, value_length i low, decimal.short i low))

  same_key :
      (i j : ℕ)
      → i < 2 ^ 64
      → j < 2 ^ 64
      → same (entry_key to_string i) (entry_key to_string j) ≡ (i == j)
  unfolding same
  same_key i j low low' =
      rw (key_at i low, key_at j low')
        (ground (arith, same_iff (to_string i) (to_string j), decimal.injective i j low low'))

  -- The map after the bulk insert: the entries left, and the next one.
  bulk_map : ℕ → ℕ → Ideal Text Text → Ideal Text Text
  bulk_map zero i m = m
  bulk_map (suc n) i m =
      bulk_map n (i + 1) (assigned m (entry_key to_string i) (entry_value to_string i))

  bulk_insert-Matches :
      {cap : ℕ} {s : Store} {m : Ideal Text Text} (n i : ℕ)
      → Matches cap s m
      → m.number + n ≤ cap
      → i + n ≤ 2 ^ 64
      → (s' : Store) × (bulk_insert to_string n i s ≡ ok s') × Matches cap s' (bulk_map n i m)
  unfolding bulk_insert bulk_map
  bulk_insert-Matches {s = s} zero i h room low = (s, refl, h)
  bulk_insert-Matches {cap} {s} {m} (suc n) i h room low =
      let k = entry_key to_string i in
      let v = entry_value to_string i in
      let (s1, e, h1) =
        insert-Matches k v h (key-IsPlain i (omega arith)) (value-IsPlain i (omega arith))
          (entry_fits i (omega arith)) (inr (omega (arith, room))) in
      let (s', e', h') =
        bulk_insert-Matches {cap = cap} {s = s1} {m = assigned m k v} n (i + 1) h1
          (ground (arith, room)) (omega arith) in
      (s', rw (e, ◌>>=◌) e', h')

  bulk_map-reads :
      (n i j : ℕ) (m : Ideal Text Text)
      → i + n ≤ 2 ^ 64
      → j < 2 ^ 64
      → (bulk_map n i m).reads (entry_key to_string j) ≡ (
          if leb i j && ltb j (i + n)
          then some (entry_value to_string j)
          else m.reads (entry_key to_string j))
  unfolding bulk_map text_key
  bulk_map-reads zero i j m top low = ground arith
  bulk_map-reads (suc n) i j m top low = ground (
    arith,
    bulk_map-reads n (i + 1) j (assigned m (entry_key to_string i) (entry_value to_string i))
        (omega arith) low,
    same_key i j (omega arith) low,
    ap (λ x. entry_value to_string x) {x = i} {y = j},
  )

  bulk_map-number :
      (n i : ℕ) (m : Ideal Text Text)
      → i + n ≤ 2 ^ 64
      → ((j : ℕ) → i ≤ j → j < 2 ^ 64 → m.reads (entry_key to_string j) ≡ none)
      → (bulk_map n i m).number ≡ m.number + n
  unfolding bulk_map text_key
  bulk_map-number zero i m top absent = omega arith
  bulk_map-number (suc n) i m top absent =
      let rest =
        bulk_map-number n (i + 1) (assigned m (entry_key to_string i) (entry_value to_string i))
          (omega arith)
          (λ j low small.
            ground (arith, absent j (omega arith) small, same_key i j (omega arith) small, low)) in
      ground (arith, rest, absent i (omega arith) (omega arith))

  lookup-true :
      {cap : ℕ} {s : Store} {m : Ideal Text Text} (j : ℕ)
      → j < 2 ^ 64
      → Matches cap s m
      → m.reads (entry_key to_string j) ≡ some (entry_value to_string j)
      → lookup_ok to_string s j ≡ ok true
  unfolding lookup_ok
  lookup-true j low h e =
      let v = entry_value to_string j in
      rw (h.reads (entry_key to_string j) (key-IsPlain j low), e, ◌>>=◌)
        (ap ok ((same_iff v v).1 refl))

  lookups-true :
      {cap : ℕ} {s : Store} {m : Ideal Text Text} (num_entries n i : ℕ)
      → 0 < num_entries
      → num_entries ≤ 2 ^ 64
      → Matches cap s m
      → ((j : ℕ)
          → j < num_entries
          → m.reads (entry_key to_string j) ≡ some (entry_value to_string j))
      → lookups_ok to_string s num_entries n i ≡ ok true
  unfolding lookups_ok
  lookups-true num_entries zero i pos top h stored = refl
  lookups-true {s = s} num_entries (suc n) i pos top h stored =
      let idx = i * 9973 % num_entries in
      let low : idx < num_entries = mod-lt (i * 9973) pos in
      let here = lookup-true idx (omega (arith, low, top)) h (stored idx low) in
      let some_entries : (num_entries == 0) ≡ false = ground (arith, pos) in
      rw (some_entries, here, ◌>>=◌, lookups-true num_entries n (i + 1) pos top h stored) refl

  big_apart : (j : ℕ) → j < 2 ^ 64 → same big_key (entry_key to_string j) ≡ false
  unfolding same
  big_apart j low = rw (key_at j low) refl

  -- The part of `main` that overwrites and erases.
  record Overwrites (s : Store) : Type 0 where
    once : Store
    twice : Store
    gone : Store
    first : Linear.insert s (view_of ow_key) (view_of first_value) ≡ ok (true, once)
    second : Linear.insert once (view_of ow_key) (view_of second_value) ≡ ok (true, twice)
    reads : Linear.get twice (view_of ow_key) ≡ ok (some second_value)
    erases : Linear.erase twice (view_of ow_key) ≡ ok (true, gone)
    lost : Linear.get gone (view_of ow_key) ≡ ok none

  overwritten :
      {cap : ℕ} {s : Store} {m : Ideal Text Text} → Matches cap s m → m.number < cap → Overwrites s
  unfolding c_string text_key
  overwritten {cap} {s} {m} h room =
      let self : same ow_key ow_key ≡ true = (same_iff ow_key ow_key).1 refl in
      let (s1, e1, h1) = insert-Matches ow_key first_value h refl refl refl (inr room) in
      let (s2, e2, h2) =
        insert-Matches ow_key second_value h1 refl refl refl (inl (rw self refl)) in
      let found = h2.reads ow_key refl ∙ rw self refl in
      let (s3, e3) = erase-found s2 (view_of ow_key) second_value found in
      record {
        once = s1;
        twice = s2;
        gone = s3;
        first = e1;
        second = e2;
        reads = found;
        erases = e3;
        lost = get-erase_self s2 (view_of ow_key) e3;
      }

  -- `main` of the demonstration with at least one entry and room for two more than that, below 2 ^ 64, whatever the
  -- hash does: the big entry is found, every bulk insert and every sample succeeds, the key that is
  -- overwritten reads as its second value, is erased, and reads as nothing then.
  pub main-Report :
      (capacity num_entries : ℕ)
      → 0 < num_entries
      → num_entries + 2 ≤ capacity
      → capacity < 2 ^ 64
      → main to_string capacity num_entries
        ≡ ok (record {
          big_found = true;
          size = num_entries + 1;
          all_ok = true;
          after_overwrite = some second_value;
          erased = true;
          after_erase = none;
        })
  unfolding main text_key
  main-Report capacity n pos room top =
      let h0 = new-Matches capacity (omega arith) in
      let big_plain : IsPlain big_key = replicate-IsPlain 64 75 (λ e. absurd (omega arith)) in
      let value_plain : IsPlain big_value = replicate-IsPlain 256 86 (λ e. absurd (omega arith)) in
      let (s1, e1, h1) =
        insert-Matches big_key big_value h0 big_plain value_plain refl (inr (omega arith)) in
      let m1 = assigned nothing big_key big_value in
      let found : Linear.get s1 (view_of big_key) ≡ ok (some big_value) =
        h1.reads big_key big_plain ∙ rw ((same_iff big_key big_key).1 refl) refl in
      let (s2, e2, h2) = bulk_insert-Matches n 0 h1 (omega arith) (omega arith) in
      let number = bulk_map-number n 0 m1 (omega arith) (λ j low small. rw (big_apart j small)) in
      let samples =
        lookups-true n 5 0 pos (omega arith) h2
          (λ j low. ground (arith, bulk_map-reads n 0 j m1 (omega arith) (omega arith), low)) in
      let o = overwritten h2 (omega (arith, number, room)) in
      let size : s2.size ≡ n + 1 = omega (arith, h2.number, number) in
      rw (e1, ◌>>=◌, found, e2, samples, o.first, o.second, o.reads, o.erases, o.lost, size) refl
