-- ===== src/Redis/Visible.antt =====
-- What the calls of `KVStore` let a client see at each time.
use cpp_systems_playground.Prelude.{
  ℕ, ◌≤◌, ◌≡◌, refl, inl, inr, true, Option, none, some, arith, if◌then◌else◌, Bool-cases,
  Option-cases,
}
use cpp_systems_playground.Redis.{
  Text, Entry, Store, same, find, remove, is_expired, get, erase, erase_if_expired,
}
use cpp_systems_playground.Redis.Order.{IsSorted, find-remove, remove-IsSorted, same_iff}

-- The value under a key that has not expired at a time.
abbrev pub visible_in : Option Entry → ℕ → Option Text
visible_in none t = none
visible_in (some e) t = if is_expired e t then none else some e.value

abbrev pub visible : Store → ℕ → Text → Option Text
visible s t q = visible_in (find q s.store) t

-- From a time on, `s'` shows what `s` shows, and it stays sorted.
pub record SameFrom (now : ℕ) (s s' : Store) : Type 0 where
  pub sorted : IsSorted s'.store
  pub shows : (t : ℕ) (q : Text) → now ≤ t → visible s' t q ≡ visible s t q

-- An expired entry can be removed unseen.
remove-SameFrom :
    {s : Store} (now : ℕ) (k : Text) (e : Entry)
    → IsSorted s.store
    → find k s.store ≡ some e
    → is_expired e now ≡ true
    → SameFrom now s (record s { store = remove k s.store })
unfolding is_expired
remove-SameFrom {s} now k e sorted found gone = record {
  sorted = remove-IsSorted k s.store sorted;
  shows = λ t q later. rw (find-remove k q s.store sorted) (elim (Bool-cases (same k q)) [
    | inl here ↦ let at : k ≡ q = (same_iff k q).0 here in rw (here, ← at, found) (ground arith)
    | inr other ↦ rw other
  ]);
}

erase_if_expired-SameFrom :
    (s : Store) (now : ℕ) (k : Text) → IsSorted s.store → SameFrom now s (erase_if_expired s now k)
unfolding erase_if_expired
erase_if_expired-SameFrom s now k sorted = elim (Option-cases (find k s.store)) [
  | inl absent ↦ rw (absent, erase_if_expired) (record { sorted = sorted; shows = λ t q h. refl })
  | inr (e, found) ↦ elim (Bool-cases (is_expired e now)) [
    | inl gone ↦ rw (found, erase_if_expired, gone) (remove-SameFrom now k e sorted found gone)
    | inr fresh ↦
        rw (found, erase_if_expired, fresh) (record { sorted = sorted; shows = λ t q h. refl })
  ]
]

-- On a sorted store `get` answers with the value that is visible at its time; that it erases an expired entry shows
-- in no later answer.
get-visible :
    (s : Store) (now : ℕ) (k : Text)
    → IsSorted s.store
    → ((get s now k).0 ≡ visible s now k) × SameFrom now s (get s now k).1
unfolding get
get-visible s now k sorted = elim (Option-cases (find k s.store)) [
  | inl absent ↦ rw (absent, get) (refl, record { sorted = sorted; shows = λ t q h. refl })
  | inr (e, found) ↦ elim (Bool-cases (is_expired e now)) [
    | inl gone ↦ rw (found, get, gone) (refl, erase_if_expired-SameFrom s now k sorted)
    | inr fresh ↦ rw (found, get, fresh) (refl, record { sorted = sorted; shows = λ t q h. refl })
  ]
]

-- On a sorted store `erase` hides its key at all times and changes no other key; the store stays
-- sorted.
erase-visible :
    (s : Store) (k : Text)
    → IsSorted s.store
    → IsSorted (erase s k).store
      × ((t : ℕ) (q : Text) → visible (erase s k) t q ≡ (if same k q then none else visible s t q))
unfolding erase
erase-visible s k sorted =
    (remove-IsSorted k s.store sorted, λ t q. ground (arith, find-remove k q s.store sorted))
