-- ===== src/Linear/Compact.antt =====
-- What `insert` of `KVStoreOptimized` does to the other keys, in a store where no probe path has a gap.
use cpp_systems_playground.Prelude.{
  ℕ, zero, suc, ◌+◌, ◌%◌, ◌≤◌, ◌<◌, ◌≡◌, refl, sym, ap, ◌∙◌, ◌≢◌, true, false, none, ◌++◌, arith,
  ok,
}
use cpp_systems_playground.Prelude.Modular.{offset_ne}
use native.Mathlib.Decide.{ℕ_discrete}
use cpp_systems_playground.Linear.Text.{
  View, c_string, hash, IsTerminated, c_string-copy, strcmp_equal_iff, copy,
}
use cpp_systems_playground.Linear.{
  Store, Entry, slot_at, probe, matches, insert, get, write_entry, new,
}
use cpp_systems_playground.Linear.Probing.{Reached, probe-Reached, probe-vacant, probe-hit, written}
use cpp_systems_playground.Linear.Reads.{answer, get-answer, insert-written}

-- On the path of an entry's own hash every slot before it is occupied.
abbrev pub IsCompact : Store → Type 0
IsCompact s =
    (h i j : ℕ)
    → i ≤ j
    → j < s.cap
    → (s.entries (slot_at s h i)).occupied ≡ false
    → (s.entries (slot_at s h j)).occupied ≡ true
    → (s.entries (slot_at s h j)).hash ≢ h

pub new-IsCompact : (capacity : ℕ) → IsCompact (new capacity)
unfolding new
new-IsCompact capacity h i j a b c d = cc

slot_at-injective :
    (s : Store) (h i j : ℕ) → i < s.cap → j < s.cap → slot_at s h i ≡ slot_at s h j → i ≡ j
unfolding slot_at
slot_at-injective s h i j a b e = elim (ℕ_discrete i j) [
  | yes p ↦ p
  | no p ↦ absurd (offset_ne s.cap (h % s.cap) i j a b p e)
]

-- The slot where the probe for a hash stops is filled with an entry of that hash.
written-IsCompact :
    (s : Store) (x size : ℕ) (e : Entry)
    → IsCompact s
    → Reached s e.hash 0 x s.cap
    → e.occupied ≡ true
    → IsCompact (written s x size e)
unfolding slot_at
written-IsCompact s x size e c r o h i j le lt free full same =
    elim (ℕ_discrete x (slot_at s h j)) [
      | no other ↦ ground (arith, c h i j)
      | yes here ↦ ground (arith, slot_at-injective s h j r.steps, r.passed i)
    ]

-- Behind a gap in the path of its hash a key is not found.
answer-gap :
    (s : Store) (q : View) (h g : ℕ) (n i : ℕ)
    → IsCompact s
    → g ≤ i
    → i + n ≡ s.cap
    → (s.entries (slot_at s h g)).occupied ≡ false
    → answer s (probe s h q n i) ≡ none
unfolding probe matches
answer-gap s q h g zero i c le e free = refl
answer-gap s q h g (suc n) i c le e free = ground (arith, answer-gap s q h g n (i + 1), c h g i)

module _ (s : Store) (x size : ℕ) (e : Entry) (q : View) (h : ℕ) (compact : IsCompact s)
    (o : e.occupied ≡ true)
    (old : (s.entries x).occupied ≡ true → matches (s.entries x) h q ≡ false)
    (other : matches e h q ≡ false) where
  pub answer-written :
      (n i : ℕ)
      → i + n ≡ s.cap
      → answer (written s x size e) (probe (written s x size e) h q n i)
        ≡ answer s (probe s h q n i)
  unfolding probe slot_at
  answer-written zero i sum = refl
  answer-written (suc n) i sum = elim (ℕ_discrete x (slot_at s h i)) [
    | yes here ↦ ground (arith, answer-written n (i + 1), answer-gap s q h i n (i + 1) compact)
    | no apart ↦ ground (arith, answer-written n (i + 1))
  ]

-- An entry that `insert` writes for one text does not match another text.
other-matches :
    (e : Entry) (key value q : View)
    → IsTerminated key
    → c_string (q.bytes ++ q.behind) ≢ key.bytes
    → matches (write_entry e (hash key) key value) (hash q) q ≡ false
unfolding matches write_entry
other-matches e key value q t ne = ground (
  arith,
  strcmp_equal_iff (copy key.bytes e.key) (q.bytes ++ q.behind),
  c_string-copy key e.key t,
)

-- An entry that matches one text does not match another one.
match_unique :
    (e : Entry) (key q : View) (h g : ℕ)
    → IsTerminated key
    → c_string (q.bytes ++ q.behind) ≢ key.bytes
    → matches e h key ≡ true
    → matches e g q ≡ false
unfolding matches
match_unique e key q h g t ne m = ground (
  arith,
  strcmp_equal_iff e.key (q.bytes ++ q.behind),
  strcmp_equal_iff e.key (key.bytes ++ key.behind),
  t.ends,
)

pub insert-IsCompact :
    (s : Store) (key value : View) {s' : Store}
    → IsCompact s
    → insert s key value ≡ ok (true, s')
    → IsCompact s'
insert-IsCompact s key value {s'} c e =
    let (x, size, pos, p, w) = insert-written s key value e in
    rw w (
      written-IsCompact s x size (write_entry (s.entries x) (hash key) key value) c
        (unfold write_entry in (probe-Reached s (hash key) key s.cap 0 x p))
        (unfold write_entry in refl))

-- In a compact store an `insert` that succeeds under a terminated key changes what is read under no
-- other text.
pub get-insert_other :
    (s : Store) (key value q : View) {s' : Store}
    → IsCompact s
    → IsTerminated key
    → c_string (q.bytes ++ q.behind) ≢ key.bytes
    → insert s key value ≡ ok (true, s')
    → get s' q ≡ get s q
get-insert_other s key value q {s'} c t ne e =
    let (x, size, pos, p, w) = insert-written s key value e in
    let entry = write_entry (s.entries x) (hash key) key value in
    let old : (s.entries x).occupied ≡ true → matches (s.entries x) (hash q) q ≡ false = λ o.
      ground (
        arith,
        probe-vacant s (hash key) key s.cap 0 x,
        probe-hit s (hash key) key s.cap 0 x,
        match_unique (s.entries x) key q (hash key) (hash q) t ne,
      ) in
    ap (λ t. get t q) w
    ∙ get-answer (written s x size entry) q pos
    ∙ ap ok (
        answer-written s x size entry q (hash q) c (unfold write_entry in refl) old
          (other-matches (s.entries x) key value q t ne) s.cap 0 (omega arith))
    ∙ sym (get-answer s q pos)
