-- ===== src/Demos/KvstoreLinear.antt =====
-- kv_store_linear/src/kvstore_linear_demo.cpp: `main`, with `capacity`, `num_entries` and
-- `std::to_string` as arguments. A text is the list of its bytes; the timings are left out.
pub mod Checks
use cpp_systems_playground.Prelude.{
  ℕ, zero, suc, ◌+◌, ◌-◌, ◌*◌, ◌%◌, Bool, true, false, ◌&&◌, Option, none, some, Outcome, ok, err,
  Fault, ◌>>=◌, List, [], ◌∷◌, ◌++◌, if◌then◌else◌, ◌==◌, ltb, length, replicate, is_some,
}
use cpp_systems_playground.Linear
use cpp_systems_playground.Linear.{Store, max_key, max_value}
use cpp_systems_playground.Linear.Text.{view_of, same}

abbrev pub Text : Type 0
Text = List ℕ

-- `key.resize(n)` for a shorter `n`
unfoldable pub shortened : ℕ → Text → Text
shortened zero l = []
shortened (suc n) [] = []
shortened (suc n) (b ∷ l) = b ∷ shortened n l

-- What `main` prints: whether the big entry was found, the size after the bulk insert, whether the
-- samples were, what the key that was overwritten reads as, whether it was erased, and what it reads
-- as then.
pub record Report : Type 0 where
  pub big_found : Bool
  pub size : ℕ
  pub all_ok : Bool
  pub after_overwrite : Option Text
  pub erased : Bool
  pub after_erase : Option Text

abbrev pub big_key : Text
big_key = replicate max_key 75

abbrev pub big_value : Text
big_value = replicate max_value 86

-- "special_key", "first_value" and "second_value_large_" with 32 times 'Z'
abbrev pub ow_key : Text
ow_key = 115 ∷ 112 ∷ 101 ∷ 99 ∷ 105 ∷ 97 ∷ 108 ∷ 95 ∷ 107 ∷ 101 ∷ 121 ∷ []

abbrev pub first_value : Text
first_value = 102 ∷ 105 ∷ 114 ∷ 115 ∷ 116 ∷ 95 ∷ 118 ∷ 97 ∷ 108 ∷ 117 ∷ 101 ∷ []

abbrev pub second_value : Text
second_value =
    115
    ∷ 101
    ∷ 99
    ∷ 111
    ∷ 110
    ∷ 100
    ∷ 95
    ∷ 118
    ∷ 97
    ∷ 108
    ∷ 117
    ∷ 101
    ∷ 95
    ∷ 108
    ∷ 97
    ∷ 114
    ∷ 103
    ∷ 101
    ∷ 95
    ∷ replicate 32 90

module _ (to_string : ℕ → Text) where
  -- "key_" and the number
  unfoldable pub entry_key : ℕ → Text
  unfolding shortened
  entry_key i =
      let key = 107 ∷ 101 ∷ 121 ∷ 95 ∷ to_string i in
      if ltb max_key (length key) then shortened max_key key else key

  -- "value_", the number and "_"
  unfoldable pub value_prefix : ℕ → Text
  value_prefix i = 118 ∷ 97 ∷ 108 ∷ 117 ∷ 101 ∷ 95 ∷ (to_string i ++ (95 ∷ []))

  -- The prefix, filled up with 'X'
  unfoldable pub entry_value : ℕ → Text
  unfolding value_prefix
  entry_value i =
      let size = length (value_prefix i) in
      value_prefix i ++ replicate (if ltb size max_value then max_value - size else 0) 88

  -- The bulk insert, which stops at the first failure: the entries left, and the next one.
  unfoldable pub bulk_insert : ℕ → ℕ → Store → Outcome Store
  unfolding entry_key entry_value
  bulk_insert zero i s = ok s
  bulk_insert (suc n) i s = do
    (inserted, s') ← Linear.insert s (view_of (entry_key i)) (view_of (entry_value i))
    let rest = bulk_insert n (i + 1) s'
    if inserted then rest else ok s'

  -- One sample lookup.
  unfoldable pub lookup_ok : Store → ℕ → Outcome Bool
  lookup_ok s idx = do
    v ← Linear.get s (view_of (entry_key idx))
    ok (elim v [ none ↦ false | some text ↦ same text (entry_value idx) ])

  -- The sample lookups: those left, and the next one.
  unfoldable pub lookups_ok : Store → ℕ → ℕ → ℕ → Outcome Bool
  lookups_ok s num_entries zero i = ok true
  lookups_ok s num_entries (suc n) i = do
    this ← if num_entries == 0 then err Fault.undefined else lookup_ok s (i * 9973 % num_entries)
    rest ← lookups_ok s num_entries n (i + 1)
    ok (this && rest)

  unfoldable pub main : ℕ → ℕ → Outcome Report
  main capacity num_entries = do
    (stored, s1) ← Linear.insert (Linear.new capacity) (view_of big_key) (view_of big_value)
    big ← Linear.get s1 (view_of big_key)
    s2 ← bulk_insert num_entries 0 s1
    all_ok ← lookups_ok s2 num_entries 5 0
    (_, s3) ← Linear.insert s2 (view_of ow_key) (view_of first_value)
    (_, s4) ← Linear.insert s3 (view_of ow_key) (view_of second_value)
    after_overwrite ← Linear.get s4 (view_of ow_key)
    (erased, s5) ← Linear.erase s4 (view_of ow_key)
    after_erase ← Linear.get s5 (view_of ow_key)
    ok (record {
      big_found = stored && is_some big;
      size = s2.size;
      all_ok = all_ok;
      after_overwrite = after_overwrite;
      erased = erased;
      after_erase = after_erase;
    })
