-- ===== src/Redis/Sweeper.antt =====
-- The rounds of `sweepLoop` up to its next wait, with no other call in between and one reading of the
-- clock.
use cpp_systems_playground.Prelude.{
  ℕ, ok, ◌>>=◌, ◌^◌, zero, suc, ◌+◌, ◌≤◌, ◌<◌, ◌≡◌, refl, true, false, Option, none, some, [],
  arith,
}
use cpp_systems_playground.Redis.{
  Text, Entry, Store, find, is_expired, put, deadline, entry_of, take_version, put_store, put_heap,
  clear_store, clear_heap, sweep_from, sweep,
}
use cpp_systems_playground.Redis.Order.{IsSorted, find-assign, same_iff}
use cpp_systems_playground.Redis.Visible.{SameFrom}
use cpp_systems_playground.Redis.Nodes.{has, IsRising}
use cpp_systems_playground.Redis.Covers.{Covers}

-- `none` if the rounds are not enough.
unfoldable pub rounds : ℕ → Store → ℕ → Option Store
unfolding sweep
rounds zero s now = none
rounds (suc n) s now = elim (sweep s now) [ none ↦ some s | some s' ↦ rounds n s' now ]

-- No entry has expired at a time.
abbrev pub NoneExpired : Store → ℕ → Type 0
NoneExpired s now = (k : Text) (e : Entry) → find k s.store ≡ some e → is_expired e now ≡ false

record IsReady (s : Store) : Type 0 where
  sorted : IsSorted s.store
  rising : IsRising s.heap
  nodes : Covers (λ n. has n s.heap) s.store

-- What the rounds leave.
pub record Swept (s s' : Store) (now : ℕ) : Type 0 where
  pub clean : NoneExpired s' now
  pub same : SameFrom now s s'

-- A `put` with a time to live whose first critical section comes after the first one of a `clear`, and
-- whose second one comes before the second one of the `clear`, on any store, where the clock can count its deadline: at every time after its
-- deadline its entry is still there, and a round of the sweeper finds nothing to remove.
pub clear-put_lost :
    (s : Store) (now : ℕ) (k value : Text) (ttl t : ℕ)
    → 0 < ttl
    → now + ttl ≤ t
    → now + ttl < 2 ^ 63
    → (s1 : Store) × (put (clear_store s) now k value ttl ≡ ok s1)
      × (sweep (clear_heap s1) t ≡ none)
      × ((e : Entry) × (find k (clear_heap s1).store ≡ some e) × (is_expired e t ≡ true))
unfolding clear_heap clear_store put sweep sweep_from find is_expired
clear-put_lost s now k value ttl t pos later small =
    let e = entry_of (now + ttl) value ttl (take_version s).version_counter in
    let due : deadline now ttl ≡ ok (now + ttl) = unfold deadline in (ground (arith, pos, small)) in
    let s1 = put_store (clear_store s) (now + ttl) k value ttl in
    (
      put_heap s1 (now + ttl) k ttl s1.version_counter,
      rw (due, ◌>>=◌) refl,
      refl,
      (
        e,
        ground (arith, find-assign k k e [], same_iff k k),
        unfold entry_of in (ground (arith, pos, later)),
      ),
    )
