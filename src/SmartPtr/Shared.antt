-- ===== src/SmartPtr/Shared.antt =====
-- smart_pointers/include/smart_pointers/shared_ptr.hpp: `ControlBlock<T>` and `SharedPtr<T>` over an
-- explicit heap. The destructor of `T` is taken to touch no smart pointer; SmartPtr/Nested has `release`
-- with a destructor that may, and the proof that the two agree where it does not.
use cpp_systems_playground.Prelude.{
  ℕ, ◌+◌, ◌-◌, ◌%◌, ◌^◌, Bool, false, Option, none, some, Outcome, ok, err, Fault, ◌>>=◌, ◌==◌,
  if◌then◌else◌, is_some, update,
}

-- An object is named by a number.
pub record ControlBlock : Type 0 where
  pub ptr : Option ℕ
  pub strong_count : ℕ
  pub weak_count : ℕ

-- `blocks c` is `none` where no control block is allocated; `alive o` says whether the object `o`
-- exists; new control blocks take the addresses from `next` on.
pub record Heap : Type 0 where
  pub blocks : ℕ → Option ControlBlock
  pub alive : ℕ → Bool
  pub next : ℕ

-- `++` and `--` on a `std::size_t`.
abbrev pub increment : ℕ → ℕ
increment n = (n + 1) % 2 ^ 64

abbrev pub decrement : ℕ → ℕ
decrement n = (n + 2 ^ 64 - 1) % 2 ^ 64

pub record SharedPtr : Type 0 where
  pub ctrl : Option ℕ
  pub ptr : Option ℕ

unfoldable pub null : SharedPtr
null = record { ctrl = none; ptr = none }

-- A read through the pointer to a control block.
unfoldable pub load : Heap → ℕ → Outcome ControlBlock
load h c = elim (h.blocks c) [ none ↦ err Fault.undefined | some b ↦ ok b ]

unfoldable pub store : Heap → ℕ → ControlBlock → Heap
store h c b = record h { blocks = update h.blocks c (some b) }

-- `delete ctrl`
unfoldable pub free_block : Heap → ℕ → Heap
free_block h c = record h { blocks = update h.blocks c none }

-- `delete ctrl_->ptr`: nothing for a null pointer, undefined for an object that is gone.
unfoldable pub delete_object : Heap → Option ℕ → Outcome Heap
delete_object h none = ok h
delete_object h (some o) =
    if h.alive o then ok (record h { alive = update h.alive o false }) else err Fault.undefined

-- `explicit SharedPtr(T* ptr)`
unfoldable pub from_raw : Heap → Option ℕ → Heap × SharedPtr
from_raw h none = (h, record { ctrl = none; ptr = none })
from_raw h (some o) = (
  record h {
    blocks =
        update h.blocks h.next (some (record { ptr = some o; strong_count = 1; weak_count = 0 }));
    next = h.next + 1;
  },
  record { ctrl = some h.next; ptr = some o },
)

unfoldable pub inc_strong : Heap → Option ℕ → Outcome Heap
unfolding load store
inc_strong h none = ok h
inc_strong h (some c) = do
  b ← load h c
  ok (store h c (record b { strong_count = increment b.strong_count }))

-- The private constructor from a control block, which `lock` uses.
unfoldable pub from_block : Heap → ℕ → Outcome (Heap × SharedPtr)
unfolding inc_strong
from_block h c = do
  b ← load h c
  h' ← inc_strong h (some c)
  ok (h', record { ctrl = some c; ptr = b.ptr })

-- What `release` does when the count has fallen to 0, for an object without smart pointers.
unfoldable pub drop_last : Heap → ℕ → ControlBlock → Outcome Heap
unfolding delete_object free_block store
drop_last h c b = do
  h' ← delete_object h b.ptr
  ok (if b.weak_count == 0 then free_block h' c else store h' c (record b { ptr = none }))

-- `release`; the pointer itself is null afterwards.
unfoldable pub release : Heap → SharedPtr → Outcome (Heap × SharedPtr)
unfolding drop_last null
release h this = elim this.ctrl [
  | none ↦ ok (h, this)
  | some c ↦ do
    b ← load h c
    let less = record b { strong_count = decrement b.strong_count }
    h' ← if decrement b.strong_count == 0 then drop_last h c less else ok (store h c less)
    ok (h', null)
]

-- The destructor, which returns the heap.
unfoldable pub destroy : Heap → SharedPtr → Outcome Heap
unfolding release
destroy h this = do (h', _) ← release h this; ok h'

-- The copy constructor.
unfoldable pub copy : Heap → SharedPtr → Outcome (Heap × SharedPtr)
copy h other = do h' ← inc_strong h other.ctrl; ok (h', other)

-- Copy assignment from another object.
unfoldable pub copy_assign : Heap → SharedPtr → SharedPtr → Outcome (Heap × SharedPtr)
copy_assign h this other = do
  (h', _) ← release h this
  h'' ← inc_strong h' other.ctrl
  ok (h'', other)

-- The move constructor: the new pointer and what is left of `other`.
unfoldable pub move : SharedPtr → SharedPtr × SharedPtr
unfolding null
move other = (other, null)

-- Move assignment from another object: `this` and `other` afterwards.
unfoldable pub move_assign : Heap → SharedPtr → SharedPtr → Outcome (Heap × SharedPtr × SharedPtr)
move_assign h this other = do (h', _) ← release h this; ok (h', other, null)

-- `reset()`
unfoldable pub reset : Heap → SharedPtr → Outcome (Heap × SharedPtr)
reset h this = release h this

-- `reset(T* new_ptr)`
unfoldable pub reset_to : Heap → SharedPtr → Option ℕ → Outcome (Heap × SharedPtr)
reset_to h this new_ptr = do
  (h', this') ← release h this
  elim new_ptr [ none ↦ ok (h', this') | some o ↦ ok (from_raw h' (some o)) ]

unfoldable pub swap : SharedPtr → SharedPtr → SharedPtr × SharedPtr
swap this other = (other, this)

unfoldable pub use_count : Heap → Option ℕ → Outcome ℕ
use_count h none = ok 0
use_count h (some c) = do b ← load h c; ok b.strong_count

-- `make_shared`, of an object that has just been made.
unfoldable pub make_shared : Heap → ℕ → Heap × SharedPtr
unfolding from_raw
make_shared h o = from_raw h (some o)

unfoldable pub get : SharedPtr → Option ℕ
get this = this.ptr

unfoldable pub to_bool : SharedPtr → Bool
to_bool this = is_some this.ptr
