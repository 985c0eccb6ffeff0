-- ===== src/Tests/Owners.antt =====
-- Two unique pointers.
use cpp_systems_playground.Prelude.{ℕ, none, some, [], ◌∷◌, ◌++◌, update}
use cpp_systems_playground.SmartPtr.Unique.{move_assign, reset}
use cpp_systems_playground.SmartPtr.Ownership.{Program}

abbrev at_start : Program ℕ
at_start = record {
  pointers = λ i. record { ptr = none; deleter = 0 };
  made = [];
  deleted = [];
  released = [];
}

abbrev one_made : Program ℕ
one_made = record {
  pointers = update at_start.pointers 0 (reset (at_start.pointers 0) (some 7)).0;
  made = 7 ∷ [];
  deleted = (reset (at_start.pointers 0) (some 7)).1 ++ [];
  released = [];
}

abbrev moved : Program ℕ
moved = record one_made {
  pointers =
      update
        (update one_made.pointers 1 (move_assign (one_made.pointers 1) (one_made.pointers 0)).0) 0
        (move_assign (one_made.pointers 1) (one_made.pointers 0)).1;
  deleted = (move_assign (one_made.pointers 1) (one_made.pointers 0)).2 ++ one_made.deleted;
}
