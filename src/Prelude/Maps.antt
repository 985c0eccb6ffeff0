-- ===== src/Prelude/Maps.antt =====
-- A finite map as what it reads under each key, with the number of its keys.
use Prim.Native.Nat.{ℕ, ◌+◌, ◌-◌}
use mathlib.Core.Option.{Option, none, some}
use cpp_systems_playground.Prelude.Tests.{if◌then◌else◌, is_some}
use cpp_systems_playground.Prelude.Keys.{Key}

pub record Ideal (K V : Type 0) : Type 0 where
  pub reads : K → Option V
  pub number : ℕ

module _ {K V : Type 0} where
  abbrev pub nothing : Ideal K V
  nothing = record { reads = λ q. none; number = 0 }

module _ {K V : Type 0} ⦃key : Key K⦄ where
  abbrev pub assigned : Ideal K V → K → V → Ideal K V
  assigned m k v = record {
    reads = λ q. if key.equal k q then some v else m.reads q;
    number = if is_some (m.reads k) then m.number else m.number + 1;
  }

  abbrev pub removed : Ideal K V → K → Ideal K V
  removed m k = record {
    reads = λ q. if key.equal k q then none else m.reads q;
    number = m.number - (if is_some (m.reads k) then 1 else 0);
  }
