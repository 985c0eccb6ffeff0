-- ===== src/Logging.antt =====
-- common/include/common/logging.hpp: the level filter of `log`. What reaches `std::clog` is a list of
-- lines, each a level and a message.
use cpp_systems_playground.Prelude.{
  ℕ, ◌≡◌, refl, inl, inr, List, [], ◌∷◌, ◌++◌, sym, ◌∙◌, ap, Bool-cases, ltb, if◌then◌else◌, true,
  false, Bool, not,
}
use Prim.Native.String.{String}
use mathlib.Core.List.{append-nil, append_assoc}

pub data LogLevel : Type 0 where
  debug info warn error : LogLevel

abbrev pub to_int : LogLevel → ℕ
to_int debug = 0
to_int info = 1
to_int warn = 2
to_int error = 3

unfoldable pub level_to_string : LogLevel → String
level_to_string debug = "DEBUG"
level_to_string info = "INFO"
level_to_string warn = "WARN"
level_to_string error = "ERROR"

-- The global level and what was written.
pub record Log {ℓ} (T : Type ℓ) : Type ℓ where
  pub global_log_level : LogLevel
  pub lines : List (LogLevel × T)

module _ {ℓ} {T : Type ℓ} where
  unfoldable pub set_log_level : Log T → LogLevel → Log T
  set_log_level l level = record l { global_log_level = level }

  unfoldable pub log : Log T → LogLevel → T → Log T
  log l level message =
      if ltb (to_int level) (to_int l.global_log_level)
      then l
      else record l { lines = l.lines ++ (level, message) ∷ [] }

-- A call of either function.
pub data Call {ℓ} (T : Type ℓ) : Type ℓ where
  set : LogLevel → Call T
  say : LogLevel → T → Call T

module _ {ℓ} {T : Type ℓ} where
  unfoldable pub run : Log T → List (Call T) → Log T
  unfolding set_log_level
  run l [] = l
  run l (set level ∷ calls) = run (set_log_level l level) calls
  run l (say level message ∷ calls) = run (log l level message) calls

-- The levels by rank, DEBUG lowest and ERROR highest: whether a level is at or above another one.
abbrev pub reaches : LogLevel → LogLevel → Bool
reaches level debug = true
reaches debug info = false
reaches info info = true
reaches warn info = true
reaches error info = true
reaches debug warn = false
reaches info warn = false
reaches warn warn = true
reaches error warn = true
reaches debug error = false
reaches info error = false
reaches warn error = false
reaches error error = true

-- The test of `log` on the numbers of the levels.
ltb-to_int : (level g : LogLevel) → reaches level g ≡ not (ltb (to_int level) (to_int g))
ltb-to_int debug debug = refl
ltb-to_int info debug = refl
ltb-to_int warn debug = refl
ltb-to_int error debug = refl
ltb-to_int debug info = refl
ltb-to_int info info = refl
ltb-to_int warn info = refl
ltb-to_int error info = refl
ltb-to_int debug warn = refl
ltb-to_int info warn = refl
ltb-to_int warn warn = refl
ltb-to_int error warn = refl
ltb-to_int debug error = refl
ltb-to_int info error = refl
ltb-to_int warn error = refl
ltb-to_int error error = refl

module _ {ℓ} {T : Type ℓ} where
  -- The messages of a history whose level is at or above the one that holds when they come.
  unfoldable pub admitted : LogLevel → List (Call T) → List (LogLevel × T)
  admitted g [] = []
  admitted g (set level ∷ calls) = admitted level calls
  admitted g (say level message ∷ calls) =
      if reaches level g then (level, message) ∷ admitted g calls else admitted g calls

  log-below :
      (l : Log T) (level : LogLevel) (message : T)
      → ltb (to_int level) (to_int l.global_log_level) ≡ true
      → log l level message ≡ l
  unfolding log
  log-below l level message h = rw h

  log-above :
      (l : Log T) (level : LogLevel) (message : T)
      → ltb (to_int level) (to_int l.global_log_level) ≡ false
      → log l level message ≡ record l { lines = l.lines ++ (level, message) ∷ [] }
  unfolding log
  log-above l level message h = rw h

  -- A history writes exactly the messages at or above the level in force when they come, DEBUG being
  -- below INFO, INFO below WARN and WARN below ERROR,
  -- in their order, behind what was written before.
  pub run-admitted :
      (l : Log T) (calls : List (Call T))
      → (run l calls).lines ≡ l.lines ++ admitted l.global_log_level calls
  unfolding run admitted
  run-admitted l [] = sym (append-nil l.lines)
  run-admitted l (set level ∷ calls) = run-admitted (record l { global_log_level = level }) calls
  run-admitted l (say level message ∷ calls) =
      elim (Bool-cases (ltb (to_int level) (to_int l.global_log_level))) [
        | inl low ↦
            run-log (log-below l level message low)
              (rw (ltb-to_int level l.global_log_level, low) (run-admitted l calls))
        | inr high ↦ run-log (log-above l level message high) (
            rw (ltb-to_int level l.global_log_level, high)
              (run-admitted (record l { lines = l.lines ++ (level, message) ∷ [] }) calls
                ∙ append_assoc l.lines ((level, message) ∷ []) (admitted l.global_log_level calls)))
      ]
    where
      run-log :
          {m : Log T} {out : List (LogLevel × T)}
          → log l level message ≡ m
          → (run m calls).lines ≡ out
          → (run (log l level message) calls).lines ≡ out
      run-log e h = ap (λ m. (run m calls).lines) e ∙ h
