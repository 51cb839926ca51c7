-- ===== src/Fault.antt =====
-- include/archive_r/entry_fault.h, src/entry_fault.cc, src/entry_fault_error.h and src/entry_fault_error.cc: faults, the
-- messages built for them, and the exceptions that the code throws.
use archive_r.Base.{
  ℕ, zero, suc, ◌+◌, Option, none, some, [], ◌∷◌, ◌++◌, Text, codes, ℤ, pos, negsuc, ◌==ℤ◌, ltb,
  if◌then◌else◌,
}
use Prim.Native.Nat.{◌/◌, ◌%◌}
use archive_r.Hierarchy.{PathHierarchy, is_empty}

-- `EntryFault`.
pub record EntryFault : Type 0 where
  pub hierarchy : PathHierarchy
  pub message : Text
  pub errno_value : ℤ

-- src/entry_fault.cc: the registered callback, over the state `W` that it changes. An empty
-- `std::function` is `none`; a store and a load of the pointer are each one step.
abbrev pub FaultCallback : Type 0 → Type 0
FaultCallback W = EntryFault → W → W

unfoldable pub register_fault_callback :
    {W : Type 0} → Option (FaultCallback W) → Option (FaultCallback W) → Option (FaultCallback W)
register_fault_callback callback registered = callback

unfoldable pub dispatch_registered_fault :
    {W : Type 0} → Option (FaultCallback W) → EntryFault → W → W
dispatch_registered_fault none fault w = w
dispatch_registered_fault (some callback) fault w = callback fault w

-- What the code throws. `undefined` stands for undefined behaviour: an overflow of `int64_t`, or the
-- value of an entry that has none. `stuck` stands for a loop of the model whose
-- fuel ran out, and `filesystem_error` for std::filesystem's exception.
pub data Exception : Type 0 where
  invalid_argument logic_error : Text → Exception
  entry_fault : EntryFault → Exception
  undefined stuck filesystem_error : Exception

-- The outcome of a call that may throw.
pub data Result {ℓ} (A : Type ℓ) : Type ℓ where
  ok : A → Result A
  throws : Exception → Result A

-- `make_entry_fault_error`.
unfoldable pub make_entry_fault_error : Text → PathHierarchy → ℤ → Exception
make_entry_fault_error message hierarchy errno_value =
    entry_fault (record { hierarchy = hierarchy; message = message; errno_value = errno_value })

-- `std::to_string` of a number: its decimal digits. A number has fewer digits than `fuel = n + 1`.
decimal_digits : ℕ → ℕ → Text → Text
decimal_digits zero n digits = digits
decimal_digits (suc fuel) n digits =
    let digits' = (48 + n % 10) ∷ digits in
    let more = decimal_digits fuel (n / 10) digits' in if ltb n 10 then digits' else more

unfoldable pub to_string : ℤ → Text
unfolding decimal_digits
to_string (pos n) = decimal_digits (suc n) n []
to_string (negsuc n) = codes "-" ++ decimal_digits (suc (suc n)) (suc n) []

-- `strerror` is the C library's.
unfoldable pub format_errno_error : (ℤ → Text) → Text → ℤ → Text
unfolding to_string
format_errno_error strerror prefix err =
    if err ==ℤ pos 0
    then prefix
    else prefix
      ++ (codes ": " ++ (strerror err ++ (codes " (posix errno=" ++ (to_string err ++ codes ")"))))

unfoldable pub format_path_errno_error : (ℤ → Text) → Text → Text → ℤ → Text
unfolding format_errno_error
format_path_errno_error strerror action path err =
    format_errno_error strerror
      (if is_empty path then action else action ++ (codes " '" ++ (path ++ codes "'"))) err

unfoldable pub prefer_error_detail : Text → Text → Text
prefer_error_detail detail fallback = if is_empty detail then fallback else detail
