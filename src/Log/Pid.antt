-- ===== src/Log/Pid.antt =====
-- writepid of src/hlog.c.
use edysquelch.Prelude.{ℕ, Bool, not, Option, none, some, [], ◌∷◌, ◌++◌, if◌then◌else◌, Bytes}
use edysquelch.OutJson.{decimal}

-- Whether fopen, fprintf and fclose succeed.
pub record PidCalls : Type 0 where
  pub opened : Bool
  pub printed : Bool
  pub closed : Bool

-- What is in the file afterwards, where it opens, and the value returned. A file that was opened
-- and not written is never closed.
unfoldable pub writepid : PidCalls → ℕ → Option Bytes × ℕ
writepid calls pid =
    if not calls.opened
    then (none, 0)
    else if not calls.printed
    then (some [], 0)
    else if not calls.closed
    then (some (decimal pid ++ (10 ∷ [])), 0)
    else (some (decimal pid ++ (10 ∷ [])), 1)
