-- ===== src/Files.antt =====
-- Saving a buffer to a file: `saveToFile` of hostend/injectProgram.c, which hostend/reset.c and
-- hostend/pinonsame.c repeat, and `save_bytecode` of guestend/daemon.c.
pub mod Laws
use huc.Base.{ℕ, Bool, true, false, Option, none, some, List, ◌==◌, if◌then◌else◌, take}

-- How `fopen`, `fwrite` and `fclose` turn out; `written` is what `fwrite` returns.
pub record FileCalls : Type 0 where
  pub fopen : Bool
  pub written : ℕ
  pub fclose : Bool

-- What stands in the file, `none` if it was not opened, and whether the function returns 0.
abbrev pub Saved : Type 0
Saved = Option (List ℕ) × Bool

-- `saveToFile(path, buf, len)`
unfoldable pub save_to_file : FileCalls → List ℕ → ℕ → Saved
save_to_file calls buf len =
    if calls.fopen
    then if calls.written == len
      then if calls.fclose then (some (take len buf), true) else (some (take len buf), false)
      else (some (take calls.written buf), false)
    else (none, false)

-- `save_bytecode(path, buf, len)`
unfoldable pub save_bytecode : FileCalls → List ℕ → ℕ → Saved
save_bytecode calls buf len =
    if calls.fopen
    then if calls.written == len
      then (some (take len buf), calls.fclose)
      else (some (take calls.written buf), false)
    else (none, false)
