-- ===== src/Files/Laws.antt =====
-- What the return code of a save says about the file.
use huc.Base.{ℕ, ◌≡◌, true, some, List, arith, take}
use huc.Files.{FileCalls, save_bytecode, save_to_file}

-- `save_bytecode` and the host's `saveToFile` are the same function.
save_bytecode-eq-save_to_file :
    (calls : FileCalls) (buf : List ℕ) (len : ℕ)
    → save_bytecode calls buf len ≡ save_to_file calls buf len
unfolding save_bytecode save_to_file
save_bytecode-eq-save_to_file calls buf len = ground arith

-- A save returns 0 only with the whole buffer in the file.
save_bytecode_whole :
    (calls : FileCalls) (buf : List ℕ) (len : ℕ)
    → (save_bytecode calls buf len).1 ≡ true
    → (save_bytecode calls buf len).0 ≡ some (take len buf)
unfolding save_bytecode
save_bytecode_whole calls buf len e = ground arith
