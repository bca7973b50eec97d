-- ===== src/Debug.antt =====
-- arm_simulator-1.4/debug.c: the files whose messages are printed, in an array sorted by their names.
-- Indices are `int`s.
pub mod Order
pub mod Place
pub mod Insert
pub mod Search
use arm_processor_simulator.Base.{
  ℕ, zero, suc, ◌+◌, ◌-◌, ◌/◌, Bool, true, false, ◌&&◌, List, [], ◌∷◌, ◌++◌, Outcome, done, fault,
  ◌>>=◌, ltb, leb, ◌==◌, if◌then◌else◌, update, same_text,
}

abbrev pub max_files_number : ℕ
max_files_number = 64

pub record Files : Type 0 where
  pub debugged_files : ℕ → List ℕ
  pub nb_debugged_files : ℕ

-- `strcmp(a, b) < 0`
abbrev pub before : List ℕ → List ℕ → Bool
before [] [] = false
before [] (y ∷ ys) = true
before (x ∷ xs) [] = false
before (x ∷ xs) (y ∷ ys) = if x == y then before xs ys else ltb x y

-- The first loop of `add_debug_to`, from `i` on: it ends at 64 at the latest.
unfoldable pub find_place : ℕ → Files → List ℕ → ℕ → ℕ
find_place zero f name i = i
find_place (suc rounds) f name i =
    let rest = find_place rounds f name (i + 1) in
    if ltb i f.nb_debugged_files && ltb i max_files_number && before (f.debugged_files i) name
    then rest
    else i

-- `debugged_files[j] = name`
abbrev pub store : (ℕ → List ℕ) → ℕ → List ℕ → Outcome (ℕ → List ℕ)
store files j name = if ltb j max_files_number then done (update files j name) else fault

-- The second loop, which counts `j` down to `i`.
unfoldable pub move_up : ℕ → ℕ → (ℕ → List ℕ) → Outcome (ℕ → List ℕ)
move_up zero i files = done files
move_up (suc j) i files =
    let rest = store files (suc j) (files j) >>= λ files'. move_up j i files' in
    if ltb i (suc j) then rest else done files

unfoldable pub add_debug_to : Files → List ℕ → Outcome Files
add_debug_to f name =
    let i = find_place max_files_number f name 0 in
    if leb max_files_number i
    then done f
    else move_up f.nb_debugged_files i f.debugged_files >>= λ files.
        store files i name >>= λ files'.
        done (record { debugged_files = files'; nb_debugged_files = f.nb_debugged_files + 1 })

-- The loop of `__is_debugged`, and the test after it. `end` is `to + 1`, as `to` may be -1.
unfoldable pub search_loop : ℕ → (ℕ → List ℕ) → List ℕ → ℕ → ℕ → Bool
search_loop zero files name from end = false
search_loop (suc rounds) files name from end =
    let middle = (from + (end - 1)) / 2 in
    let above = search_loop rounds files name (middle + 1) end in
    let below = search_loop rounds files name from middle in
    if ltb (from + 1) end
    then (if before (files middle) name
        then above
        else if before name (files middle)
        then below
        else true)
    else from + 1 == end && same_text (files from) name

-- Each round halves what is left, and one more leaves the loop.
unfoldable pub is_debugged : Files → List ℕ → Bool
is_debugged f name =
    search_loop (suc f.nb_debugged_files) f.debugged_files name 0 f.nb_debugged_files

-- `isprint` in the locale of C.
abbrev pub is_print : ℕ → Bool
is_print c = leb 32 c && ltb c 127

-- What is printed of the bytes at the pointer.
unfoldable pub debug_raw_binary : ℕ → List ℕ → Outcome (List ℕ)
debug_raw_binary zero bytes = done []
debug_raw_binary (suc len) [] = fault
debug_raw_binary (suc len) (c ∷ bytes) = do
  rest ← debug_raw_binary len bytes
  done ((if is_print c then c else b'.') ∷ rest)
