-- ===== src/Tests/Silencer.antt =====
-- A silencer over a process with the three standard descriptors (management.hpp).
use pmt_renovated.Base.{ℕ, zero, suc, ◌+◌, ◌≡◌, refl, Option, none, some}
use pmt_renovated.Helper.Silencer.{Table, Process, System, set, idle, silence, stop}
use pmt_renovated.Helper.Silencer.Laws.{GivesFree}
use pmt_renovated.Helper.Silencer.Restore.{silence-stop}

-- The lowest free descriptor from 3 on, of ten.
abbrev free_or : Option ℕ → ℕ → Option ℕ → Option ℕ
free_or none i later = some i
free_or (some file) i later = later

abbrev lowest : Table → ℕ → ℕ → Option ℕ
lowest t i zero = none
lowest t i (suc tries) = free_or (t i) i (lowest t (i + 1) tries)

abbrev test_system : System
test_system = record { next = λ t. lowest t 3 10; null_file = 77; null_buffer = 78 }

free_or-free :
    (t : Table) (i n : ℕ) (r later : Option ℕ)
    → t i ≡ r
    → (later ≡ some n → t n ≡ none)
    → free_or r i later ≡ some n
    → t n ≡ none
free_or-free t i n none later e rest given = cc
free_or-free t i n (some file) later e rest given = rest given

lowest-free : (t : Table) (i tries n : ℕ) → lowest t i tries ≡ some n → t n ≡ none
lowest-free t i zero n e = cc
lowest-free t i (suc tries) n e =
    free_or-free t i n (t i) (lowest t (i + 1) tries) refl (lowest-free t (i + 1) tries n) e

test_system-GivesFree : GivesFree test_system
test_system-GivesFree t n e = lowest-free t 3 10 n e

abbrev test_table : Table
test_table zero = some 10
test_table (suc zero) = some 11
test_table (suc (suc zero)) = some 12
test_table (suc (suc (suc n))) = none

abbrev test_process : Process
test_process = record { cout = some 20; cerr = some 21; table = test_table }

silence-stop_example :
    let (quiet, during) = silence test_system idle test_process in
    let (later, after) = stop quiet during in
    (during.cout ≡ some 78)
    × (during.cerr ≡ some 78)
    × (during.table 1 ≡ some 77)
    × (during.table 2 ≡ some 77)
    × (later ≡ idle)
    × (after.cout ≡ some 20)
    × (after.cerr ≡ some 21)
    × ((m : ℕ) → after.table m ≡ test_table m)
unfolding set
silence-stop_example =
    silence-stop test_system test_table 3 4 5 6 11 12 20 (some 21) refl refl test_system-GivesFree
      refl refl refl refl
