-- ===== src/Tests/UniqueFd.antt =====
-- Examples for the objects that own descriptors (management.hpp).
use pmt_renovated.Base.{
  ℕ, ◌+◌, ◌≡◌, refl, true, false, none, some, List, [], ◌∷◌, ◌≤◌, codes, arith,
}
use pmt_renovated.Helper.UniqueFd.{
  Opens, Command, construct_file, move_to, re_open_at, close_at, open_same, move_new, exec_all,
  destroy_all,
}
use pmt_renovated.Helper.UniqueFd.Laws.{count, total, GivesFresh}
use pmt_renovated.Helper.UniqueFd.Owned.{destroy_all-exec_all}

-- A kernel that gives out a number above all that are open, and refuses the empty path.
abbrev above : List ℕ → ℕ
above [] = 3
above (n ∷ ns) = n + above ns + 1

abbrev test_opens : Opens
test_opens opened [] flags mode = none
test_opens opened (c ∷ cs) flags mode = some (above opened)

above-count : (n : ℕ) (opened : List ℕ) → above opened ≤ n → count n opened ≡ 0
above-count n [] h = refl
above-count n (m ∷ ms) h = ground (arith, above-count n ms (omega arith))

test_opens-GivesFresh : GivesFresh test_opens
test_opens-GivesFresh opened [] flags mode n e = cc
test_opens-GivesFresh opened (c ∷ cs) flags mode n e =
    let same : above opened ≡ n = cc in above-count n opened (omega arith)

abbrev test_commands : List Command
test_commands =
    construct_file (codes "a") 0 none
    ∷ construct_file (codes "b") 1 (some 438)
    ∷ move_to 0 1
    ∷ re_open_at 1 false
    ∷ re_open_at 0 true
    ∷ move_new 0
    ∷ close_at 1
    ∷ open_same 1 true
    ∷ []

-- Two objects hold one descriptor each, and the third one, whose path was moved away, has none.
runs :
    let s = exec_all test_opens test_commands (record { objects = []; opened = [] }) in
    (s.opened ≡ 7 ∷ 3 ∷ [])
unfolding exec_all
runs = refl

destroy_all-exec_all_example :
    let s = exec_all test_opens test_commands (record { objects = []; opened = [] }) in
    (count 4 (destroy_all s.objects s.opened) ≡ 0)
    × (count 4 s.opened ≡ total 4 s.objects)
    × (count 4 s.opened ≤ 1)
destroy_all-exec_all_example = destroy_all-exec_all test_opens test_commands 4 test_opens-GivesFresh
