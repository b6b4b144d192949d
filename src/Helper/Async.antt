-- ===== src/Helper/Async.antt =====
-- srclib/libhelper/include/libhelper/management.hpp: `AsyncManager`, for results that are a message
-- and a success. A task stands for the result that its thread will give.
use pmt_renovated.Base.{
  ◌≡◌, refl, ap, ◌∙◌, inl, inr, Bool, true, false, not, ◌&&◌, List, [], ◌∷◌, ◌++◌, Text, is_empty,
  if◌then◌else◌, Bool-cases, arith,
}
use pmt_renovated.Helper.Error.{Outcome, done, threw, new_error, throw_new}

pub record Result : Type 0 where
  pub message : Text
  pub result : Bool

pub record Async : Type 0 where
  pub tasks : List Result
  pub futures : List Result
  pub results : List Result
  pub get : Bool

unfoldable pub new_async : Async
new_async = record { tasks = []; futures = []; results = []; get = false }

unfoldable pub add_process : Result → Async → Async
add_process r a = record a { tasks = a.tasks ++ (r ∷ []) }

unfoldable pub start_all : Async → Async
start_all a = record a { tasks = []; futures = a.futures ++ a.tasks }

unfoldable pub get_results : Async → Async
get_results a = if a.get then a else record a { results = a.results ++ a.futures; get = true }

-- The messages of the failures, each on a line, and whether all succeeded.
unfoldable pub failures : List Result → Text
failures [] = []
failures (r ∷ rs) = if r.result then failures rs else r.message ++ (10 ∷ failures rs)

unfoldable pub all_succeed : List Result → Bool
all_succeed [] = true
all_succeed (r ∷ rs) = r.result && all_succeed rs

unfoldable pub finalize : Async → Outcome Bool
unfolding failures all_succeed
finalize a =
    let ended =
      if is_empty (failures a.results)
      then done (all_succeed a.results)
      else throw_new (failures a.results) in
    if not a.get then done false else ended

unfoldable pub add_all : List Result → Async → Async
unfolding add_process
add_all [] a = a
add_all (r ∷ rs) a = add_all rs (add_process r a)

-- How a plugin ends: `PLUGIN_END_WITH_RENDERER`, after its processes are added.
unfoldable pub run_all : List Result → Outcome Bool
unfolding new_async add_all start_all get_results finalize
run_all rs = finalize (get_results (start_all (add_all rs new_async)))

add_all_lem : (rs : List Result) (a : Async) → add_all rs a ≡ record a { tasks = a.tasks ++ rs }
unfolding add_all add_process
add_all_lem [] a = ap (λ ts. record a { tasks = ts }) (nil_right a.tasks)
  where
    nil_right : (xs : List Result) → xs ≡ xs ++ []
    nil_right [] = refl
    nil_right (x ∷ xs) = ap (λ ys. x ∷ ys) (nil_right xs)
add_all_lem (r ∷ rs) a =
    add_all_lem rs (add_process r a) ∙ ap (λ ts. record a { tasks = ts }) (assoc a.tasks)
  where
    assoc : (xs : List Result) → (xs ++ (r ∷ [])) ++ rs ≡ xs ++ (r ∷ rs)
    assoc [] = refl
    assoc (x ∷ xs) = ap (λ ys. x ∷ ys) (assoc xs)

no_failures : (rs : List Result) → all_succeed rs ≡ true → is_empty (failures rs) ≡ true
unfolding failures all_succeed
no_failures [] h = refl
no_failures (r ∷ rs) h = ground (arith, no_failures rs)

some_failure : (rs : List Result) → all_succeed rs ≡ false → is_empty (failures rs) ≡ false
unfolding failures all_succeed
some_failure [] h = cc
some_failure (r ∷ rs) h = elim (Bool-cases r.result) [
  | inl good ↦ rw good (some_failure rs (ground arith))
  | inr bad ↦ rw bad (ends r.message)
]
  where
    ends : (m : Text) → is_empty (m ++ (10 ∷ failures rs)) ≡ false
    ends [] = refl
    ends (c ∷ m) = refl

-- A plugin whose processes have given their results returns true when all succeeded; otherwise an
-- error with the messages of the failures is thrown. It never returns false.
pub run_all_lem :
    (rs : List Result)
    → run_all rs ≡ (if all_succeed rs then done true else threw (new_error (failures rs)))
unfolding run_all new_async start_all get_results finalize
run_all_lem rs =
    ap (λ a. finalize (get_results (start_all a))) (add_all_lem rs new_async) ∙ by_success
  where
    by_success :
        finalize (record { tasks = []; futures = rs; results = rs; get = true })
        ≡ (if all_succeed rs then done true else threw (new_error (failures rs)))
    by_success = elim (Bool-cases (all_succeed rs)) [
      | inl good ↦ rw (finalize, no_failures rs good, good) refl
      | inr bad ↦ rw (finalize, some_failure rs bad, bad) refl
    ]
