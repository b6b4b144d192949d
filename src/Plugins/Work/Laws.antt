-- ===== src/Plugins/Work/Laws.antt =====
-- What follows when a task or a plugin comes to its end.
use pmt_renovated.Base.{
  ℕ, ◌≤◌, ◌<◌, ◌≡◌, refl, ap, ◌∙◌, sym, inl, inr, Bool, true, false, Option, none, some, List, [],
  ◌∷◌, ◌++◌, codes, is_empty, Text, All, &&-true, arith, ltb, min, Bool-cases, if_true, if_false,
  if◌then◌else◌,
}
use pmt_renovated.Helper.Error.{Outcome, done, threw, escaped, exited, undefined}
use pmt_renovated.Helper.Async.{Result, run_all_lem, all_succeed}
use pmt_renovated.Helper.Error.Laws.{done_injective}
use pmt_renovated.PartitionMap.Partition.Transfer.{before, after}
use pmt_renovated.Plugins.Work.{
  clamp, buffer_for, min_buffer_size, await, end_with, gives, failure, in_directory,
}

module _ {A B : Type 0} where
  pub before-eq-done :
      (m : Outcome A) (f : A → Option (Outcome B)) {b : B}
      → before m f ≡ some (done b)
      → (a : A) × (m ≡ done a) × (f a ≡ some (done b))
  before-eq-done (done a) f e = (a, refl, e)
  before-eq-done (threw x) f e = cc
  before-eq-done escaped f e = cc
  before-eq-done (exited n) f e = cc
  before-eq-done undefined f e = cc

  pub after-eq-done :
      (m : Option (Outcome A)) (f : A → Option (Outcome B)) {b : B}
      → after m f ≡ some (done b)
      → (a : A) × (m ≡ some (done a)) × (f a ≡ some (done b))
  after-eq-done none f e = cc
  after-eq-done (some m) f e = let (a, ran, rest) = before-eq-done m f e in (a, ap some ran, rest)

pub some_injective : {A : Type 0} {a b : A} → some a ≡ some b → a ≡ b
some_injective e = cc

pub failure-result : (message : Text) → (failure message).result ≡ false
unfolding failure
failure-result message = refl

module _ {L : Type 0} where
  pub gives_injective :
      {r s : Result} {l m : L} → gives r l ≡ some (done (s, m)) → (r ≡ s) × (l ≡ m)
  gives_injective e =
      let pair = done_injective (some_injective e) in (ap (λ x. x.0) pair, ap (λ x. x.1) pair)

  pub failed_false :
      {A : Type 0} (message : Text) {l m : L} {r : Result}
      → gives (failure message) l ≡ some (done (r, m))
      → r.result ≡ true
      → A
  unfolding failure
  failed_false message e h = absurd (cc (ap (λ (r : Result). r.result) ((gives_injective e).0) ∙ h))

  -- A guard that ends the task with a failure has let it pass.
  pub passed :
      (b : Bool) (message : Text) (l : L) (rest : Option (Outcome (Result × L))) {r : Result}
      {m : L}
      → (if b then gives (failure message) l else rest) ≡ some (done (r, m))
      → r.result ≡ true
      → (b ≡ false) × (rest ≡ some (done (r, m)))
  passed true message l rest e h = failed_false message e h
  passed false message l rest e h = (refl, e)

-- The buffer is chosen where it lies within its bounds.
-- A name in a directory, which is left out where it is empty, with a slash between the two.
abbrev pub file_in : Text → Text → Text
file_in directory name = if is_empty directory then name else (directory ++ codes "/") ++ name

pub in_directory_lem :
    (directory name : Text) → in_directory directory name ≡ file_in directory name
unfolding in_directory
in_directory_lem [] name = refl
in_directory_lem (c ∷ directory) name = refl

pub buffer_for-bounds :
    (buffer_size total buf : ℕ)
    → buffer_for buffer_size total ≡ done buf
    → (0 < buf) × (buf ≤ total)
unfolding buffer_for clamp
buffer_for-bounds buffer_size total buf e =
    elim (Bool-cases (ltb (min buffer_size total) min_buffer_size)) [
      | inl wrong ↦ absurd (cc (sym (if_true _ _ wrong) ∙ e))
      | inr right ↦
          let chosen = done_injective (sym (if_false _ _ right) ∙ e) in (ground arith, ground arith)
    ]

pub buffer_for_fits :
    (buffer_size total : ℕ)
    → min_buffer_size ≤ buffer_size
    → min_buffer_size ≤ total
    → buffer_for buffer_size total ≡ done (min buffer_size total)
unfolding buffer_for clamp
buffer_for_fits buffer_size total h k = ground arith

-- A task that has ended, and with success.
abbrev pub Succeeded : Option (Outcome Result) → Type 0
Succeeded t = (r : Result) × (t ≡ some (done r)) × (r.result ≡ true)

await-Succeeded :
    (ts : List (Option (Outcome Result))) {rs : List Result}
    → await ts ≡ some (done rs)
    → all_succeed rs ≡ true
    → All Succeeded ts
unfolding await all_succeed
await-Succeeded [] e h = tt
await-Succeeded (t ∷ ts) {rs} e h =
    let (r, ran, rest) = after-eq-done t _ e in
    let (rest_results, others, whole) = after-eq-done (await ts) _ rest in
    let both : (r.result ≡ true) × (all_succeed rest_results ≡ true) =
      &&-true _ _ (ap all_succeed (done_injective (some_injective whole)) ∙ h) in
    ((r, ran, both.0), await-Succeeded ts others both.1)

await_together :
    (ts : List (Option (Outcome Result)))
    → All Succeeded ts
    → (rs : List Result) × (await ts ≡ some (done rs)) × (all_succeed rs ≡ true)
unfolding await all_succeed
await_together [] h = ([], refl, refl)
await_together (t ∷ ts) ((r, ran, good), h) =
    let (rs, others, succeed) = await_together ts h in
    (r ∷ rs, rw (ran, after, others) refl, rw good succeed)

-- A plugin returns true exactly when each of its tasks has ended with success.
pub end_with_iff :
    (ts : List (Option (Outcome Result)))
    → (end_with ts ≡ some (done true) → All Succeeded ts)
      × (All Succeeded ts → end_with ts ≡ some (done true))
unfolding end_with
end_with_iff ts = (
  (λ e.
      let (rs, ran, ended) = after-eq-done (await ts) _ e in
      elim (Bool-cases (all_succeed rs)) [
        | inl good ↦ await-Succeeded ts ran good
        | inr bad ↦ absurd (cc (sym (run_all_lem rs ∙ if_false _ _ bad) ∙ some_injective ended))
      ]),
  λ h.
      let (rs, ran, good) = await_together ts h in
      rw (ran, after, run_all_lem rs) (ap some (if_true _ _ good)),
)
