-- ===== src/Helper/Prompt.antt =====
-- srclib/libhelper/src/Utilities.cpp: `confirmPrompt`.
use pmt_renovated.Base.{
  ℕ, ◌+◌, ◌≤◌, ◌≡◌, ◌⊎◌, inl, inr, refl, ap, ◌∙◌, Bool, true, false, ◌||◌, List, [], ◌∷◌, ◌++◌, All,
  arith, leb, ◌==◌, if◌then◌else◌, length, if-cases, if_false, if_true,
}
use pmt_renovated.Helper.Error.{Outcome, done, undefined}
use pmt_renovated.Helper.Error.Laws.{done_injective}

-- What a prompt leaves: its answer, the static `total_tries`, and the characters that were not read.
pub record Reply : Type 0 where
  pub answer : Bool
  pub total_tries : ℕ
  pub rest : List ℕ

abbrev pub means_yes : ℕ → Bool
means_yes p = p == 121 || p == 89

abbrev pub means_no : ℕ → Bool
means_no p = p == 110 || p == 78

-- The characters that `std::cin >> p` reads one after the other, white space left out. Behind the
-- last one `p` keeps no value at all, and the comparison with it is undefined.
unfoldable pub confirm_prompt : ℕ → ℕ → List ℕ → Outcome Reply
confirm_prompt max_tries total_tries [] = undefined
confirm_prompt max_tries total_tries (p ∷ input) =
    let again = confirm_prompt max_tries (total_tries + 1) input in
    if means_yes p
    then done record { answer = true; total_tries = 1; rest = input }
    else if means_no p
    then done record { answer = false; total_tries = 1; rest = input }
    else if leb max_tries total_tries
    then done record { answer = false; total_tries = total_tries; rest = input }
    else again

abbrev pub IsUnexpected : ℕ → Type 0
IsUnexpected p = (means_yes p ≡ false) × (means_no p ≡ false)

-- A prompt that says yes has read a yes, behind unexpected answers alone, of which there are fewer
-- than tries that were left.
pub confirm_prompt-yes :
    (max_tries total_tries : ℕ) (input : List ℕ) {r : Reply}
    → confirm_prompt max_tries total_tries input ≡ done r
    → r.answer ≡ true
    → (junk : List ℕ) × (p : ℕ) × (input ≡ junk ++ (p ∷ r.rest))
      × (means_yes p ≡ true)
      × All IsUnexpected junk
      × ((junk ≡ []) ⊎ (total_tries + length junk ≤ max_tries))
unfolding confirm_prompt
confirm_prompt-yes m t [] e h = cc
confirm_prompt-yes m t (p ∷ input) {r} e h = elim (if-cases (means_yes p) _ _ e) [
  | inl (good, said) ↦
      ([], p, ap (λ (q : Reply). p ∷ q.rest) (done_injective said), good, tt, inl refl)
  | inr (not_good, e1) ↦ elim (if-cases (means_no p) _ _ e1) [
    | inl (bad, said) ↦ absurd (cc (ap (λ (q : Reply). q.answer) (done_injective said) ∙ h))
    | inr (not_bad, e2) ↦ elim (if-cases (leb m t) _ _ e2) [
      | inl (many, said) ↦ absurd (cc (ap (λ (q : Reply). q.answer) (done_injective said) ∙ h))
      | inr (few, e3) ↦
          let (junk, q, whole, good, unexpected, bound) = confirm_prompt-yes m (t + 1) input e3 h in
          (
            p ∷ junk,
            q,
            ap (λ xs. p ∷ xs) whole,
            good,
            ((not_good, not_bad), unexpected),
            inr (elim bound [
              | inl empty ↦ let none_yet : length junk ≡ 0 = ap length empty in ground arith
              | inr within ↦ omega arith
            ]),
          )
    ]
  ]
]

-- When all tries are used up, the prompt says no and leaves the count as it is: the next prompt that
-- is not answered by yes or no at once says no after its first answer too.
pub confirm_prompt_exhausted :
    (max_tries total_tries p q : ℕ) (input : List ℕ)
    → max_tries ≤ total_tries
    → IsUnexpected p
    → IsUnexpected q
    → (r : Reply) × (confirm_prompt max_tries total_tries (p ∷ (q ∷ input)) ≡ done r)
      × (r.answer ≡ false)
      × (s : Reply) × (confirm_prompt max_tries r.total_tries r.rest ≡ done s)
      × (s.answer ≡ false)
      × (s.rest ≡ input)
unfolding confirm_prompt
confirm_prompt_exhausted m t p q input many (not_yes, not_no) (not_yes', not_no') =
    let over : leb m t ≡ true = ground arith in
    (
      record { answer = false; total_tries = t; rest = q ∷ input },
      if_false _ _ not_yes ∙ if_false _ _ not_no ∙ if_true _ _ over,
      refl,
      record { answer = false; total_tries = t; rest = input },
      if_false _ _ not_yes' ∙ if_false _ _ not_no' ∙ if_true _ _ over,
      refl,
      refl,
    )
