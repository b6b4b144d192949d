-- ===== src/Helper/Silencer/Laws.antt =====
-- Tables of descriptors: what is set, kept and put back (management.hpp, `Silencer`).
use pmt_renovated.Base.{
  ℕ, ◌==◌, ◌≡◌, ◌≢◌, refl, ap, ◌∙◌, sym, inl, inr, false, Option, none, some, arith, Bool-cases,
  if_true, if_false, ==_iff,
}
use pmt_renovated.Helper.Silencer.{Table, System, set, dup2, put_file, close}

-- The kernel gives descriptors that are not open.
abbrev pub GivesFree : System → Type 0
GivesFree k = (t : Table) (n : ℕ) → k.next t ≡ some n → t n ≡ none

pub set-same : (t : Table) (n : ℕ) (file : Option ℕ) → set t n file n ≡ file
unfolding set
set-same t n file = if_true {b = n == n} _ _ (grind arith)

pub set-other : (t : Table) (n m : ℕ) (file : Option ℕ) → m ≢ n → set t n file m ≡ t m
unfolding set
set-other t n m file apart = if_false {b = m == n} _ _ (grind arith)

-- A descriptor that is open is not one that is free.
pub apart_from_open : (t : Table) (x y v : ℕ) → t x ≡ some v → t y ≡ none → y ≢ x
apart_from_open t x y v used free same = absurd (cc (sym used ∙ ap t (sym same) ∙ free))

pub dup2_lem :
    (t : Table) (old new file : ℕ)
    → t old ≡ some file
    → dup2 (some old) new t ≡ set t new (some file)
unfolding dup2 put_file
dup2_lem t old new file e = rw e refl

-- What is behind a descriptor when the three new ones are closed and the first two are set again.
pub put_back :
    (t u : Table) (n out err m : ℕ) (f g : ℕ)
    → t 1 ≡ some f
    → t 2 ≡ some g
    → t n ≡ none
    → t out ≡ none
    → t err ≡ none
    → ((m == n) ≡ false
        → (m == err) ≡ false
        → (m == out) ≡ false
        → (m == 2) ≡ false
        → (m == 1) ≡ false
        → u m ≡ t m)
    → close (some n) (close (some err) (close (some out) (set (set u 1 (some f)) 2 (some g)))) m
      ≡ t m
unfolding set close
put_back t u n out err m f g one two free free_out free_err same = elim (Bool-cases (m == n)) [
  | inl at_n ↦ rw at_n (sym (ap t ((==_iff m n).0 at_n) ∙ free))
  | inr not_n ↦ elim (Bool-cases (m == err)) [
    | inl at_err ↦ rw (not_n, at_err) (sym (ap t ((==_iff m err).0 at_err) ∙ free_err))
    | inr not_err ↦ elim (Bool-cases (m == out)) [
      | inl at_out ↦ rw (not_n, not_err, at_out) (sym (ap t ((==_iff m out).0 at_out) ∙ free_out))
      | inr not_out ↦ elim (Bool-cases (m == 2)) [
        | inl at_2 ↦ rw (not_n, not_err, not_out, at_2) (sym (ap t ((==_iff m 2).0 at_2) ∙ two))
        | inr not_2 ↦ elim (Bool-cases (m == 1)) [
          | inl at_1 ↦
              rw (not_n, not_err, not_out, not_2, at_1) (sym (ap t ((==_iff m 1).0 at_1) ∙ one))
          | inr not_1 ↦
              rw (not_n, not_err, not_out, not_2, not_1) (same not_n not_err not_out not_2 not_1)
        ]
      ]
    ]
  ]
]

-- A descriptor that is open stays so where another one, or a free one, is set.
pub other_kept :
    (t : Table) (x y v : ℕ) (file : Option ℕ) → x ≢ y → t x ≡ some v → set t y file x ≡ some v
other_kept t x y v file apart used = set-other t y x file apart ∙ used

pub kept :
    (t : Table) (x y v : ℕ) (file : Option ℕ) → t x ≡ some v → t y ≡ none → set t y file x ≡ some v
kept t x y v file used free =
    other_kept t x y v file (λ same. apart_from_open t x y v used free (sym same)) used

pub free_before : (t : Table) (x y v : ℕ) → set t y (some v) x ≡ none → t x ≡ none
free_before t x y v free =
    sym (
      set-other t y x (some v)
        (apart_from_open (set t y (some v)) y x v (set-same t y (some v)) free))
    ∙ free
