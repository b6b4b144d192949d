-- ===== src/Helper/UniqueFd/Laws.antt =====
-- Every open descriptor has exactly one owner (management.hpp, `BasicUniqueFD`).
use pmt_renovated.Base.{
  ℕ, zero, suc, ◌+◌, ◌≤◌, ◌≡◌, refl, ap, sym, subst, inl, inr, Bool, true, false, Option, none,
  some, List, [], ◌∷◌, Text, ◌==◌, if◌then◌else◌, arith, Option-cases,
}
use pmt_renovated.Helper.UniqueFd.{
  UniqueFd, Opens, Change, Scene, close_number, close_fd, with_opened, call_open, open_again,
  open_path, close, re_open, is_open, object_at, put_at, changed, on_object, mode_for,
}

abbrev pub count : ℕ → List ℕ → ℕ
count n [] = 0
count n (m ∷ ms) = (if m == n then 1 else 0) + count n ms

-- How often an object, and how often the objects together, hold a descriptor.
abbrev pub held : ℕ → Option ℕ → ℕ
held n none = 0
held n (some m) = if m == n then 1 else 0

abbrev pub total : ℕ → List UniqueFd → ℕ
total n [] = 0
total n (o ∷ os) = held n o.fd + total n os

-- Each descriptor that is open is held by exactly one object, and the others by none.
abbrev pub IsOwned : Scene → Type 0
IsOwned s = (n : ℕ) → (count n s.opened ≡ total n s.objects) × (count n s.opened ≤ 1)

-- The kernel gives out descriptors that are not open.
abbrev pub GivesFresh : Opens → Type 0
GivesFresh opens =
    (opened : List ℕ) (path : Text) (flags : ℕ) (mode : Option ℕ) (n : ℕ)
    → opens opened path flags mode ≡ some n
    → count n opened ≡ 0

close_number-count :
    (n m : ℕ) (opened : List ℕ)
    → held n (some m) ≤ count n opened
    → count n (close_number m opened) + held n (some m) ≡ count n opened
unfolding close_number
close_number-count n m [] h = ground arith
close_number-count n m (k ∷ ks) h = ground (arith, close_number-count n m ks)

pub close_fd-count :
    (n : ℕ) (fd : Option ℕ) (opened : List ℕ)
    → held n fd ≤ count n opened
    → count n (close_fd fd opened) + held n fd ≡ count n opened
unfolding close_fd
close_fd-count n none opened h = omega arith
close_fd-count n (some m) opened h = close_number-count n m opened h

with_opened-count :
    (n : ℕ) (r : Option ℕ) (opened : List ℕ)
    → count n (with_opened r opened) ≡ count n opened + held n r
unfolding with_opened
with_opened-count n none opened = omega arith
with_opened-count n (some m) opened = omega arith

-- Nothing is held by an object more often than by all.
pub held-le-total :
    (n i : ℕ) (os : List UniqueFd) (o : UniqueFd)
    → object_at os i ≡ some o
    → held n o.fd ≤ total n os
held-le-total n i [] o e = cc
held-le-total n zero (x ∷ os) o e =
    let same : held n x.fd ≡ held n o.fd =
      ap (λ (q : Option UniqueFd). held n (elim q [ none ↦ none | some y ↦ y.fd ])) e in
    omega arith
held-le-total n (suc i) (x ∷ os) o e = omega (arith, held-le-total n i os o e)

pub put_at-total :
    (n i : ℕ) (os : List UniqueFd) (o o' : UniqueFd)
    → object_at os i ≡ some o
    → total n (put_at os i o') + held n o.fd ≡ total n os + held n o'.fd
put_at-total n i [] o o' e = cc
put_at-total n zero (x ∷ os) o o' e =
    let same : held n x.fd ≡ held n o.fd =
      ap (λ (q : Option UniqueFd). held n (elim q [ none ↦ none | some y ↦ y.fd ])) e in
    omega arith
put_at-total n (suc i) (x ∷ os) o o' e = omega (arith, put_at-total n i os o o' e)

-- An operation on one object that keeps the account: what it opens or closes, the object gains or loses,
-- and nothing is open twice.
abbrev pub IsFair : (UniqueFd → List ℕ → Change) → Type 0
IsFair op =
    (o : UniqueFd) (opened : List ℕ)
    → ((n : ℕ) → (held n o.fd ≤ count n opened) × (count n opened ≤ 1))
    → (n : ℕ)
    → (count n (op o opened).1 + held n o.fd ≡ count n opened + held n (op o opened).0.fd)
      × (count n (op o opened).1 ≤ 1)

pub on_object-IsOwned :
    (i : ℕ) (op : UniqueFd → List ℕ → Change) (s : Scene)
    → IsFair op
    → IsOwned s
    → IsOwned (on_object i op s)
unfolding on_object
on_object-IsOwned i op s fair owned = elim (Option-cases (object_at s.objects i)) [
  | inl nothing ↦ subst (λ o. IsOwned (changed i op s o)) (sym nothing) owned
  | inr (o, there) ↦
      subst (λ o. IsOwned (changed i op s o)) (sym there)
        (λ n.
          let account =
            fair o s.opened
              (λ m. (omega (arith, owned m, held-le-total m i s.objects o there), (owned m).1)) n in
          let here = owned n in
          let put = put_at-total n i s.objects o (op o s.opened).0 there in
          (omega arith, account.1))
]

-- An operation whose result is one of a test.
if-account :
    (b : Bool) (r r' : Change) (P : Change → Type 0)
    → (b ≡ true → P r)
    → (b ≡ false → P r')
    → P (if b then r else r')
if-account true r r' P kept other = kept refl
if-account false r r' P kept other = other refl

-- An object that is not open holds nothing.
closed-held : (n : ℕ) (fd : Option ℕ) → is_open fd ≡ false → held n fd ≡ 0
closed-held n none e = refl
closed-held n (some m) e = cc

-- A descriptor that is given out was not open, so that it is open once afterwards.
given-held :
    (n : ℕ) (r : Option ℕ) (opened : List ℕ)
    → ((m : ℕ) → r ≡ some m → count m opened ≡ 0)
    → count n opened ≤ 1
    → count n opened + held n r ≤ 1
given-held n none opened fresh once = omega arith
given-held n (some m) opened fresh once = ground (arith, fresh m refl)

pub call_open-fair :
    (opens : Opens) (path : Text) (flags : ℕ) (mode : Option ℕ) (o : UniqueFd) (opened : List ℕ)
    (n : ℕ)
    → GivesFresh opens
    → count n opened ≤ 1
    → (count n (call_open opens path flags mode o opened).1
        ≡ count n opened + held n (call_open opens path flags mode o opened).0.fd)
      × (count n (call_open opens path flags mode o opened).1 ≤ 1)
unfolding call_open
call_open-fair opens path flags mode o opened n fresh once =
    let r = opens opened path flags mode in
    let step = with_opened-count n r opened in
    let bound = given-held n r opened (λ m. fresh opened path flags mode m) once in
    (step, omega arith)

-- What one operation does to the account of a descriptor.
abbrev pub Balance : ℕ → UniqueFd → List ℕ → Change → Type 0
Balance n o opened r =
    (count n r.1 + held n o.fd ≡ count n opened + held n r.0.fd) × (count n r.1 ≤ 1)

-- A guarded call of `::open`, which leaves an open object alone.
guarded-fair :
    (opens : Opens) (path : Text) (flags : ℕ) (mode : Option ℕ) (o o' : UniqueFd) (opened : List ℕ)
    (n : ℕ)
    → GivesFresh opens
    → count n opened ≤ 1
    → Balance n o opened
        (if is_open o.fd then (o, opened) else call_open opens path flags mode o' opened)
guarded-fair opens path flags mode o o' opened n fresh once =
    if-account (is_open o.fd) (o, opened) (call_open opens path flags mode o' opened)
      (Balance n o opened) (λ _. (refl, once))
      (λ shut.
        let new = call_open-fair opens path flags mode o' opened n fresh once in
        let nothing = closed-held n o.fd shut in (omega arith, new.1))

pub open_again-IsFair :
    (opens : Opens) (with_mode : Bool) → GivesFresh opens → IsFair (open_again opens with_mode)
unfolding open_again
open_again-IsFair opens with_mode fresh o opened ok n =
    guarded-fair opens o.path o.flags (mode_for with_mode o) o o opened n fresh (ok n).1

pub open_path-IsFair :
    (opens : Opens) (path : Text) (flags : ℕ) (mode : Option ℕ)
    → GivesFresh opens
    → IsFair (open_path opens path flags mode)
unfolding open_path
open_path-IsFair opens path flags mode fresh o opened ok n =
    guarded-fair opens path flags mode o
      (record o {
        path = path;
        flags = flags;
        mode = elim mode [ none ↦ o.mode | some m ↦ some m ];
      })
      opened n fresh (ok n).1

close-held : (n : ℕ) (o : UniqueFd) (opened : List ℕ) → held n (close o opened).0.fd ≡ 0
unfolding close
close-held n o opened = refl

pub close-IsFair : IsFair close
unfolding close
close-IsFair o opened ok n =
    let gone = close_fd-count n o.fd opened (ok n).0 in
    let once = (ok n).1 in (omega arith, omega arith)

pub re_open-IsFair :
    (opens : Opens) (with_mode : Bool) → GivesFresh opens → IsFair (re_open opens with_mode)
unfolding re_open
re_open-IsFair opens with_mode fresh o opened ok n =
    let gone = close-IsFair o opened ok n in
    let new =
      call_open-fair opens o.path o.flags (mode_for with_mode o) (close o opened).0
        (close o opened).1 n fresh gone.1 in
    let none_held = close-held n o opened in (omega arith, new.1)
