-- ===== src/Helper/CmdLine/Split.antt =====
-- cmdline.hpp: `split`, and the search for `=` with which the parsers take a token apart.
use pmt_renovated.Base.{
  ℕ, ◌≡◌, ◌≢◌, refl, sym, ◌∙◌, ap, inl, inr, Bool, true, false, List, [], ◌∷◌, ◌++◌, Text, ◌==◌,
  if◌then◌else◌, All, Bool-cases, ==_refl,
}
use mathlib.Core.List.{append_assoc, append-nil}

-- `if (!token.empty()) tokens.push_back(token)`
keep : Text → List Text → List Text
keep [] rest = rest
keep (c ∷ w) rest = (c ∷ w) ∷ rest

-- The calls of `std::getline`, `w` holding the characters of the line so far.
split_from : ℕ → Text → Text → List Text
split_from delim w [] = keep w []
split_from delim w (c ∷ s) = elim (c == delim) [
  | true ↦ keep w (split_from delim [] s)
  | false ↦ split_from delim (w ++ (c ∷ [])) s
]

unfoldable pub split : Text → ℕ → List Text
unfolding split_from keep
split s delim = split_from delim [] s

-- `token.substr(0, equals_pos)` and `token.substr(equals_pos + 1)`, or the whole token.
pub record Token : Type 0 where
  pub arg_name : Text
  pub arg_value : Text
  pub has_equals : Bool

abbrev push_char : ℕ → Token → Token
push_char c t = record t { arg_name = c ∷ t.arg_name }

unfoldable pub take_apart : Text → Token
take_apart [] = record { arg_name = []; arg_value = []; has_equals = false }
take_apart (c ∷ s) =
    let rest = push_char c (take_apart s) in
    if c == b'=' then record { arg_name = []; arg_value = s; has_equals = true } else rest

-- A character that occurs nowhere in a text.
abbrev pub Lacks : ℕ → Text → Type 0
Lacks c = All λ d. (d == c) ≡ false

-- The names of the specification: not empty, and without the delimiter.
abbrev pub Piece : ℕ → Text → Type 0
Piece delim w = (w ≢ []) × Lacks delim w

unfoldable pub join : ℕ → List Text → Text
join delim [] = []
join delim (w ∷ []) = w
join delim (w ∷ v ∷ ws) = w ++ (delim ∷ join delim (v ∷ ws))

keep-Piece :
    (delim : ℕ) (w : Text) (ws : List Text)
    → Lacks delim w
    → All (Piece delim) ws
    → All (Piece delim) (keep w ws)
unfolding keep
keep-Piece delim [] ws h k = k
keep-Piece delim (c ∷ w) ws h k = ((λ e. cc, h), k)

Lacks-snoc :
    (delim : ℕ) (w : Text) (c : ℕ)
    → Lacks delim w
    → (c == delim) ≡ false
    → Lacks delim (w ++ (c ∷ []))
Lacks-snoc delim [] c h e = (e, tt)
Lacks-snoc delim (d ∷ w) c h e = (h.0, Lacks-snoc delim w c h.1 e)

split_from-Piece :
    (delim : ℕ) (w s : Text) → Lacks delim w → All (Piece delim) (split_from delim w s)
unfolding split_from
split_from-Piece delim w [] h = keep-Piece delim w [] h tt
split_from-Piece delim w (c ∷ s) h = elim (Bool-cases (c == delim)) [
  | inl e ↦ rw (e, split_from) (keep-Piece delim w _ h (split_from-Piece delim [] s tt))
  | inr e ↦ rw (e, split_from) (split_from-Piece delim (w ++ (c ∷ [])) s (Lacks-snoc delim w c h e))
]

-- The tokens of any text are not empty and do not hold the delimiter.
pub split-Piece : (s : Text) (delim : ℕ) → All (Piece delim) (split s delim)
unfolding split
split-Piece s delim = split_from-Piece delim [] s tt

split_from-append :
    (delim : ℕ) (w v s : Text)
    → Lacks delim v
    → split_from delim w (v ++ s) ≡ split_from delim (w ++ v) s
unfolding split_from
split_from-append delim w [] s h = ap (λ x. split_from delim x s) (sym (append-nil w))
split_from-append delim w (c ∷ v) s h =
    rw (h.0, split_from)
      (split_from-append delim (w ++ (c ∷ [])) v s h.1
        ∙ ap (λ x. split_from delim x s) (append_assoc w (c ∷ []) v))

keep_lem : (w : Text) (ws : List Text) → w ≢ [] → keep w ws ≡ w ∷ ws
unfolding keep
keep_lem [] ws h = absurd (h refl)
keep_lem (c ∷ w) ws h = refl

split_from_end : (delim : ℕ) (w : Text) → Lacks delim w → split_from delim [] w ≡ keep w []
unfolding split_from
split_from_end delim w h =
    ap (split_from delim []) (sym (append-nil w)) ∙ split_from-append delim [] w [] h

split_from_delim :
    (delim : ℕ) (w s : Text) → split_from delim w (delim ∷ s) ≡ keep w (split_from delim [] s)
unfolding split_from
split_from_delim delim w s = rw (==_refl delim, split_from)

split_from-join :
    (delim : ℕ) (ws : List Text) → All (Piece delim) ws → split_from delim [] (join delim ws) ≡ ws
unfolding join
split_from-join delim [] h = unfold split_from keep in refl
split_from-join delim (w ∷ []) h = split_from_end delim w h.0.1 ∙ keep_lem w [] h.0.0
split_from-join delim (w ∷ v ∷ ws) h =
    split_from-append delim [] w (delim ∷ join delim (v ∷ ws)) h.0.1
    ∙ split_from_delim delim w (join delim (v ∷ ws))
    ∙ keep_lem w _ h.0.0
    ∙ ap (◌∷◌ w) (split_from-join delim (v ∷ ws) h.1)

-- Splitting at a delimiter undoes joining with it, for any list of texts of which none is empty and
-- none holds the delimiter.
pub split-join :
    (delim : ℕ) (ws : List Text) → All (Piece delim) ws → split (join delim ws) delim ≡ ws
unfolding split
split-join delim ws h = split_from-join delim ws h

-- A token `name=value` is taken apart at its first `=`, and a token without `=` is a bare name.
pub take_apart_equals :
    (name value : Text)
    → Lacks b'=' name
    → (take_apart (name ++ (b'=' ∷ value))
        ≡ record { arg_name = name; arg_value = value; has_equals = true })
      × (take_apart name ≡ record { arg_name = name; arg_value = []; has_equals = false })
unfolding take_apart
take_apart_equals [] value h = (refl, refl)
take_apart_equals (c ∷ name) value h =
    let ih = take_apart_equals name value h.1 in
    (rw (h.0) (ap (push_char c) ih.0), rw (h.0) (ap (push_char c) ih.1))
