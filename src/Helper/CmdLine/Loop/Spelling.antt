-- ===== src/Helper/CmdLine/Loop/Spelling.antt =====
-- The two spellings of an option with a value, and the composition of argument lists (cmdline.hpp,
-- the loop of `App::parse`).
use pmt_renovated.Base.{
  ℕ, ◌≡◌, refl, sym, ◌∙◌, inl, inr, Bool, true, false, Option, none, some, List, [], ◌∷◌, ◌++◌,
  arith, Text, codes, text_eq, Option-cases,
}
use pmt_renovated.Helper.Error.{done, escaped, ◌>>=◌}
use pmt_renovated.Helper.Error.Laws.{>>=-eq-done, >>=-assoc}
use pmt_renovated.Helper.CmdLine.Split.{Token, take_apart_equals, Lacks}
use pmt_renovated.Helper.CmdLine.Option.{starts_dash}
use pmt_renovated.Helper.CmdLine.World.{App}
use pmt_renovated.Helper.CmdLine.Loop.{
  Parsing, find_named, use_option, usage, token_step, named_step, is_help, step, loop, head,
}

text_eq-Lacks : (name value t : Text) → Lacks b'=' t → text_eq (name ++ (b'=' ∷ value)) t ≡ false
unfolding text_eq
text_eq-Lacks [] value [] h = refl
text_eq-Lacks [] value (d ∷ t) h = ground arith
text_eq-Lacks (c ∷ name) value [] h = refl
text_eq-Lacks (c ∷ name) value (d ∷ t) h = ground (arith, text_eq-Lacks name value t h.1)

not_help : (name value : Text) → is_help (name ++ (b'=' ∷ value)) ≡ false
not_help name value = rw (
  text_eq-Lacks name value (codes "-h") (refl, (refl, tt)),
  text_eq-Lacks name value (codes "--help") (refl, (refl, (refl, (refl, (refl, (refl, tt)))))),
)

starts_dash-append :
    (name more : Text) → starts_dash name ≡ done true → starts_dash (name ++ more) ≡ done true
unfolding starts_dash
starts_dash-append [] more h = cc
starts_dash-append (c ∷ name) more h = h

abbrev with_value : Text → Text → Token
with_value name value = record { arg_name = name; arg_value = value; has_equals = true }

abbrev bare : Text → Token
bare name = record { arg_name = name; arg_value = []; has_equals = false }

module _ {S : Type 0} (app : App) (p : Parsing S) where
  -- A token that is the last one and is accepted takes no value from behind it, and does the same
  -- with any token behind it.
  named_step_last :
      (t v : Text) {q : Parsing S} {taken : Bool}
      → named_step app p t none ≡ done (q, taken)
      → (taken ≡ false) × (named_step app p t (some v) ≡ done (q, false))
  unfolding named_step token_step usage
  named_step_last t v e = ground arith

  step_last :
      (t v : Text) {q : Parsing S} {taken : Bool}
      → step app p t none ≡ done (q, taken)
      → (taken ≡ false) × (step app p t (some v) ≡ done (q, false))
  unfolding step
  step_last t v {q} {taken} e = ground (arith, named_step_last t v {q = q} {taken = taken})

module _ {S : Type 0} (app : App) where
  after_step :
      (t : Text) (ts ys : List Text) (p q : Parsing S) (taken : Bool)
      → step app p t (head ts) ≡ done (q, taken)
      → (step app p t (head (ts ++ ys)) ≡ done (q, taken)) × (ts ≡ [] → taken ≡ false)
  unfolding head
  after_step t (u ∷ us) ys p q taken e = (e, λ h. cc)
  after_step t [] [] p q taken e = (e, λ h. (step_last app p t [] e).0)
  after_step t [] (y ∷ ys) p q taken e =
      let last = step_last app p t y e in (rw (last.0) (last.1), λ h. last.0)

  loop-append_taken :
      (xs ys : List Text) (taken : Bool) (p q : Parsing S)
      → (xs ≡ [] → taken ≡ false)
      → loop app xs taken p ≡ done q
      → loop app (xs ++ ys) taken p ≡ loop app ys false q
  unfolding loop
  loop-append_taken [] ys true p q h e = cc (h refl)
  loop-append_taken [] ys false p q h e = ground arith
  loop-append_taken (t ∷ ts) ys true p q h e = loop-append_taken ts ys false p q (λ _. refl) e
  loop-append_taken (t ∷ ts) ys false p q h e =
      let ((p', taken'), stepped, rest) = >>=-eq-done (step app p t (head ts)) _ e in
      let next = after_step t ts ys p p' taken' stepped in
      rw (next.0) (loop-append_taken ts ys taken' p' q (next.1) rest)

  -- If a list of arguments is accepted, then parsing it with more arguments behind it is parsing the
  -- further arguments from the state that it leads to.
  pub loop-append :
      (xs ys : List Text) (p q : Parsing S)
      → loop app xs false p ≡ done q
      → loop app (xs ++ ys) false p ≡ loop app ys false q
  loop-append xs ys p q e = loop-append_taken xs ys false p q (λ _. refl) e

  -- An empty argument behind arguments that are accepted ends the program by an exception that no
  -- handler catches, whatever follows it.
  pub loop_empty_argument :
      (xs ys : List Text) (p q : Parsing S)
      → loop app xs false p ≡ done q
      → loop app (xs ++ ([] ∷ ys)) false p ≡ escaped
  unfolding loop step starts_dash text_eq
  loop_empty_argument xs ys p q e = loop-append xs ([] ∷ ys) p q e ∙ (ground arith)

  step_dash :
      (p : Parsing S) (t : Text) (next : Option Text)
      → starts_dash t ≡ done true
      → is_help t ≡ false
      → step app p t next ≡ named_step app p t next
  unfolding step
  step_dash p t next dash help = ground arith

  unknown_tokens :
      (name value : Text) (next : Option Text) (p : Parsing S)
      → find_named p.world name p.chain app.options ≡ none
      → (token_step app p (with_value name value) next ≡ usage "Unknown option: " name)
        × (token_step app p (bare name) (some value) ≡ usage "Unknown option: " name)
  unfolding token_step
  unknown_tokens name value next p unknown = (rw (unknown, token_step), rw (unknown, token_step))

  both_tokens :
      (name value : Text) (next : Option Text) (p : Parsing S) (id : ℕ)
      → starts_dash value ≡ done false
      → find_named p.world name p.chain app.options ≡ some id
      → (p.world.option_at id).is_flag ≡ false
      → (token_step app p (with_value name value) next
          ≡ (use_option p id value >>= λ p'. done (p', false)))
        × (token_step app p (bare name) (some value)
            ≡ (use_option p id value >>= λ p'. done (p', true)))
  unfolding token_step
  both_tokens name value next p id plain found flagless =
      (rw (found, token_step, flagless), rw (found, token_step, flagless, plain))

  -- `-x=value` and `-x value` are the same to the parser, for a name that is no help option and
  -- that, where it is known, is no flag, and for a value that is not empty and does not begin with a
  -- dash.
  pub loop_equals :
      (name value : Text) (rest : List Text) (p : Parsing S)
      → Lacks b'=' name
      → starts_dash name ≡ done true
      → is_help name ≡ false
      → starts_dash value ≡ done false
      → ((id : ℕ)
          → find_named p.world name p.chain app.options ≡ some id
          → (p.world.option_at id).is_flag ≡ false)
      → loop app ((name ++ (b'=' ∷ value)) ∷ rest) false p ≡ loop app (name ∷ value ∷ rest) false p
  unfolding loop head usage named_step
  loop_equals name value rest p lacks dash help plain flagless =
      let parts = take_apart_equals name value lacks in
      let joined =
        step_dash p _ (head rest) (starts_dash-append name (b'=' ∷ value) dash)
          (not_help name value) in
      let apart = step_dash p name (some value) dash help in
      elim (Option-cases (find_named p.world name p.chain app.options)) [
        | inl e ↦
            let both = unknown_tokens name value (head rest) p e in
            rw (joined, apart, named_step, parts.0, parts.1, both.0, both.1)
        | inr (id, e) ↦
            let both = both_tokens name value (head rest) p id plain e (flagless id e) in
            rw (joined, apart, named_step, parts.0, parts.1, both.0, both.1)
              (>>=-assoc (use_option p id value) _ _ ∙ sym (>>=-assoc (use_option p id value) _ _))
      ]
