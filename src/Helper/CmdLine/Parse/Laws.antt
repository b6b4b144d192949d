-- ===== src/Helper/CmdLine/Parse/Laws.antt =====
-- What an accepted command line guarantees, and what the early pass leaves alone (cmdline.hpp,
-- `App::parse` and `App::parse_earlies`).
use pmt_renovated.Base.{
  ℕ, ◌≡◌, sym, ap, ◌∙◌, inl, inr, Bool, true, false, List, [], ◌∷◌, arith, Text, codes, Option,
  none, some, Bool-cases, ◌==◌, ==_iff, Option-cases,
}
use pmt_renovated.Helper.Error.{done}
use pmt_renovated.Helper.Error.Laws.{>>=-eq-done}
use pmt_renovated.Helper.CmdLine.Option.{do_to_do_list, starts_dash}
use pmt_renovated.Helper.CmdLine.Split.{Token, take_apart}
use pmt_renovated.Helper.CmdLine.World.{World, App, set_option, find_option}
use pmt_renovated.Helper.CmdLine.Loop.{usage, head}
use pmt_renovated.Helper.CmdLine.Parse.{use_early, early_known, early_step, early_loop}

module _ {S : Type 0} where
  use_early_keeps :
      (id j : ℕ) (raw : Text) (w w' : World S) (s s' : S)
      → (w.option_at id).early ≡ true
      → (w.option_at j).early ≡ false
      → use_early id raw (w, s) ≡ done (w', s')
      → w'.option_at j ≡ w.option_at j
  unfolding use_early
  use_early_keeps id j raw w w' s s' early late e =
      let ((o, t), used, rest) = >>=-eq-done (do_to_do_list (w.option_at id) raw s) _ e in
      let same : set_option w id o ≡ w' = cc in
      rw (← same) (elim (Bool-cases (j == id)) [
        | inl hit ↦
            absurd
              (cc (sym early ∙ ap (λ k. (w.option_at k).early) (sym ((==_iff j id).0 hit)) ∙ late))
        | inr miss ↦ rw miss
      ])

  early_known_keeps :
      (id j : ℕ) (t : Token) (next : Option Text) (w w' : World S) (s s' : S) (taken : Bool)
      → (w.option_at j).early ≡ false
      → early_known (w, s) id t next ≡ done ((w', s'), taken)
      → w'.option_at j ≡ w.option_at j
  unfolding early_known usage
  early_known_keeps id j t none w w' s s' taken late e = ground (
    arith,
    use_early_keeps id j (codes "true") w w' s s',
    use_early_keeps id j t.arg_value w w' s s',
  )
  early_known_keeps id j t (some v) w w' s s' taken late e = ground (
    arith,
    use_early_keeps id j (codes "true") w w' s s',
    use_early_keeps id j t.arg_value w w' s s',
    use_early_keeps id j v w w' s s',
  )

  early_step_keeps :
      (app : App) (quiet : Bool) (j : ℕ) (t : Text) (next : Option Text) (w w' : World S) (s s' : S)
      (taken : Bool)
      → (w.option_at j).early ≡ false
      → early_step app quiet (w, s) t next ≡ done ((w', s'), taken)
      → w'.option_at j ≡ w.option_at j
  unfolding early_step usage starts_dash
  early_step_keeps app quiet j [] next w w' s s' taken late e = cc
  early_step_keeps app quiet j (c ∷ t) next w w' s s' taken late e =
      elim (Option-cases (find_option w (take_apart (c ∷ t)).arg_name app.options)) [
        | inl unknown ↦ ground arith
        | inr (id, known) ↦
            ground (arith, early_known_keeps id j (take_apart (c ∷ t)) next w w' s s' taken)
      ]

  -- `parse_earlies` leaves every option that is not marked early as it was, whatever the arguments
  -- are, until it sets the defaults.
  pub early_loop_keeps :
      (app : App) (quiet : Bool) (args : List Text) (taken : Bool) (j : ℕ) (w w' : World S)
      (s s' : S)
      → (w.option_at j).early ≡ false
      → early_loop app quiet args taken (w, s) ≡ done (w', s')
      → w'.option_at j ≡ w.option_at j
  unfolding early_loop
  early_loop_keeps app quiet [] taken j w w' s s' late e = ground arith
  early_loop_keeps app quiet (t ∷ ts) true j w w' s s' late e =
      early_loop_keeps app quiet ts false j w w' s s' late e
  early_loop_keeps app quiet (t ∷ ts) false j w w' s s' late e =
      let (((u, r), taken), first, rest) =
        >>=-eq-done (early_step app quiet (w, s) t (head ts)) _ e in
      let kept = early_step_keeps app quiet j t (head ts) w u s r taken late first in
      early_loop_keeps app quiet ts taken j u w' r s' (ap (λ o. o.early) kept ∙ late) rest ∙ kept
