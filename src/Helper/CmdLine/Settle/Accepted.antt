-- ===== src/Helper/CmdLine/Settle/Accepted.antt =====
-- What holds of the options once `App::parse` has accepted a command line (cmdline.hpp, behind the
-- loop of `parse`).
use mathlib.Core.Path.{fun_ext}
use pmt_renovated.Base.{
  ℕ, ◌≡◌, sym, ap, ◌∙◌, subst, inl, inr, Bool, true, false, ◌||◌, ◌&&◌, not, List, [], ◌∷◌, arith,
  Text, String, ◌==◌, ==_iff, All, Bool-cases, is_empty, reverse,
}
use pmt_renovated.Helper.Error.{done}
use pmt_renovated.Helper.Error.Laws.{>>=-eq-done}
use pmt_renovated.Helper.CmdLine.Option.{CmdOption, run_default}
use pmt_renovated.Helper.CmdLine.Option.Laws.{run_default_lem}
use pmt_renovated.Helper.CmdLine.Group.{count_used, Within, validate, validate_iff}
use pmt_renovated.Helper.CmdLine.World.{World, App, set_option, update, any_superior}
use pmt_renovated.Helper.CmdLine.Loop.{Level, Parsing, usage}
use pmt_renovated.Helper.CmdLine.Settle.{
  check_required, set_defaults, validate_groups, settle_options, settle_command, settle_chain,
  settle,
}

nested_ok :
    (needs used last : Bool)
    → (needs && (not used && last)) ≡ false
    → (not needs || (used || not last)) ≡ true
nested_ok needs used last e = ground arith

module _ {S : Type 0} where
  -- The world with other default texts.
  abbrev redefault : World S → (ℕ → Text) → World S
  redefault w f = record w { option_at = λ id. record (w.option_at id) { default_value = f id } }

  abbrev Defaulted : World S → World S → Type 0
  Defaulted w w' = (f : ℕ → Text) × (w' ≡ redefault w f)

  -- A required option is found, or the requirement is waived.
  abbrev pub Satisfied : Bool → CmdOption S → Type 0
  Satisfied waived o = (not o.is_required || (o.is_found || waived)) ≡ true

  abbrev pub AllSatisfied : Bool → World S → List ℕ → Type 0
  AllSatisfied waived w = All λ id. Satisfied waived (w.option_at id)

  abbrev pub AllWithin : World S → List ℕ → Type 0
  AllWithin w = All λ g.
      Within (w.group_at g)
        (count_used (λ id. (w.option_at id).is_found) (w.group_at g).group_options)

  -- A subcommand that needs another one is followed by it, and its required options are found, unless
  -- a superior option is used in it or below it; the groups are kept in any case.
  abbrev pub CommandAccepted : World S → Bool → ℕ → Type 0
  CommandAccepted w last c =
      ((not (w.command_at c).requires_subcommand || (any_superior w c || not last)) ≡ true)
      × AllSatisfied (any_superior w c) w (w.command_at c).options
      × AllWithin w (w.command_at c).groups

  abbrev pub ChainAccepted : World S → List Level → Type 0
  ChainAccepted w [] = Unit
  ChainAccepted w (l ∷ ls) = CommandAccepted w (is_empty ls) l.command × ChainAccepted w ls

  Defaulted-trans : (u v w : World S) → Defaulted u v → Defaulted v w → Defaulted u w
  Defaulted-trans u v w (f, e) (g, k) = (g, k ∙ ap (λ x. redefault x g) e)

  set_option-Defaulted :
      (w : World S) (id : ℕ) (o : CmdOption S)
      → o ≡ record (w.option_at id) { default_value = o.default_value }
      → Defaulted w (set_option w id o)
  set_option-Defaulted w id o e = (
    λ j. (update w.option_at id o j).default_value,
    ap (λ at. record w { option_at = at }) (fun_ext λ j. at j),
  )
    where
      at :
          (j : ℕ)
          → update w.option_at id o j
            ≡ record (w.option_at j) { default_value = (update w.option_at id o j).default_value }
      at j = elim (Bool-cases (j == id)) [
        | inl same ↦ rw same (
            subst (λ k. o ≡ record (w.option_at k) { default_value = o.default_value })
              (sym ((==_iff j id).0 same)) e)
        | inr other ↦ rw other
      ]

  set_defaults-Defaulted :
      (ids : List ℕ) (w w' : World S) (s s' : S)
      → set_defaults ids (w, s) ≡ done (w', s')
      → Defaulted w w'
  unfolding set_defaults
  set_defaults-Defaulted [] w w' s s' e =
      let same : w' ≡ w = cc in (λ id. (w.option_at id).default_value, same)
  set_defaults-Defaulted (id ∷ ids) w w' s s' e =
      let ((o, t), ran, rest) = >>=-eq-done (run_default (w.option_at id) s) _ e in
      Defaulted-trans w (set_option w id o) w'
        (set_option-Defaulted w id o (run_default_lem (w.option_at id) s ran))
        (set_defaults-Defaulted ids (set_option w id o) w' t s' rest)

  check_required-AllSatisfied :
      (message : String) (waived : Bool) (w : World S) (ids : List ℕ)
      → check_required message waived w ids ≡ done tt
      → AllSatisfied waived w ids
  unfolding check_required usage
  check_required-AllSatisfied message waived w [] e = tt
  check_required-AllSatisfied message waived w (id ∷ ids) e =
      ground (arith, check_required-AllSatisfied message waived w ids)

  validate_groups-AllWithin :
      (w : World S) (gs : List ℕ) → validate_groups w gs ≡ done tt → AllWithin w gs
  unfolding validate_groups
  validate_groups-AllWithin w [] e = tt
  validate_groups-AllWithin w (g ∷ gs) e =
      let (_, ok, rest) =
        >>=-eq-done (validate (λ id. (w.option_at id).is_found) (w.group_at g)) _ e in
      ((validate_iff _ (w.group_at g)).0 ok, validate_groups-AllWithin w gs rest)

  settle_options_lem :
      (c : ℕ) (w w' : World S) (s s' : S)
      → settle_options c (w, s) ≡ done (w', s')
      → Defaulted w w'
        × AllSatisfied (any_superior w c) w (w.command_at c).options
        × AllWithin w (w.command_at c).groups
  unfolding settle_options
  settle_options_lem c w w' s s' e =
      let (_, found, next) =
        >>=-eq-done (check_required _ (any_superior w c) w (w.command_at c).options) _ e in
      let (_, grouped, rest) = >>=-eq-done (validate_groups w (w.command_at c).groups) _ next in
      (
        set_defaults-Defaulted _ w w' s s' rest,
        check_required-AllSatisfied _ _ w _ found,
        validate_groups-AllWithin w _ grouped,
      )

  settle_command_lem :
      (last : Bool) (c : ℕ) (w w' : World S) (s s' : S)
      → settle_command last c (w, s) ≡ done (w', s')
      → Defaulted w w' × CommandAccepted w last c
  unfolding settle_command
  settle_command_lem last c w w' s s' e =
      elim (Bool-cases ((w.command_at c).requires_subcommand && (not (any_superior w c) && last))) [
        | inl refused ↦ absurd (cc (rw (refused) at e))
        | inr passed ↦
            let (d, found, grouped) = settle_options_lem c w w' s s' (rw passed at e) in
            (d, (nested_ok _ (any_superior w c) last passed, found, grouped))
      ]

  CommandAccepted-Defaulted :
      (last : Bool) (c : ℕ) (w w' : World S)
      → Defaulted w w'
      → CommandAccepted w last c
      → CommandAccepted w' last c
  unfolding any_superior
  CommandAccepted-Defaulted last c w w' (f, e) h = subst (λ x. CommandAccepted x last c) (sym e) h

  settle_chain_lem :
      (ls : List Level) (w w' : World S) (s s' : S)
      → settle_chain ls (w, s) ≡ done (w', s')
      → Defaulted w w' × ChainAccepted w' ls
  unfolding settle_chain
  settle_chain_lem [] w w' s s' e =
      let same : w' ≡ w = cc in ((λ id. (w.option_at id).default_value, same), tt)
  settle_chain_lem (l ∷ ls) w w' s s' e =
      let ((u, t), first, rest) = >>=-eq-done (settle_command (is_empty ls) l.command (w, s)) _ e in
      let (d, accepted) = settle_command_lem (is_empty ls) l.command w u s t first in
      let (d', others) = settle_chain_lem ls u w' t s' rest in
      let all = Defaulted-trans w u w' d d' in
      (all, (CommandAccepted-Defaulted (is_empty ls) l.command w w' all accepted, others))

  -- When everything behind the loop succeeds, then in the resulting state every required option of
  -- the application is found, every option group of it is within its bounds, and along the chain of
  -- subcommands each is accepted.
  pub settle_accepted :
      (app : App) (p : Parsing S) (w : World S) (s : S)
      → settle app p ≡ done (w, s)
      → AllSatisfied false w app.options
        × AllWithin w app.groups
        × ChainAccepted w (reverse p.chain)
  unfolding settle
  settle_accepted app p w s e =
      let (_, found, next) = >>=-eq-done (check_required _ false p.world app.options) _ e in
      let ((u, t), defaults, more) =
        >>=-eq-done (set_defaults app.options (p.world, p.store)) _ next in
      let (_, grouped, rest) = >>=-eq-done (validate_groups u app.groups) _ more in
      let d = set_defaults-Defaulted app.options p.world u p.store t defaults in
      let (d', chain) = settle_chain_lem (reverse p.chain) u w t s rest in
      let all = Defaulted-trans p.world u w d d' in
      (
        subst (λ x. AllSatisfied false x app.options) (sym (all.1))
            (check_required-AllSatisfied _ false p.world app.options found),
        subst (λ x. AllWithin x app.groups) (sym (d'.1))
            (validate_groups-AllWithin u app.groups grouped),
        chain,
      )
