-- ===== src/Helper/CmdLine/Option/Laws.antt =====
-- What the use of an option, and its default, change (cmdline.hpp, `Option`).
use pmt_renovated.Base.{◌≡◌, true, Text, arith}
use pmt_renovated.Helper.Error.{done}
use pmt_renovated.Helper.CmdLine.Option.{CmdOption, do_to_do_list, run_default}

module _ {S : Type 0} (o : CmdOption S) (s : S) {p : CmdOption S} {t : S} where
  -- An option that was used is found, and is otherwise as it was.
  pub do_to_do_list_lem :
      (raw : Text) → do_to_do_list o raw s ≡ done (p, t) → p ≡ record o { is_found = true }
  unfolding do_to_do_list
  do_to_do_list_lem raw e = ground arith

  -- A default changes at most the stored default text.
  pub run_default_lem :
      run_default o s ≡ done (p, t) → p ≡ record o { default_value = p.default_value }
  unfolding run_default
  run_default_lem e = ground arith
