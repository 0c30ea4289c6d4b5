-- ===== src/Config/Precedence.antt =====
-- config.go: flags win over environment variables.
use gomc_rest.Common.{ℕ, ◌≡◌, refl, ap, false, ap₂, String, List, none, ok, Option-cases, inl, inr}
use gomc_rest.Common.Text.{Text}
use gomc_rest.Common.Flags.{Given, last_given}
use gomc_rest.Config.{
  Setting, flag_name, variable, parse_flags, text_setting, bool_setting, getenv_with,
  getenv_bool_with, bool_of_variable,
}
use gomc_rest.Config.Parse.{configure, parse_config}

module _ (first second : String → Text) (given : Given)
    (agree : (s : Setting)
      → last_given (flag_name s) given ≡ none
      → first (variable s) ≡ second (variable s)) where
  text_setting-agree : (s : Setting) → text_setting first given s ≡ text_setting second given s
  unfolding text_setting getenv_with
  text_setting-agree s = elim (Option-cases (last_given (flag_name s) given)) [
    | inl e ↦ rw (e, text_setting, getenv_with) (rw (agree s e) refl)
    | inr (v, e) ↦ rw (e, text_setting) refl
  ]

  bool_setting-agree : (s : Setting) → bool_setting first given s ≡ bool_setting second given s
  unfolding bool_setting getenv_bool_with
  bool_setting-agree s = elim (Option-cases (last_given (flag_name s) given)) [
    | inl e ↦
        rw (e, bool_setting, getenv_bool_with)
          (ap (λ v. bool_of_variable (variable s) v false) (agree s e))
    | inr (v, e) ↦ rw (e, bool_setting) refl
  ]

-- A variable counts only if its flag is not given: for the same arguments, two environments that
-- agree on the variables of the flags that the arguments leave out lead to the same result,
-- configuration or error.
pub parse_config-flags_win :
    (fraction : ℕ → ℕ → ℕ → ℕ) (args : List Text) (given : Given) (first second : String → Text)
    → parse_flags args ≡ ok given
    → ((s : Setting)
        → last_given (flag_name s) given ≡ none
        → first (variable s) ≡ second (variable s))
    → parse_config fraction args first ≡ parse_config fraction args second
unfolding parse_config
parse_config-flags_win fraction args given first second parsed agree = rw parsed (
    ap₂ (configure fraction) (λ i s. text_setting-agree first second given agree s i)
      (λ i s. bool_setting-agree first second given agree s i))
