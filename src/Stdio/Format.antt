-- ===== src/Stdio/Format.antt =====
-- The loop of `vfprintf` of kernel/lib/src/stdio.cpp over the format.
use frosty_os.Prelude.{ℕ, zero, suc, List, [], ◌∷◌, if◌then◌else◌, Outcome, done, diverged, ◌>>=◌}
use frosty_os.Stdio.Modes.{
  Printer, PrintfMode, Step, flags, fresh, len_mode, normal, prec, spec, step_flags, step_len,
  step_normal, step_prec, step_width, width_mode,
}
use frosty_os.Stdio.Spec.{step_spec}

module _ (string_at : ℕ → List ℕ) where
  -- The `switch` over the mode.
  abbrev pub step : PrintfMode → ℕ → Printer → Outcome Step
  step normal c p = step_normal c p
  step flags c p = step_flags c p
  step width_mode c p = step_width c p
  step prec c p = step_prec c p
  step len_mode c p = step_len c p
  step spec c p = step_spec string_at c p

  -- The rounds of the loop with the same character.
  unfoldable pub step_char : (fuel : ℕ) → ℕ → Printer → Outcome Printer
  step_char zero c p = diverged
  step_char (suc fuel) c p = step p.mode c p >>= λ s.
      let rest = step_char fuel c s.printer in if s.goto_next_char then done s.printer else rest

  -- The loop over the format.
  unfoldable pub run_format : List ℕ → Printer → Outcome Printer
  run_format [] p = done p
  run_format (c ∷ cs) p = step_char 4 c p >>= λ q. run_format cs q

  -- `vfprintf`: the text that it prints and the count that it returns.
  unfoldable pub vfprintf : (format args : List ℕ) → Outcome Printer
  vfprintf format args = run_format format (record {
    mode = normal;
    conv = fresh;
    args = args;
    out = [];
    symbols_printed = 0;
    stores = [];
  })
