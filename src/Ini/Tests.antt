-- ===== src/Ini/Tests.antt =====
-- The settings on concrete inputs.
use lumbre_ext.Common.{◌≡◌, ◌≤◌, ◌⊎◌, refl, arith, ok, error, codes}
use lumbre_ext.Ring.Lifecycle.{decimal}
use lumbre_ext.Ring.Decimal.{digits}
use lumbre_ext.Whitelist.{same_bytes}
use lumbre_ext.Ini.{c_string, skip_space, signed, strtol, on_update_mode}
use lumbre_ext.Ini.Mode.{on_update_mode-le, on_update_mode-decimal, on_update_mode_word}

strtol_negative : strtol (codes " -12abc") ≡ 0xffff_ffff_ffff_fff4
unfolding strtol c_string skip_space signed digits
strtol_negative = refl

full_run : on_update_mode 0 (codes "full") ≡ (ok, 1)
unfolding on_update_mode same_bytes
full_run = refl

on_update_mode-le_run :
    let (s, mode) = on_update_mode 1 (codes "7") in (mode ≤ 1) × ((s ≡ ok) ⊎ (mode ≡ 1))
on_update_mode-le_run = on_update_mode-le 1 (codes "7") (omega arith)

on_update_mode-decimal_run : on_update_mode 1 (decimal 12) ≡ (error, 1)
on_update_mode-decimal_run = on_update_mode-decimal 1 12 (omega arith)

on_update_mode_word_example : on_update_mode 1 (codes "fulll") ≡ (ok, 0)
on_update_mode_word_example = on_update_mode_word 1 b'f' (codes "ulll") (omega arith) (omega arith)
