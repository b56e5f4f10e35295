-- ===== src/Session/SteadySettings.antt =====
-- slayer/pg_facade/connection.py: settings and transaction commands as sequences of moves.
use slayer.Prelude.{refl, ◌||◌, Option, none, some, [], ◌∷◌, if◌then◌else◌}
use slayer.Prelude.Text.{Text, text, text_eq}
use slayer.Prelude.TextDict.{TextDict, lookup, assign, discard}
use slayer.Session.{
  idle, in_transaction, SetSettingOp, ResetSettingOp, Backend, PgConnection, parameter_status,
}
use slayer.Session.Act.{pure, ◌>>◌}
use slayer.Session.Settings.{
  session_setting_seed, show_aliases, guc_report_names, name_or_empty, lookup_or, push_as,
  set_settings, reset_to, set_tx, push_parameter_status_if_reportable, apply_set_setting, push_all,
  apply_reset_setting, apply_tx_command,
}
use slayer.Session.Moves.{
  Scope, settings_changed, tx_opened, tx_ended, one, Steady, Steady-then, Steady-done, Steady-if,
  Steady-reads, Steady-write,
}

module _ {b : Backend} {s : Scope} where
  Steady-push_as :
      (wire_name : Option Text) (value : Text) → Steady s (push_as {b = b} wire_name value)
  unfolding push_as
  Steady-push_as none value = Steady-done
  Steady-push_as (some wire_name) value = Steady-write (parameter_status wire_name value) refl

  Steady-push :
      (name value : Text) → Steady s (push_parameter_status_if_reportable {b = b} name value)
  unfolding push_parameter_status_if_reportable
  Steady-push name value = Steady-push_as (lookup guc_report_names name) value

  Steady-set_settings :
      (settings : PgConnection b → TextDict Text) → Steady s (set_settings settings)
  Steady-set_settings settings c = one (settings_changed c (settings c))

  pub Steady-apply_set_setting : (op : SetSettingOp) → Steady s (apply_set_setting {b = b} op)
  unfolding apply_set_setting
  Steady-apply_set_setting op c =
      Steady-if c.in_describe (pure tt)
        (set_settings (λ d. assign d.session_settings op.name op.value)
          >> push_parameter_status_if_reportable op.name op.value)
        (Steady-done)
        (Steady-then (set_settings (λ d. assign d.session_settings op.name op.value))
          (push_parameter_status_if_reportable op.name op.value)
          (Steady-set_settings (λ d. assign d.session_settings op.name op.value))
          (Steady-push op.name op.value))
        c

  Steady-push_all : (names : TextDict Text) → Steady s (push_all {b = b} names)
  unfolding push_all
  Steady-push_all [] = Steady-done
  Steady-push_all (names_of ∷ names) =
      Steady-reads (λ c. lookup_or c.session_settings names_of.0 [])
        (λ value. push_parameter_status_if_reportable names_of.0 value >> push_all names)
        (λ value.
          Steady-then (push_parameter_status_if_reportable names_of.0 value) (push_all names)
            (Steady-push names_of.0 value) (Steady-push_all names))

  Steady-reset_to : (value : Option Text) (name : Text) → Steady s (reset_to {b = b} value name)
  unfolding reset_to
  Steady-reset_to (some value) name =
      Steady-then (set_settings (λ c. assign c.session_settings name value))
        (push_parameter_status_if_reportable name value)
        (Steady-set_settings (λ c. assign c.session_settings name value)) (Steady-push name value)
  Steady-reset_to none name = Steady-set_settings (λ c. discard c.session_settings name)

  pub Steady-apply_reset_setting : (op : ResetSettingOp) → Steady s (apply_reset_setting {b = b} op)
  unfolding apply_reset_setting
  Steady-apply_reset_setting op c =
      let one = name_or_empty op.name in
      let name = lookup_or show_aliases one one in
      let reset_all =
        set_settings {b = b} (λ _. session_setting_seed) >> push_all guc_report_names in
      let reset_one = reset_to {b = b} (lookup session_setting_seed name) name in
      Steady-if c.in_describe (pure tt) (if op.reset_all then reset_all else reset_one) Steady-done
        (Steady-if op.reset_all reset_all reset_one
          (Steady-then (set_settings (λ _. session_setting_seed)) (push_all guc_report_names)
            (Steady-set_settings (λ _. session_setting_seed)) (Steady-push_all guc_report_names))
          (Steady-reset_to (lookup session_setting_seed name) name))
        c

  pub Steady-apply_tx_command :
      (command_tag : Option Text) → Steady s (apply_tx_command {b = b} command_tag)
  unfolding apply_tx_command
  Steady-apply_tx_command none = Steady-done
  Steady-apply_tx_command (some tag) =
      Steady-if (text_eq tag (text "BEGIN") || text_eq tag (text "START TRANSACTION"))
        (set_tx in_transaction)
        (if text_eq tag (text "COMMIT")
            || (text_eq tag (text "ROLLBACK") || text_eq tag (text "END"))
          then set_tx idle
          else pure tt)
        (λ c. one (tx_opened c))
        (Steady-if
          (text_eq tag (text "COMMIT")
            || (text_eq tag (text "ROLLBACK") || text_eq tag (text "END")))
          (set_tx idle) (pure tt) (λ c. one (tx_ended c)) (Steady-done))
