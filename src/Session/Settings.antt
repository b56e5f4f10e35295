-- ===== src/Session/Settings.antt =====
-- slayer/pg_facade/connection.py: the settings of a session and the transaction commands.
use slayer.Prelude.{Bool, ◌||◌, Option, none, some, [], ◌∷◌, if◌then◌else◌}
use slayer.Prelude.Text.{Text, text, text_eq}
use slayer.Prelude.TextDict.{TextDict, lookup, assign, discard}
use slayer.Session.{
  TxState, idle, in_transaction, Backend, PgConnection, Act, SetSettingOp, ResetSettingOp,
  parameter_status,
}
use slayer.Session.Act.{pure, change, reads, ◌>>=◌, ◌>>◌, write}

-- slayer/pg_facade/probes.py: `SESSION_SETTING_SEED` and `SHOW_ALIASES`
abbrev pub session_setting_seed : TextDict Text
session_setting_seed =
    (text "search_path", text "\"$user\", public")
    ∷ (text "transaction_isolation", text "read committed")
    ∷ (text "standard_conforming_strings", text "on")
    ∷ (text "server_version", text "14.0")
    ∷ (text "client_encoding", text "UTF8")
    ∷ (text "server_encoding", text "UTF8")
    ∷ (text "intervalstyle", text "postgres")
    ∷ (text "datestyle", text "ISO, MDY")
    ∷ (text "timezone", text "UTC")
    ∷ (text "session_authorization", text "slayer")
    ∷ (text "application_name", [])
    ∷ (text "jit", text "off")
    ∷ []

abbrev pub show_aliases : TextDict Text
show_aliases =
    (text "transaction isolation level", text "transaction_isolation")
    ∷ (text "time zone", text "timezone")
    ∷ (text "session authorization", text "session_authorization")
    ∷ []

-- `_GUC_REPORT_NAMES`
abbrev pub guc_report_names : TextDict Text
guc_report_names =
    (text "application_name", text "application_name")
    ∷ (text "client_encoding", text "client_encoding")
    ∷ (text "datestyle", text "DateStyle")
    ∷ (text "intervalstyle", text "IntervalStyle")
    ∷ (text "server_encoding", text "server_encoding")
    ∷ (text "server_version", text "server_version")
    ∷ (text "session_authorization", text "session_authorization")
    ∷ (text "standard_conforming_strings", text "standard_conforming_strings")
    ∷ (text "timezone", text "TimeZone")
    ∷ []

-- `d.get(k, default)`
abbrev pub lookup_or : TextDict Text → Text → Text → Text
lookup_or d key default = elim (lookup d key) [ none ↦ default | some found ↦ found ]

-- `op.name or ""`
abbrev pub name_or_empty : Option Text → Text
name_or_empty none = []
name_or_empty (some name) = name

module _ {b : Backend} where
  unfoldable pub push_as : Option Text → Text → Act b (Unit {0})
  unfolding write
  push_as none value = pure tt
  push_as (some wire_name) value = write (parameter_status wire_name value)

  unfoldable pub push_parameter_status_if_reportable : Text → Text → Act b (Unit {0})
  unfolding lookup push_as
  push_parameter_status_if_reportable name value = push_as (lookup guc_report_names name) value

  -- `self._session_settings = settings`
  abbrev pub set_settings : (PgConnection b → TextDict Text) → Act b (Unit {0})
  set_settings settings = change (λ c. record c { session_settings = settings c })

  abbrev pub describing : Act b Bool
  describing = reads (λ c. c.in_describe)

  unfoldable pub apply_set_setting : SetSettingOp → Act b (Unit {0})
  unfolding assign push_parameter_status_if_reportable
  apply_set_setting op = describing >>= λ in_describe.
      if in_describe
      then pure tt
      else set_settings (λ c. assign c.session_settings op.name op.value)
        >> push_parameter_status_if_reportable op.name op.value

  -- the loop that pushes every reportable setting
  unfoldable pub push_all : TextDict Text → Act b (Unit {0})
  unfolding lookup push_parameter_status_if_reportable
  push_all [] = pure tt
  push_all (names_of ∷ names) = reads (λ c. lookup_or c.session_settings names_of.0 []) >>= λ value.
      push_parameter_status_if_reportable names_of.0 value >> push_all names

  -- back to the seed's value, or away where the seed has none
  unfoldable pub reset_to : Option Text → Text → Act b (Unit {0})
  unfolding assign discard push_parameter_status_if_reportable
  reset_to (some value) name =
      set_settings (λ c. assign c.session_settings name value)
      >> push_parameter_status_if_reportable name value
  reset_to none name = set_settings (λ c. discard c.session_settings name)

  unfoldable pub apply_reset_setting : ResetSettingOp → Act b (Unit {0})
  unfolding lookup push_all reset_to
  apply_reset_setting op =
      let one = name_or_empty op.name in
      let name = lookup_or show_aliases one one in
      describing >>= λ in_describe.
      if in_describe
      then pure tt
      else if op.reset_all
      then set_settings (λ _. session_setting_seed) >> push_all guc_report_names
      else reset_to (lookup session_setting_seed name) name

  abbrev pub set_tx : TxState → Act b (Unit {0})
  set_tx tx_state = change (λ c. record c { tx_state = tx_state })

  unfoldable pub apply_tx_command : Option Text → Act b (Unit {0})
  unfolding text_eq
  apply_tx_command none = pure tt
  apply_tx_command (some command_tag) =
      if text_eq command_tag (text "BEGIN") || text_eq command_tag (text "START TRANSACTION")
      then set_tx in_transaction
      else if text_eq command_tag (text "COMMIT")
          || (text_eq command_tag (text "ROLLBACK") || text_eq command_tag (text "END"))
      then set_tx idle
      else pure tt
