-- ===== src/Server/Notify.antt =====
-- internal/server/client_api.go: the message about a report of a client, with the texts of
-- internal/alert/discord.go. The printing of a time in the server's zone and `%.2f` are parameters.
use backitup.Prelude.{
  ℕ, ◌/◌, ◌^◌, Bool, [], ◌∷◌, ◌++◌, String, Text, Option, none, some, leb, ◌==◌, text_eq,
  if◌then◌else◌, codes, decimal,
}
use backitup.Model.{Client, RunStatus}

-- A sign with the variation selector behind it.
abbrev coloured : String → Text
coloured sign = codes sign ++ 65039 ∷ []

module _ (quotient : ℕ → ℕ → Text) (fmt_time : ℕ → Text) where
  unfoldable format_bytes : ℕ → Text
  format_bytes b =
      if leb (2 ^ 30) b
      then quotient b (2 ^ 30) ++ codes " GB"
      else if leb (2 ^ 20) b
      then quotient b (2 ^ 20) ++ codes " MB"
      else decimal (b / 1024) ++ codes " KB"

  abbrev headline : Text → Client → Text → Text
  headline mark c what =
      mark
      ++ codes " **backitup** — `"
      ++ c.name
      ++ codes "` backup "
      ++ what
      ++ codes "\nSource: "
      ++ c.source_label

  abbrev if_verbose : Bool → Text → Option Text
  if_verbose verbose message = if verbose then some message else none

  -- `none` where there is nothing to say.
  unfoldable status_message : Bool → Client → RunStatus → ℕ → ℕ → ℕ → Option Text
  unfolding format_bytes
  status_message verbose c RunStatus.failed files bytes at =
      some (headline (coloured "⚠") c (codes "**FAILED**") ++ codes "\nAt: " ++ fmt_time at)
  status_message verbose c RunStatus.ok files bytes at = if_verbose verbose (
      headline (codes "✅") c (codes "**OK**")
      ++ codes "\nFinished: "
      ++ fmt_time at
      ++ codes " | files="
      ++ decimal files
      ++ codes " size="
      ++ format_bytes bytes)
  status_message verbose c RunStatus.running files bytes at =
      if_verbose verbose
        (headline (coloured "▶") c (codes "**STARTED**") ++ codes "\nStarted: " ++ fmt_time at)
  status_message verbose c RunStatus.overlap files bytes at =
      if_verbose verbose
        (headline (coloured "⏭") c (codes "**SKIPPED** (overlap — previous run still in progress)"))
  status_message verbose c (RunStatus.unknown s) files bytes at = none

  -- `alert.Discord` posts nothing without an address.
  unfoldable notify_status : Text → Bool → Client → RunStatus → ℕ → ℕ → ℕ → Option Text
  unfolding status_message
  notify_status webhook verbose c st files bytes at =
      if webhook == [] then none else status_message verbose c st files bytes at
