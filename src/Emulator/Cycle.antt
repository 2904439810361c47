-- ===== src/Emulator/Cycle.antt =====
-- One cycle of reports (internal/emulator/reports.go). `emit` sends a body; what it changes is
-- threaded through as a state.
pub mod Packs
pub mod Received
use tagstrak.Common.{
  ℕ, ◌+◌, ◌*◌, ◌/◌, ◌%◌, ◌^◌, Bool, ◌||◌, List, [], ◌∷◌, ◌++◌, Bytes, length, ltb, ◌==◌,
  if◌then◌else◌, Result, ok, err, ◌>>=◌,
}
use tagstrak.Inventory.{Tag}
use tagstrak.Llrp.Error.{default_max_parameters}
use tagstrak.Llrp.Frame.{message_header_size}
use tagstrak.Llrp.TagReport.{new_tag_report_data_param}
use tagstrak.Emulator.{Error, config, as_codec}

-- `uint16(len(epc)/2) << 11`: the length of the EPC in words, in the top bits of the PC word
abbrev pub length_word : Bytes → ℕ
length_word epc = length epc / 2 % 2 ^ 16 * 2048 % 2 ^ 16

module _ {S : Type 0} (emit : Bytes → S → Result Error S) (max_frame : ℕ) where
  -- The loop of `writeCycle`, and the last body
  unfoldable pub cycle_loop : List Tag → Bytes → ℕ → S → Result Error S
  cycle_loop [] body parameters s = emit body s
  cycle_loop (tag ∷ tags) body parameters s = do
    p ← as_codec (new_tag_report_data_param tag.epc (length_word tag.epc))
    let more = cycle_loop tags (body ++ p) (parameters + 1) s
    let flushed = emit body s >>= cycle_loop tags p 1
    if ltb max_frame (message_header_size + length p)
        then err config
        else if ltb max_frame (message_header_size + length body + length p)
            || parameters == default_max_parameters
        then flushed
        else more

  -- `writeCycle`
  unfoldable pub write_cycle : List Tag → S → Result Error S
  unfolding cycle_loop
  write_cycle tags s = cycle_loop tags [] 0 s
