-- ===== src/Emulator/Keepalive.antt =====
-- The keepalive interval that a client asks for (internal/emulator/session.go).
use tagstrak.Common.{
  ℕ, ◌+◌, ◌*◌, Bool, true, false, ◌||◌, not, List, [], ◌∷◌, length, be_uint, drop, ltb, leb, ◌==◌,
  if◌then◌else◌, Result, ok, err, ◌>>=◌, get_or,
}
use tagstrak.Llrp.Frame.{Message}
use tagstrak.Llrp.Parameter.{Parameter, decode_parameters}
use tagstrak.Emulator.{Config, limits, Error, protocol, as_codec}

-- The loop of `requestedKeepalive`
asked_interval : (seen : Bool) → ℕ → List Parameter → Result Error ℕ
asked_interval seen interval [] = ok interval
asked_interval seen interval (p ∷ ps) =
    let rest = asked_interval true (be_uint (drop 1 p.content) * 1000000) ps in
    if p.tv
      || (not (p.kind == 220)
          || (seen || (not (length p.content == 5) || not (get_or p.content 0 0 == 1))))
    then err protocol
    else rest

-- `requestedKeepalive`
unfoldable pub requested_keepalive : Message → Config → Result Error ℕ
unfolding asked_interval as_codec limits
requested_keepalive m c =
    if not (m.header.kind == 1027) || (ltb (length m.payload) 1 || not (get_or m.payload 0 0 == 0))
    then err protocol
    else do
      parameters ← as_codec (decode_parameters (drop 1 m.payload) (limits c))
      interval ← asked_interval false c.keepalive_interval parameters
      if ltb interval 10000000
            || (ltb 3600000000000 interval || leb c.read_timeout (interval + c.ack_timeout))
          then err protocol
          else ok interval
