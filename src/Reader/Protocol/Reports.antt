-- ===== src/Reader/Protocol/Reports.antt =====
-- Reports of whole-word tags become observations.
use tagstrak.Common.{
  ℕ, ◌%◌, ◌^◌, ◌≤◌, ◌<◌, ◌≡◌, refl, arith, List, [], ◌∷◌, Bytes, length, some, All, map, ok,
}
use tagstrak.Inventory.{Observation, new_tag, new_observation, min_epc_bytes, max_epc_bytes}
use tagstrak.Llrp.Error.{Limits, normalized}
use tagstrak.Llrp.TagReport.RoundTrip.{
  HasRoom, epc_parameter, pc_parameter, report_parameters, tag_reports, tag_event,
  decode_parameters-inner, decode_parameters-tag_reports, decode_read_events-tag_reports,
}
use tagstrak.Reader.Protocol.{
  count_epcs, check_reports, observation_of, observations_of, decode_observations,
}

-- A tag that the inventory can hold
abbrev pub IsTag : Bytes × ℕ → Type 0
IsTag (epc, pc) =
    (min_epc_bytes ≤ length epc)
    × (length epc ≤ max_epc_bytes)
    × (length epc % 2 ≡ 0)
    × (pc < 2 ^ 16)

abbrev pub observation : Bytes → ℕ → Bytes × ℕ → Observation
observation source now (epc, pc) = record {
  tag = record { epc = epc };
  seen_at = now;
  source = source;
  pc = some pc;
}

count_epcs-inner :
    (epc : Bytes) (pc : ℕ)
    → IsTag (epc, pc)
    → count_epcs 0 (epc_parameter epc ∷ pc_parameter pc ∷ []) ≡ ok 1
unfolding count_epcs epc_parameter pc_parameter
count_epcs-inner epc pc (low, high, even, word) = ground arith

check_reports-tags :
    (l : Limits) (tags : List (Bytes × ℕ))
    → HasRoom l
    → All IsTag tags
    → check_reports l (report_parameters tags) ≡ ok tt
unfolding check_reports
check_reports-tags l [] room h = refl
check_reports-tags l ((epc, pc) ∷ tags) room (t, h) =
    rw (decode_parameters-inner epc pc l (omega (arith, t.1)) room, count_epcs-inner epc pc t)
      (check_reports-tags l tags room h)

observation_of-tag_event :
    (source : Bytes) (now : ℕ) (tag : Bytes × ℕ)
    → IsTag tag
    → 0 < now
    → length source ≤ 256
    → observation_of source now (tag_event tag) ≡ ok (observation source now tag)
unfolding observation_of new_tag new_observation
observation_of-tag_event source now (epc, pc) (low, high, even, word) h k = ground arith

observations_of-tag_events :
    (source : Bytes) (now : ℕ) (tags : List (Bytes × ℕ))
    → All IsTag tags
    → 0 < now
    → length source ≤ 256
    → observations_of source now (map tag_event tags) ≡ ok (map (observation source now) tags)
unfolding observations_of
observations_of-tag_events source now [] h k m = refl
observations_of-tag_events source now (t ∷ tags) (ht, h) k m =
    rw
      (
        observation_of-tag_event source now t ht k m,
        observations_of-tag_events source now tags h k m,
      )
      refl

some_bytes :
    (tags : List (Bytes × ℕ)) → All IsTag tags → All (λ (t : Bytes × ℕ). 0 < length t.0) tags
some_bytes [] h = tt
some_bytes ((epc, pc) ∷ tags) (t, h) = (omega (arith, t.0), some_bytes tags h)

-- The client turns a report body that is made of tags of whole words into one observation for each,
-- in their order, with the tag's EPC and PC word, the time and the source. The limits leave room for
-- the longest report, and there are no more tags than the parameter limit allows.
pub decode_observations-tag_reports :
    (tags : List (Bytes × ℕ)) (l : Limits) (body source : Bytes) (now : ℕ)
    → HasRoom l
    → length tags ≤ (normalized l).max_parameters
    → All IsTag tags
    → 0 < now
    → length source ≤ 256
    → tag_reports tags ≡ ok body
    → decode_observations body l source now ≡ ok (map (observation source now) tags)
unfolding decode_observations
decode_observations-tag_reports tags l body source now room few h k m e =
    rw
      (
        decode_parameters-tag_reports tags l room few e,
        check_reports-tags l tags room h,
        decode_read_events-tag_reports tags l room few (some_bytes tags h) e,
      )
      (observations_of-tag_events source now tags h k m)
