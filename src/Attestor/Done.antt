-- ===== src/Attestor/Done.antt =====
-- crates/mock-zkattestor/src/main.rs: when the loop over the events is done.
use zkboost.Prelude.{
  ◌≢◌, Bool, ◌≡◌, refl, ◌↔◌, arith, List, [], ◌∷◌, map, true, false, contains, remove, All,
}
use zkboost.ProofType.{ProofType, proof_type_dec}
use zkboost.Events.{ProofEvent, event_proof_type}
use zkboost.Attestor.{process_events, all_done, stream_ended}

abbrev pub IsCovered : List ProofEvent → ProofType → Type 0
IsCovered events p = contains proof_type_dec (map event_proof_type events) p ≡ true

module _ (event : ProofEvent) (events : List ProofEvent) where
  covered_later :
      (ps : List ProofType)
      → All (IsCovered events) (remove proof_type_dec (event_proof_type event) ps)
      → All (IsCovered (event ∷ events)) ps
  unfolding remove
  covered_later [] h = tt
  covered_later (p ∷ ps) h = ground (arith, covered_later ps)

  covered_first :
      (ps : List ProofType)
      → All (IsCovered (event ∷ events)) ps
      → All (IsCovered events) (remove proof_type_dec (event_proof_type event) ps)
  unfolding remove
  covered_first [] h = tt
  covered_first (p ∷ ps) h = ground (arith, covered_first ps)

stream_ended-ne-all_done : stream_ended ≢ all_done
stream_ended-ne-all_done h = cc

-- The loop is done exactly if the stream yields an event, of a complete proof or of a failure, for
-- each proof type that was asked for.
pub process_events-done_iff :
    (ps : List ProofType) (events : List ProofEvent)
    → ((process_events ps events).0 ≡ all_done) ↔ All (IsCovered events) ps
unfolding process_events
process_events-done_iff [] [] = (λ h. tt, λ h. refl)
process_events-done_iff (p ∷ ps) [] =
    (λ h. absurd (stream_ended-ne-all_done h), λ h. absurd (false-ne-true h.0))
  where
    false-ne-true : ¬ ◌≡◌ {A = Bool} false true
    false-ne-true e = cc
process_events-done_iff [] (event ∷ events) = (λ h. tt, λ h. refl)
process_events-done_iff (p ∷ ps) (event ∷ events) =
    let (covered, done) =
      process_events-done_iff (remove proof_type_dec (event_proof_type event) (p ∷ ps)) events in
    (
      λ h. covered_later event events (p ∷ ps) (covered h),
      λ h. done (covered_first event events (p ∷ ps) h),
    )
