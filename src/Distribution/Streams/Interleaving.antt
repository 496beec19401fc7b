-- ===== src/Distribution/Streams/Interleaving.antt =====
-- The order in which the two goroutines of a rule client run.
use kontxt.Base.{◌≡◌, refl, List, [], ◌∷◌}
use kontxt.Base.Maps.{Map}
use kontxt.Rules.{GenerationRule, VerificationRule}
use kontxt.Distribution.Proto.{GenerationMessage}
use kontxt.Distribution.Stream.{RuleKey, Update}
use kontxt.Distribution.Client.{apply_generation, apply_verification}
use kontxt.Distribution.Streams.{
  Side, Met, stream, RuleClient, Event, generation, verification, handle, handle_all,
}

-- What the goroutine of each stream meets.
abbrev pub met_generation : List Event → List (Met GenerationMessage)
met_generation [] = []
met_generation (generation m ∷ es) = m ∷ met_generation es
met_generation (verification m ∷ es) = met_generation es

abbrev pub met_verification : List Event → List (Met VerificationRule)
met_verification [] = []
met_verification (generation m ∷ es) = met_verification es
met_verification (verification m ∷ es) = m ∷ met_verification es

abbrev pub stream_all :
    {T R P : Type 0}
    → (List R → T → T)
    → (Map RuleKey R → Update P → Map RuleKey R)
    → List (Met P)
    → Side T R
    → Side T R
stream_all set apply [] s = s
stream_all set apply (m ∷ ms) s = stream_all set apply ms (stream set apply m s)

module _ {G V : Type 0} (set_generation : List GenerationRule → G → G)
    (set_verification : List VerificationRule → V → V) where
  pub handle_all-stream_all :
      (es : List Event) (c : RuleClient G V)
      → (handle_all set_generation set_verification es c).0 ≡ record {
        gen = stream_all set_generation apply_generation (met_generation es) c.gen;
        ver = stream_all set_verification apply_verification (met_verification es) c.ver;
      }
  unfolding handle_all handle
  handle_all-stream_all [] c = refl
  handle_all-stream_all (generation m ∷ es) c = handle_all-stream_all es _
  handle_all-stream_all (verification m ∷ es) c = handle_all-stream_all es _

  -- How the two goroutines of a connection interleave makes no difference: what the setters get
  -- depends only on what each of them meets.
  pub handle_all-met :
      (es fs : List Event) (c : RuleClient G V)
      → met_generation es ≡ met_generation fs
      → met_verification es ≡ met_verification fs
      → (handle_all set_generation set_verification es c).0
        ≡ (handle_all set_generation set_verification fs c).0
  handle_all-met es fs c gens vers =
      rw (handle_all-stream_all es c, handle_all-stream_all fs c, gens, vers) refl
