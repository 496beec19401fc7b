-- ===== src/Distribution/Streams/Given.antt =====
-- What the rule client of the ext_authz services gives to its setters, and when it is ready.
use mathlib.Core.Option.{map as map_option}
use kontxt.Base.{
  arith, ℕ, ◌≡◌, refl, sym, ap, ◌∙◌, inl, inr, Bool, true, false, not, ◌&&◌, ◌||◌, Option, none,
  some, List, [], ◌∷◌, ◌++◌, Bool-cases, Option-cases, is_some, Outcome-cases, ok, err,
  if◌then◌else◌,
}
use kontxt.Base.Maps.{Map}
use kontxt.Rules.{GenerationRule, VerificationRule}
use kontxt.Distribution.Stream.{RuleKey, Update}
use kontxt.Distribution.Client.{values, apply_generation, apply_verification}
use kontxt.Distribution.Streams.{
  Side, Met, opened, received, failed, hand_on, start, deliver, stream, RuleClient, Event, Attempt,
  next_backoff, ready, handle, handle_all, connect, run,
}
use kontxt.Distribution.Streams.Interleaving.{
  met_generation, met_verification, stream_all, handle_all-stream_all,
}

-- The events of a connection, which has some only when it is dialled.
abbrev events_of : Attempt → List Event
events_of a = elim a.dialled [ err _ ↦ [] | ok _ ↦ a.events ]

-- The events of all connections until the context is done.
abbrev pub events_of_all : List Attempt → List Event
events_of_all [] = []
events_of_all (a ∷ rest) =
    let later = events_of_all rest in
    events_of a ++ (if a.done || a.done_waiting then [] else later)

-- The lists that the goroutines of one side make up: the rules of a stream after each of its responses,
-- from an empty map at its start.
abbrev pub lists_of :
    {R P : Type 0}
    → (Map RuleKey R → Update P → Map RuleKey R)
    → Option (Map RuleKey R)
    → List (Met P)
    → List (List R)
lists_of apply running [] = []
lists_of apply running (opened ∷ ms) = lists_of apply (some []) ms
lists_of apply running (failed _ ∷ ms) = lists_of apply none ms
lists_of apply none (received u ∷ ms) = lists_of apply none ms
lists_of apply (some m) (received u ∷ ms) =
    let m' = apply m u in values m' ∷ lists_of apply (some m') ms

-- The setter after it was given these lists, one after the other.
abbrev pub give_all : {T R : Type 0} → (List R → T → T) → List (List R) → T → T
give_all set [] target = target
give_all set (l ∷ ls) target = give_all set ls (set l target)

-- Whether a side has nothing to wait for: it has no setter, or a list for it.
abbrev pub is_fed : {T R : Type 0} → Option T → List (List R) → Bool
is_fed none lists = true
is_fed (some _) [] = false
is_fed (some _) (_ ∷ _) = true

module _ {T R P : Type 0} (set : List R → T → T)
    (apply : Map RuleKey R → Update P → Map RuleKey R) where
  -- Without a setter nothing comes.
  stream_all-none :
      (ms : List (Met P)) (synced : Bool) (running : Option (Map RuleKey R))
      → (stream_all set apply ms
          (record { setter = none; synced = synced; rules = running })).setter
        ≡ none
  unfolding stream start deliver
  stream_all-none [] synced running = refl
  stream_all-none (opened ∷ ms) synced running = stream_all-none ms synced running
  stream_all-none (failed e ∷ ms) synced running = stream_all-none ms synced none
  stream_all-none (received u ∷ ms) synced running = stream_all-none ms synced running

  stream_all-some :
      (ms : List (Met P)) (t : T) (synced : Bool) (running : Option (Map RuleKey R))
      → ((stream_all set apply ms
            (record { setter = some t; synced = synced; rules = running })).setter
          ≡ some (give_all set (lists_of apply running ms) t))
        × ((stream_all set apply ms
              (record { setter = some t; synced = synced; rules = running })).synced
            ≡ (synced || is_fed (some t) (lists_of apply running ms)))
  unfolding stream start deliver hand_on
  stream_all-some [] t synced running = (refl, ground arith)
  stream_all-some (opened ∷ ms) t synced running = stream_all-some ms t synced (some [])
  stream_all-some (failed e ∷ ms) t synced running = stream_all-some ms t synced none
  stream_all-some (received u ∷ ms) t synced none = stream_all-some ms t synced none
  stream_all-some (received u ∷ ms) t synced (some m) =
      let (given, fed) = stream_all-some ms (set (values (apply m u)) t) true (some (apply m u)) in
      (given, ground (arith, fed))

  -- What a side that starts unsynced comes to.
  side-given :
      (ms : List (Met P)) (s : Side T R)
      → s.synced ≡ false
      → s.rules ≡ none
      → ((stream_all set apply ms s).setter
          ≡ map_option (give_all set (lists_of apply none ms)) s.setter)
        × ((is_some (stream_all set apply ms s).setter && not (stream_all set apply ms s).synced)
            ≡ not (is_fed s.setter (lists_of apply none ms)))
  side-given ms s unsynced stopped = elim (Option-cases s.setter) [
    | inl missing ↦
        rw (missing, unsynced, stopped)
          (let nothing = stream_all-none ms false none in (nothing, rw nothing refl))
    | inr (t, there) ↦
        rw (there, unsynced, stopped)
          (let (given, fed) = stream_all-some ms t false none in (given, rw (given, fed) refl))
  ]

both_fed : (a b : Bool) → (if not a then false else if not b then false else true) ≡ (a && b)
both_fed false b = refl
both_fed true false = refl
both_fed true true = refl

module _ {G V : Type 0} (set_generation : List GenerationRule → G → G)
    (set_verification : List VerificationRule → V → V) where
  handle_all-append :
      (es fs : List Event) (c : RuleClient G V)
      → (handle_all set_generation set_verification (es ++ fs) c).0
        ≡ (handle_all set_generation set_verification fs
            (handle_all set_generation set_verification es c).0).0
  unfolding handle_all
  handle_all-append [] fs c = refl
  handle_all-append (e ∷ es) fs c =
      handle_all-append es fs (handle set_generation set_verification e c)

  connect-handle_all :
      (a : Attempt) (c : RuleClient G V)
      → (connect set_generation set_verification a c).0
        ≡ (handle_all set_generation set_verification (events_of a) c).0
  unfolding connect handle_all
  connect-handle_all a c = elim (Outcome-cases a.dialled) [
    | inr (e, refused) ↦ rw refused refl
    | inl (_, dialled) ↦ rw dialled refl
  ]

  run-handle_all :
      (attempts : List Attempt) (backoff : ℕ) (c : RuleClient G V)
      → (run set_generation set_verification attempts backoff c).0
        ≡ (handle_all set_generation set_verification (events_of_all attempts) c).0
  unfolding run connect handle_all
  run-handle_all [] backoff c = refl
  run-handle_all (a ∷ rest) backoff c = elim (Bool-cases (a.done || a.done_waiting)) [
    | inl over ↦ rw over (connect-handle_all a c ∙ sym (handle_all-append (events_of a) [] c))
    | inr on ↦ rw on (
        run-handle_all rest (next_backoff backoff) _
        ∙ ap (λ d. (handle_all set_generation set_verification (events_of_all rest) d).0)
            (connect-handle_all a c)
        ∙ sym (handle_all-append (events_of a) (events_of_all rest) c))
  ]

  -- After any connections of a client that has not synced and has no stream yet, each setter that
  -- is there was given, one after the other, the lists that its streams make up after each of their
  -- responses, each stream from an empty map, and the client is ready exactly when each of these
  -- setters was given a list.
  pub run-given :
      (c : RuleClient G V) (attempts : List Attempt) (backoff : ℕ)
      → c.gen.synced ≡ false
      → c.gen.rules ≡ none
      → c.ver.synced ≡ false
      → c.ver.rules ≡ none
      → ((run set_generation set_verification attempts backoff c).0.gen.setter
          ≡ map_option
              (give_all set_generation
                (lists_of apply_generation none (met_generation (events_of_all attempts))))
              c.gen.setter)
        × ((run set_generation set_verification attempts backoff c).0.ver.setter
            ≡ map_option
                (give_all set_verification
                  (lists_of apply_verification none (met_verification (events_of_all attempts))))
                c.ver.setter)
        × (ready (run set_generation set_verification attempts backoff c).0 ≡ (
            is_fed c.gen.setter
              (lists_of apply_generation none (met_generation (events_of_all attempts)))
            && is_fed c.ver.setter
                (lists_of apply_verification none (met_verification (events_of_all attempts)))))
  unfolding ready
  run-given c attempts backoff gen_unsynced gen_stopped ver_unsynced ver_stopped =
      let es = events_of_all attempts in
      let (gen, gen_fed) =
        side-given set_generation apply_generation (met_generation es) c.gen gen_unsynced
          gen_stopped in
      let (ver, ver_fed) =
        side-given set_verification apply_verification (met_verification es) c.ver ver_unsynced
          ver_stopped in
      rw
        (run-handle_all attempts backoff c
          ∙ handle_all-stream_all set_generation set_verification es c)
        (gen, ver, rw (gen_fed, ver_fed, ready) (both_fed _ _))
