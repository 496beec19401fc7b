-- ===== src/Distribution/Server/Sound.antt =====
-- What the subscribers of one stream are like, and what keeps it so.
use kontxt.Base.{
  ℕ, ◌+◌, ◌≤◌, ◌<◌, ◌≡◌, refl, sym, ◌∙◌, inl, inr, none, some, List, [], ◌∷◌, arith, ltb, ◌==◌,
  Eq_nat, Eq_string, Bool-cases, Option-cases, length, length-append, subst, some_inj,
}
use kontxt.Base.Maps.{Map, lookup, insert, lookup-insert, lookup-delete}
use kontxt.Distribution.Stream.{
  empty_stream, Response, Update, Stream, push, subscribe, unsubscribe, offer, broadcast, capacity,
  next_version, receive,
}
use kontxt.Distribution.Sync.{lookup-broadcast}
use kontxt.Distribution.Server.Calls.{take_response}

length-offer :
    {P : Type 0} (resp : Response P) (ch : List (Response P))
    → length ch ≤ 64
    → length (offer resp ch) ≤ 64
unfolding offer capacity
length-offer resp ch small = elim (Bool-cases (ltb (length ch) 64)) [
  | inl room ↦ rw (room, offer) (ground (arith, length-append ch (resp ∷ []), room))
  | inr full ↦ rw (full, offer) small
]

lookup-broadcast-none :
    {P : Type 0} (resp : Response P) (id : ℕ) (subs : Map ℕ (List (Response P)))
    → lookup id subs ≡ none
    → lookup id (broadcast resp subs) ≡ none
unfolding broadcast lookup
lookup-broadcast-none resp id [] e = refl
lookup-broadcast-none resp id ((j, c) ∷ subs) e = grind (arith, lookup-broadcast-none resp id subs)

-- No subscriber has an id above the counter, and no channel has more responses than it holds.
pub record Sound {R P : Type 0} (counter : ℕ) (st : Stream R P) : Type 0 where
  pub fresh : (id : ℕ) → counter < id → lookup id st.subscribers ≡ none
  pub bounded :
      (id : ℕ) (ch : List (Response P)) → lookup id st.subscribers ≡ some ch → length ch ≤ 64

module _ {R P : Type 0} (counter : ℕ) (st : Stream R P) (h : Sound counter st) where
  pub push-Sound :
      (to_proto : R → P) (rules : List R) (u : Update P) → Sound counter (push to_proto st rules u)
  unfolding push
  push-Sound to_proto rules u =
      let resp : Response P = record { update = u; version = next_version st.version } in
      record {
        fresh = λ id above. lookup-broadcast-none resp id st.subscribers (h.fresh id above);
        bounded = λ id ch there. elim (Option-cases (lookup id st.subscribers)) [
          | inl missing ↦
              absurd (ground (arith, lookup-broadcast-none resp id st.subscribers missing, there))
          | inr (old, was) ↦
              subst (λ l. length l ≤ 64)
                (some_inj (sym (lookup-broadcast resp id st.subscribers old was) ∙ there))
                (length-offer resp old (h.bounded id old was))
        ];
      }

  pub Sound-later : Sound (counter + 1) st
  Sound-later = record { fresh = λ id above. h.fresh id (omega arith); bounded = h.bounded }

  inserted_bounded :
      (new : ℕ) (val : List (Response P))
      → length val ≤ 64
      → (id : ℕ) (ch : List (Response P)) → lookup id (insert new val st.subscribers) ≡ some ch
      → length ch ≤ 64
  inserted_bounded new val small id ch there = elim (Bool-cases (new == id)) [
    | inl same ↦
        subst (λ l. length l ≤ 64)
          (some_inj (rw same at (sym (lookup-insert new id val st.subscribers) ∙ there))) small
    | inr differs ↦
        h.bounded id ch (rw differs at (sym (lookup-insert new id val st.subscribers) ∙ there))
  ]

  pub subscribe-Sound :
      (to_proto : R → P) → Sound (counter + 1) (subscribe to_proto st (counter + 1)).0
  unfolding subscribe
  subscribe-Sound to_proto = record {
    fresh = λ id above.
        ground (
          arith,
          lookup-insert (counter + 1) id [] st.subscribers,
          h.fresh id (omega arith),
          above,
        );
    bounded = λ id ch there. inserted_bounded (counter + 1) [] (omega arith) id ch there;
  }

  pub unsubscribe-Sound : (id : ℕ) → Sound counter (unsubscribe st id)
  unfolding unsubscribe
  unsubscribe-Sound gone = record {
    fresh = λ id above. ground (arith, lookup-delete gone id st.subscribers, h.fresh id above);
    bounded = λ id ch there. elim (Bool-cases (gone == id)) [
      | inl same ↦
          absurd (ground (arith, (rw same at (sym (lookup-delete gone id st.subscribers) ∙ there))))
      | inr differs ↦
          h.bounded id ch (rw differs at (sym (lookup-delete gone id st.subscribers) ∙ there))
    ];
  }

  pub take_response-Sound : (id : ℕ) → Sound counter (take_response st id)
  unfolding take_response receive
  take_response-Sound reader = elim (Option-cases (lookup reader st.subscribers)) [
    | inl missing ↦ rw (missing, take_response) h
    | inr ([], there) ↦ rw (there, take_response) h
    | inr (resp ∷ rest, there) ↦
        rw (there, take_response)
          (record {
            fresh = λ id above. ground (
              arith,
              lookup-insert reader id rest st.subscribers,
              h.fresh id above,
              there,
              above,
            );
            bounded = λ id ch there'.
                inserted_bounded reader rest
                  (let small = h.bounded reader (resp ∷ rest) there in omega arith) id ch there';
          })
  ]

pub empty-Sound : {R P : Type 0} → Sound 0 (empty_stream {R = R} {P = P})
unfolding lookup
empty-Sound = record { fresh = λ id above. refl; bounded = λ id ch there. cc }
