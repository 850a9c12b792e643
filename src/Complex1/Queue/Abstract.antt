-- ===== src/Complex1/Queue/Abstract.antt =====
-- What can be seen of a queue of led/complex1 by writing and reading.
use rtems_examples.Common.{
  ℕ, zero, suc, ◌+◌, ◌<◌, ◌≡◌, ◌↔◌, refl, ap, ap₂, sym, ◌∙◌, arith, true, false, none, some, List,
  [], ◌∷◌, ◌++◌,
}
use rtems_examples.Common.Lists.{length, length-append}
use native.Mathlib.Decide.{dec_lt}
use rtems_examples.Complex1.Queue.{Queue}
use rtems_examples.Complex1.Queue.Invariant.{IsValid, contents}
use rtems_examples.Complex1.Queue.Fifo.{
  Request, to_write, to_read, Reply, wrote, got, run, answers, answers_room, answers_full,
  run-answers,
}

module _ {ℓ} {A : Type ℓ} (blank : A) (storage : ℕ) where
  -- Messages are copied as they are.
  abbrev replies : ℕ → List (Request A) → List A → List (Reply A)
  replies depth requests vs = answers blank none none storage depth requests vs

  abbrev Same : (d d' : ℕ) → List A → List A → Type ℓ
  Same d d' vs ws = (requests : List (Request A)) → replies d requests vs ≡ replies d' requests ws

  tails : (a b : Reply A) (l k : List (Reply A)) → a ∷ l ≡ b ∷ k → l ≡ k
  tails a b l k e = cc

  got_value : (v w : A) (l k : List (Reply A)) → got (some v) ∷ l ≡ got (some w) ∷ k → v ≡ w
  got_value v w l k e = cc

  behind_read :
      (d d' : ℕ) (v w : A) (vs ws : List A) → Same d d' (v ∷ vs) (w ∷ ws) → Same d d' vs ws
  unfolding answers
  behind_read d d' v w vs ws h requests =
      tails (got (some v)) (got (some w)) (replies d requests vs) (replies d' requests ws)
        (h (to_read ∷ requests))

  Same-contents : (d d' : ℕ) (vs ws : List A) → Same d d' vs ws → vs ≡ ws
  unfolding answers
  Same-contents d d' [] [] h = refl
  Same-contents d d' [] (w ∷ ws) h = let e = h (to_read ∷ []) in cc
  Same-contents d d' (v ∷ vs) [] h = let e = h (to_read ∷ []) in cc
  Same-contents d d' (v ∷ vs) (w ∷ ws) h =
      ap₂ ◌∷◌ (got_value v w [] [] (h (to_read ∷ [])))
        (Same-contents d d' vs ws (behind_read d d' v w vs ws h))

  drained : (d d' : ℕ) (vs : List A) → Same d d' vs vs → Same d d' [] []
  drained d d' [] h = h
  drained d d' (v ∷ vs) h = drained d d' vs (behind_read d d' v v vs vs h)

  differ : (l k : List (Reply A)) → wrote false ∷ l ≡ wrote true ∷ k → ⊥
  differ l k e = cc

  -- The queue with the smaller depth refuses first.
  refuses_first : (m d d' : ℕ) (vs : List A) → length vs + m ≡ d → d < d' → Same d d' vs vs → ⊥
  refuses_first zero d d' vs e h same =
      differ (replies d [] vs) (replies d' [] (vs ++ blank ∷ [])) (
        sym (answers_full blank none none storage d blank [] vs (omega (arith, e)))
        ∙ same (to_write blank ∷ [])
        ∙ answers_room blank none none storage d' blank [] vs (omega (arith, e, h)))
  refuses_first (suc m) d d' vs e h same =
      refuses_first m d d' (vs ++ blank ∷ []) (omega (arith, e, length-append vs (blank ∷ []))) h
        (λ requests.
          tails (wrote true) (wrote true) (replies d requests (vs ++ blank ∷ []))
            (replies d' requests (vs ++ blank ∷ []))
            (sym (answers_room blank none none storage d blank requests vs (omega (arith, e)))
              ∙ same (to_write blank ∷ requests)
              ∙ answers_room blank none none storage d' blank requests vs (omega (arith, e, h))))

  Same-depth : (d d' : ℕ) → Same d d' [] [] → d ≡ d'
  Same-depth d d' h = elim (dec_lt d d') [
    | yes less ↦ absurd (refuses_first d d d' [] (omega arith) less h)
    | no more ↦ elim (dec_lt d' d) [
      | yes less ↦
          absurd (refuses_first d' d' d [] (omega arith) less (λ requests. sym (h requests)))
      | no equal ↦ omega arith
    ]
  ]

  -- The answers to all sequences of requests.
  abbrev pub SameAnswers : Queue A → Queue A → Type ℓ
  SameAnswers q q' =
      (requests : List (Request A))
      → run blank none none storage requests q ≡ run blank none none storage requests q'

  abbrev pub SameView : Queue A → Queue A → Type ℓ
  SameView q q' = (q.depth ≡ q'.depth) × (contents q ≡ contents q')

  -- Two well-formed queues give the same answers to every sequence of writes and reads exactly when
  -- they have the same depth and hold the same messages in the same order.
  pub SameAnswers-SameView :
      (q q' : Queue A) → IsValid q → IsValid q' → SameAnswers q q' ↔ SameView q q'
  SameAnswers-SameView q q' v v' = (
    seen,
    λ view requests.
        answered requests
        ∙ ap₂ (λ d l. replies d requests l) view.0 view.1
        ∙ sym (answered' requests),
  )
    where
      answered :
          (requests : List (Request A))
          → run blank none none storage requests q ≡ replies q.depth requests (contents q)
      answered requests = run-answers blank none none storage requests q v

      answered' :
          (requests : List (Request A))
          → run blank none none storage requests q' ≡ replies q'.depth requests (contents q')
      answered' requests = run-answers blank none none storage requests q' v'

      seen : SameAnswers q q' → SameView q q'
      seen h =
          let same : Same q.depth q'.depth (contents q) (contents q') =
            λ requests. sym (answered requests) ∙ h requests ∙ answered' requests in
          let e = Same-contents q.depth q'.depth (contents q) (contents q') same in
          (
            Same-depth q.depth q'.depth (
                drained q.depth q'.depth (contents q')
                  (λ requests. ap (λ l. replies q.depth requests l) (sym e) ∙ same requests)),
            e,
          )
