-- ===== src/Complex1/Queue/Fifo.antt =====
-- The queue of led/complex1 is a bounded first-in first-out queue of values.
use rtems_examples.Common.{
  ℕ, ◌≤◌, ◌<◌, ◌≡◌, refl, ap₂, ◌∙◌, sym, ap, arith, Bool, true, false, Option, some, List, [], ◌∷◌,
  ◌++◌, ltb, ◌⊎◌, inl, inr,
}
use rtems_examples.Common.Lists.{length, length-map}
use native.Mathlib.Decide.{dec_lt}
use rtems_examples.Complex1.Queue.{
  Queue, convert, Outcome, returned, thrown, stuck, undefined, write, read,
}
use rtems_examples.Complex1.Queue.Invariant.{all_succeed, IsValid, contents}
use rtems_examples.Complex1.Queue.Writes.{write-Written, write-Refused}
use rtems_examples.Complex1.Queue.Reads.{read-WasRead, read_stuck}

pub data Request {ℓ} (A : Type ℓ) : Type ℓ where
  to_write : A → Request A
  to_read : Request A

-- `fault` is an outcome that the specification never has.
pub data Reply {ℓ} (A : Type ℓ) : Type ℓ where
  wrote : Bool → Reply A
  got : Option A → Reply A
  waits fault : Reply A

list_cases {ℓ} : {A : Type ℓ} (l : List A) → (l ≡ []) ⊎ ((y : A) × (ys : List A) × (l ≡ y ∷ ys))
list_cases [] = inl refl
list_cases (y ∷ ys) = inr (y, ys, refl)

module _ {ℓ} {A : Type ℓ} (blank : A) (hton ntoh : Option (A → A)) (storage : ℕ) where
  respond {κ} :
      {B : Type κ}
      → (B → Reply A)
      → Outcome B × Queue A
      → (Queue A → List (Reply A))
      → List (Reply A)
  respond reply (returned b, q) k = reply b ∷ k q
  respond reply (stuck, q) k = waits ∷ []
  respond reply (thrown e, q) k = fault ∷ []
  respond reply (undefined, q) k = fault ∷ []

  -- One thread makes the requests in turn; one that waits makes no more.
  unfoldable pub run : List (Request A) → Queue A → List (Reply A)
  unfolding respond
  run [] q = []
  run (to_write x ∷ rest) q = respond wrote (write all_succeed blank hton x q) (run rest)
  run (to_read ∷ rest) q = respond got (read all_succeed [] storage ntoh q) (run rest)

  -- What a bounded queue of values answers.
  unfoldable pub answers : ℕ → List (Request A) → List A → List (Reply A)
  answers depth [] vs = []
  answers depth (to_write x ∷ rest) vs = elim (ltb (length vs) depth) [
    | true ↦ wrote true ∷ answers depth rest (vs ++ convert hton x ∷ [])
    | false ↦ wrote false ∷ answers depth rest vs
  ]
  answers depth (to_read ∷ rest) [] = waits ∷ []
  answers depth (to_read ∷ rest) (y ∷ ys) = got (some (convert ntoh y)) ∷ answers depth rest ys

  write_step :
      (x : A) (rest : List (Request A)) (q q' : Queue A) (b : Bool)
      → write all_succeed blank hton x q ≡ (returned b, q')
      → run (to_write x ∷ rest) q ≡ wrote b ∷ run rest q'
  unfolding run
  write_step x rest q q' b e = ap (λ r. respond wrote r (run rest)) e

  read_step :
      (rest : List (Request A)) (q q' : Queue A) (v : Option A)
      → read all_succeed [] storage ntoh q ≡ (returned v, q')
      → run (to_read ∷ rest) q ≡ got v ∷ run rest q'
  unfolding run
  read_step rest q q' v e = ap (λ r. respond got r (run rest)) e

  respond-stuck :
      (r : Outcome (Option A) × Queue A) (k : Queue A → List (Reply A))
      → r.0 ≡ stuck
      → respond got r k ≡ waits ∷ []
  unfolding respond
  respond-stuck (stuck, q) k e = refl
  respond-stuck (returned b, q) k e = cc
  respond-stuck (thrown x, q) k e = cc
  respond-stuck (undefined, q) k e = cc

  run_waits :
      (rest : List (Request A)) (q : Queue A)
      → (read all_succeed [] storage ntoh q).0 ≡ stuck
      → run (to_read ∷ rest) q ≡ waits ∷ []
  unfolding run
  run_waits rest q e = respond-stuck (read all_succeed [] storage ntoh q) (run rest) e

  pub answers_room :
      (depth : ℕ) (x : A) (rest : List (Request A)) (vs : List A)
      → length vs < depth
      → answers depth (to_write x ∷ rest) vs
        ≡ wrote true ∷ answers depth rest (vs ++ convert hton x ∷ [])
  unfolding answers
  answers_room depth x rest vs h = ground arith

  pub answers_full :
      (depth : ℕ) (x : A) (rest : List (Request A)) (vs : List A)
      → depth ≤ length vs
      → answers depth (to_write x ∷ rest) vs ≡ wrote false ∷ answers depth rest vs
  unfolding answers
  answers_full depth x rest vs h = ground arith

  -- From a well-formed queue on, any sequence of `Write` and `Read` gets the answers of a bounded
  -- first-in first-out queue of the converted values.
  pub run-answers :
      (requests : List (Request A)) (q : Queue A)
      → IsValid q
      → run requests q ≡ answers q.depth requests (contents q)
  unfolding answers
  run-answers [] q v = unfold run in refl
  run-answers (to_write x ∷ rest) q v = elim (dec_lt (length q.pending) q.depth) [
    | yes room ↦
        let w = write-Written blank hton x q v room in
        write_step x rest q w.after true w.result
        ∙ ap (λ l. wrote true ∷ l) (run-answers rest w.after w.valid)
        ∙ ap₂ (λ d l. wrote true ∷ answers d rest l) w.same_depth w.appended
        ∙ sym (answers_room q.depth x rest (contents q) (rw (length-map q.pending q.cell) room))
    | no full ↦
        let w = write-Refused blank hton x q v (omega arith) in
        write_step x rest q w.after false w.result
        ∙ ap (λ l. wrote false ∷ l) (run-answers rest w.after w.valid)
        ∙ ap₂ (λ d l. wrote false ∷ answers d rest l) w.same_depth w.same
        ∙ sym (
            answers_full q.depth x rest (contents q)
              (rw (length-map q.pending q.cell) (omega arith)))
  ]
  run-answers (to_read ∷ rest) q v = elim (list_cases (contents q)) [
    | inl none_left ↦ run_waits rest q (read_stuck ntoh storage [] q v none_left) ∙ rw none_left
    | inr (y, ys, e) ↦
        let r = read-WasRead ntoh storage [] q y ys v e in
        read_step rest q r.after (some (convert ntoh y)) r.result
        ∙ ap (λ l. got (some (convert ntoh y)) ∷ l) (run-answers rest r.after r.valid)
        ∙ ap₂ (λ d l. got (some (convert ntoh y)) ∷ answers d rest l) r.same_depth r.rest
        ∙ rw e
  ]
