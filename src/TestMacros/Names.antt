-- ===== src/TestMacros/Names.antt =====
-- testmacros.h: the name that `put_name` puts out is the text that the name was built of.
use rtems_examples.Common.{
  ℕ, ◌+◌, ◌*◌, ◌/◌, ◌%◌, ◌^◌, ◌<◌, ◌≤◌, Bool, List, [], ◌∷◌, ◌++◌, ◌≡◌, refl, ap, ◌∙◌, arith,
  if◌then◌else◌,
}
use rtems_examples.Common.Lists.{length, get_or, All}
use rtems_examples.Complex1.Periodic.{build_name}
use rtems_examples.TestMacros.{put_unless_nul, put_name}

-- The name of a text of up to four characters, filled up with NUL.
pub name_of : List ℕ → ℕ
name_of text = build_name (get_or text 0 0) (get_or text 1 0) (get_or text 2 0) (get_or text 3 0)

unfoldable pub IsText : List ℕ → Type 0
IsText = All (λ c. (0 < c) × (c < 256))

octets :
    (c0 c1 c2 c3 : ℕ) (crlf : Bool)
    → c0 < 256
    → c1 < 256
    → c2 < 256
    → c3 < 256
    → put_name (build_name c0 c1 c2 c3) crlf
      ≡ c0
        ∷ put_unless_nul c1 (put_unless_nul c2 (put_unless_nul c3 (if crlf then 0x0a ∷ [] else [])))
unfolding put_name build_name
octets c0 c1 c2 c3 crlf h0 h1 h2 h3 =
    let n = c0 * 2 ^ 24 + c1 * 2 ^ 16 + c2 * 2 ^ 8 + c3 in
    let e0 : n / 2 ^ 24 % 256 ≡ c0 = omega arith in
    let e1 : n / 2 ^ 16 % 256 ≡ c1 = omega arith in
    let e2 : n / 2 ^ 8 % 256 ≡ c2 = omega arith in
    let e3 : n % 256 ≡ c3 = omega arith in rw (e0, e1, e2, e3) refl

put_unless_nul_kept : (c : ℕ) (rest : List ℕ) → 0 < c → put_unless_nul c rest ≡ c ∷ rest
unfolding put_unless_nul
put_unless_nul_kept c rest h = ground arith

-- A name built of one to four characters other than NUL is put out as these characters, and the line
-- end where it is asked for.
pub put_name-name_of :
    (text : List ℕ) (crlf : Bool)
    → IsText text
    → 1 ≤ length text
    → length text ≤ 4
    → put_name (name_of text) crlf ≡ text ++ (if crlf then 0x0a ∷ [] else [])
unfolding name_of IsText put_unless_nul
put_name-name_of [] crlf h one four = absurd (omega arith)
put_name-name_of (a ∷ []) crlf h one four =
    octets a 0 0 0 crlf h.0.1 (omega arith) (omega arith) (omega arith)
put_name-name_of (a ∷ b ∷ []) crlf h one four =
    octets a b 0 0 crlf h.0.1 h.1.0.1 (omega arith) (omega arith)
    ∙ ap (λ l. a ∷ l) (put_unless_nul_kept b _ h.1.0.0)
put_name-name_of (a ∷ b ∷ c ∷ []) crlf h one four =
    octets a b c 0 crlf h.0.1 h.1.0.1 h.1.1.0.1 (omega arith)
    ∙ ap (λ l. a ∷ l) (put_unless_nul_kept b _ h.1.0.0)
    ∙ ap (λ l. a ∷ b ∷ l) (put_unless_nul_kept c _ h.1.1.0.0)
put_name-name_of (a ∷ b ∷ c ∷ d ∷ []) crlf h one four =
    octets a b c d crlf h.0.1 h.1.0.1 h.1.1.0.1 h.1.1.1.0.1
    ∙ ap (λ l. a ∷ l) (put_unless_nul_kept b _ h.1.0.0)
    ∙ ap (λ l. a ∷ b ∷ l) (put_unless_nul_kept c _ h.1.1.0.0)
    ∙ ap (λ l. a ∷ b ∷ c ∷ l) (put_unless_nul_kept d _ h.1.1.1.0.0)
put_name-name_of (a ∷ b ∷ c ∷ d ∷ e ∷ text) crlf h one four = absurd (omega arith)
