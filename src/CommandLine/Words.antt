-- ===== src/CommandLine/Words.antt =====
-- `parse_arguments` of misc/adamain/rtems_init.c against the words of a line.
use rtems_examples.Common.{
  ℕ, zero, suc, ◌+◌, ◌≤◌, ◌<◌, ◌≡◌, refl, ap, ap₂, sym, ◌∙◌, arith, Bool, true, false, not, List,
  [], ◌∷◌, ◌++◌, leb, if◌then◌else◌, Bool-cases, inl, inr,
}
use rtems_examples.Common.Lists.{length, length-append, All}
use rtems_examples.CommandLine.{
  Arg, offset, most_arguments, Scan, scan, written, until_nul, string_at,
}
use mathlib.Core.List.{map, append_assoc, append-nil}

shifted_suc :
    (cp : ℕ) (ps : List ℕ)
    → map (λ k. offset (cp + 1 + k)) ps ≡ map (λ k. offset (cp + k)) (map suc ps)
shifted_suc cp [] = refl
shifted_suc cp (p ∷ ps) = ap₂ ◌∷◌ (ap offset (omega arith)) (shifted_suc cp ps)

string_at-suc :
    (c : ℕ) (b : List ℕ) (ps : List ℕ) → map (string_at (c ∷ b)) (map suc ps) ≡ map (string_at b) ps
unfolding string_at
string_at-suc c b [] = refl
string_at-suc c b (p ∷ ps) = ap (λ r. string_at b p ∷ r) (string_at-suc c b ps)

begin_word : (c : ℕ) (b : List ℕ) → 0 < c → until_nul (c ∷ b) ≡ c ∷ until_nul b
unfolding until_nul
begin_word zero b h = absurd (omega arith)
begin_word (suc c) b h = refl

string_at-zero : (c : ℕ) (b : List ℕ) → string_at (c ∷ b) 0 ≡ until_nul (c ∷ b)
unfolding string_at
string_at-zero c b = refl

until_nul_zero : (b : List ℕ) → until_nul (0 ∷ b) ≡ []
unfolding until_nul
until_nul_zero b = refl

module _ (is_space : ℕ → Bool) where
  -- The rest of a word that has begun.
  unfoldable pub word_rest : List ℕ → List ℕ
  word_rest [] = []
  word_rest (c ∷ cs) = if is_space c then [] else c ∷ word_rest cs

  -- The words of a line, that is its longest runs of characters that are no spaces; a word that has
  -- begun before the line is left out.
  unfoldable pub words : (in_word : Bool) → List ℕ → List (List ℕ)
  words in_word [] = []
  words true (c ∷ cs) = words (not (is_space c)) cs
  words false (c ∷ cs) =
      let blank = words false cs in
      let word = (c ∷ word_rest cs) ∷ words true cs in if is_space c then blank else word

  pub words_nil : (b : Bool) → words b [] ≡ []
  unfolding words
  words_nil true = refl
  words_nil false = refl

  pub words_space :
      (b : Bool) (c : ℕ) (cs : List ℕ) → is_space c ≡ true → words b (c ∷ cs) ≡ words false cs
  unfolding words
  words_space true c cs e = rw e
  words_space false c cs e = rw e

  pub words_inside :
      (c : ℕ) (cs : List ℕ) → is_space c ≡ false → words true (c ∷ cs) ≡ words true cs
  unfolding words
  words_inside c cs e = rw e

  pub words_begin :
      (c : ℕ) (cs : List ℕ)
      → is_space c ≡ false
      → words false (c ∷ cs) ≡ (c ∷ word_rest cs) ∷ words true cs
  unfolding words
  words_begin c cs e = rw e

  abbrev pub IsText : List ℕ → Type 0
  IsText = All (λ c. 0 < c)

  abbrev pub shifted : ℕ → List ℕ → List Arg
  shifted cp = map (λ k. offset (cp + k))

  -- The loop from `cp` on adds the addresses of the words to `argv`, and each string there is a word.
  pub record Finds (in_word : Bool) (cp : ℕ) (argv : List Arg) (rest : List ℕ) (s : Scan)
      : Type 0 where
    pub places : List ℕ
    pub added : s.argv ≡ argv ++ shifted cp places
    pub strings : map (string_at s.buffer) places ≡ words in_word rest
    pub begun : until_nul s.buffer ≡ (if in_word then word_rest rest else until_nul s.buffer)

  -- One more character that begins no word.
  skipped :
      (in_word : Bool) (c d cp : ℕ) (argv : List Arg) (rest : List ℕ) (s : Scan)
      → (b : Bool) → Finds b (cp + 1) argv rest s
      → words in_word (d ∷ rest) ≡ words b rest
      → until_nul (c ∷ s.buffer)
        ≡ (if in_word then word_rest (d ∷ rest) else until_nul (c ∷ s.buffer))
      → Finds in_word cp argv (d ∷ rest) (written c s)
  skipped in_word c d cp argv rest s b f e w = record {
    places = map suc f.places;
    added = f.added ∙ ap (λ r. argv ++ r) (shifted_suc cp f.places);
    strings = string_at-suc c s.buffer f.places ∙ f.strings ∙ sym e;
    begun = w;
  }

  begun_word :
      (c cp : ℕ) (argv : List Arg) (rest : List ℕ) (s : Scan)
      → Finds true (cp + 1) (argv ++ offset cp ∷ []) rest s
      → words false (c ∷ rest) ≡ (c ∷ word_rest rest) ∷ words true rest
      → 0 < c
      → Finds false cp argv (c ∷ rest) (written c s)
  begun_word c cp argv rest s f e pos = record {
    places = 0 ∷ map suc f.places;
    added =
        f.added
        ∙ append_assoc argv (offset cp ∷ []) _
        ∙ ap (λ r. argv ++ r) (ap₂ ◌∷◌ (ap offset (omega arith)) (shifted_suc cp f.places));
    strings =
        ap₂ ◌∷◌ (string_at-zero c s.buffer ∙ begin_word c s.buffer pos ∙ ap (λ r. c ∷ r) f.begun)
          (string_at-suc c s.buffer f.places ∙ f.strings)
        ∙ sym e;
    begun = refl;
  }

  pub scan-Finds :
      (in_word : Bool) (cp : ℕ) (argv : List Arg) (rest : List ℕ)
      → IsText rest
      → length argv + length (words in_word rest) ≤ most_arguments
      → Finds in_word cp argv rest (scan is_space in_word cp argv rest)
  unfolding scan words word_rest until_nul
  scan-Finds true cp argv [] t h = record {
    places = [];
    added = sym (append-nil argv);
    strings = refl;
    begun = refl;
  }
  scan-Finds false cp argv [] t h = record {
    places = [];
    added = sym (append-nil argv);
    strings = refl;
    begun = refl;
  }
  scan-Finds true cp argv (c ∷ rest) t h = elim (Bool-cases (is_space c)) [
    | inl e ↦
        let f =
          scan-Finds false (cp + 1) argv rest t.1
            (omega (arith, ap length (words_space true c rest e))) in
        rw e (skipped true 0 c cp argv rest _ false f (words_space true c rest e) (rw e))
    | inr e ↦
        let f =
          scan-Finds true (cp + 1) argv rest t.1
            (omega (arith, ap length (words_inside c rest e))) in
        rw e (
          skipped true c c cp argv rest _ true f (words_inside c rest e)
            (rw e (begin_word c _ t.0 ∙ ap (λ r. c ∷ r) f.begun)))
  ]
  scan-Finds false cp argv (c ∷ rest) t h = elim (Bool-cases (is_space c)) [
    | inl e ↦
        let f =
          scan-Finds false (cp + 1) argv rest t.1
            (omega (arith, ap length (words_space false c rest e))) in
        rw e (skipped false 0 c cp argv rest _ false f (words_space false c rest e) refl)
    | inr e ↦
        let n = ap length (words_begin c rest e) in
        let room : leb most_arguments (length argv) ≡ false = ground (arith, n) in
        let f =
          scan-Finds true (cp + 1) (argv ++ offset cp ∷ []) rest t.1
            (omega (arith, n, length-append argv (offset cp ∷ []))) in
        rw (e, room) (begun_word c cp argv rest _ f (words_begin c rest e) t.0)
  ]
