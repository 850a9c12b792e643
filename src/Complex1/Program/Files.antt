-- ===== src/Complex1/Program/Files.antt =====
-- led/complex1/test.cc: the names of the files, and the choice of one of them.
use rtems_examples.Common.{
  ℕ, zero, suc, ◌≤◌, ◌<◌, Bool, true, false, Option, none, some, List, [], ◌∷◌, ◌++◌, ◌≡◌, refl,
  arith, Bool-cases, ap, ltb, subst, sym, inl, inr,
}
use rtems_examples.Common.Lists.{length, length-append}
use rtems_examples.Common.Int.{ℤ, pos, negsuc}
use rtems_examples.Complex1.Periodic.{Directives, max_periodic}
use rtems_examples.Complex1.Menu.{Line, Strtol, returned, assert_failed, get_selection}
use rtems_examples.Complex1.Menu.Entry.{InBounds}
use rtems_examples.Complex1.Menu.Choice.{
  get_selection-zero, IsCalm, IsCalmRoutine, IsCalm-and_then, IsCalm-le, get_selection-IsCalm,
  name_found,
}
use rtems_examples.Complex1.Program.{
  Program, Tolower, Qsort, readdir_loop, sort_names, mystrcasecmp, return_to_previous_menu,
  load_directory_menu, stat_selected, stat_loaded, stat_file,
}

-- How many names there are: none before they are loaded, and after it 1 to 60.
unfoldable pub Counted : Bool → ℕ → Type 0
Counted false n = n ≡ 0
Counted true n = (1 ≤ n) × (n ≤ 60)

-- So many names, and no more threads than the arrays of periodic.c have elements.
unfoldable pub IsReady : Program → Type 0
IsReady p = Counted p.file_names_loaded (length p.file_names) × (p.threads.count ≤ max_periodic)

-- The library's `qsort` keeps the number of names.
unfoldable pub KeepsLength : Qsort → Type 0
KeepsLength qsort =
    (compare_names : Line → Line → Option ℤ) (names : List Line)
    → length (qsort compare_names names) ≡ length names

readdir-Counted :
    (entries names : List Line)
    → 1 ≤ length names
    → length names < 60
    → Counted true (length (readdir_loop entries names).1)
unfolding Counted readdir_loop
readdir-Counted [] names one fits = (one, omega arith)
readdir-Counted (d ∷ entries) names one fits =
    elim (Bool-cases (ltb (length (names ++ d ∷ [])) 60)) [
      | inl below ↦
          rw (readdir_loop, below)
            (readdir-Counted entries (names ++ d ∷ []) (omega (arith, length-append names (d ∷ [])))
              (ground arith))
      | inr full ↦
          rw (readdir_loop, full)
            (
              omega (arith, length-append names (d ∷ [])),
              omega (arith, length-append names (d ∷ [])),
            )
    ]

sorted-length :
    (tolower : Tolower) (qsort : Qsort) (names : List Line)
    → KeepsLength qsort
    → length (sort_names tolower qsort names) ≡ length names
unfolding sort_names KeepsLength
sorted-length tolower qsort [] keeps = refl
sorted-length tolower qsort (first ∷ names) keeps = ap suc (keeps (mystrcasecmp tolower) names)

module _ (strtol : Strtol) (tolower : Tolower) (qsort : Qsort) (entries : List Line)
    (d : Directives) (bound : ℕ) (keeps : KeepsLength qsort) where
  -- The names are loaded after `LoadDirectoryMenu`, whether they all fitted or not.
  load-Counted :
      (p : Program)
      → IsReady p
      → (load_directory_menu strtol tolower qsort (some entries) d p).1.file_names_loaded ≡ true
        × Counted true
            (length (load_directory_menu strtol tolower qsort (some entries) d p).1.file_names)
  unfolding load_directory_menu IsReady Counted
  load-Counted p ready = elim (Bool-cases p.file_names_loaded) [
    | inl loaded ↦
        rw (load_directory_menu, loaded)
          (refl, subst (λ b. Counted b (length p.file_names)) loaded ready.0)
    | inr fresh ↦
        let empty : length p.file_names ≡ 0 =
          subst (λ b. Counted b (length p.file_names)) fresh ready.0 in
        let start : List Line = p.file_names ++ return_to_previous_menu ∷ [] in
        let one : length start ≡ 1 =
          omega (arith, length-append p.file_names (return_to_previous_menu ∷ [])) in
        let counted = readdir-Counted entries start (omega arith) (omega arith) in
        elim (Bool-cases (readdir_loop entries start).0) [
          | inl fits ↦
              rw (load_directory_menu, fresh, fits)
                (
                  refl,
                  rw (sorted-length tolower qsort (readdir_loop entries start).1 keeps) counted,
                )
          | inr many ↦ rw (load_directory_menu, fresh, many) (refl, counted)
        ]
  ]

  load-threads :
      (p : Program)
      → (load_directory_menu strtol tolower qsort (some entries) d p).1.threads ≡ p.threads
  unfolding load_directory_menu
  load-threads p =
      let start : List Line = p.file_names ++ return_to_previous_menu ∷ [] in
      elim (Bool-cases p.file_names_loaded) [
        | inl loaded ↦ rw loaded refl
        | inr fresh ↦ elim (Bool-cases (readdir_loop entries start).0) [
          | inl fits ↦ rw (fresh, fits) refl
          | inr many ↦ rw (fresh, many) refl
        ]
      ]

  selected-IsCalm :
      (v : ℤ) (p : Program) (lines : List Line) (last : ℕ)
      → suc last ≡ length p.file_names
      → IsReady p
      → InBounds (pos 0) (pos last) v
      → IsCalm IsReady
          (suc (length lines))
          (stat_selected strtol tolower qsort (some entries) d v p lines)
  unfolding IsCalm stat_selected IsReady
  selected-IsCalm (pos zero) p lines last count ready within = (ready, omega arith)
  selected-IsCalm (pos (suc i)) p lines last count ready within =
      let (name, e) = name_found p.file_names (suc i) (ground arith) in
      rw (stat_selected, e) (ready, omega arith)
  selected-IsCalm (negsuc i) p lines last count ready within = absurd (ground arith)

  stat_loaded-IsCalm :
      (names : ℕ) (loaded : Bool) (p : Program) (lines : List Line)
      → names ≡ length p.file_names
      → 1 ≤ names
      → IsReady p
      → IsCalm IsReady
          (suc (length lines))
          (stat_loaded strtol tolower qsort (some entries) d loaded p lines)
  unfolding stat_loaded IsCalm
  stat_loaded-IsCalm zero loaded p lines count one ready = absurd (omega arith)
  stat_loaded-IsCalm (suc last) false p lines count one ready = (ready, omega arith)
  stat_loaded-IsCalm (suc last) true p lines count one ready = rw⁻¹ count (
      IsCalm-and_then (InBounds (pos 0) (pos last)) IsReady (length lines) (suc (length lines))
        (get_selection strtol (suc last) lines)
        (λ selected rest. stat_selected strtol tolower qsort (some entries) d selected p rest)
        (get_selection-IsCalm strtol last lines)
        (λ v rest within fewer.
          IsCalm-le IsReady (suc (length rest)) (suc (length lines))
            (stat_selected strtol tolower qsort (some entries) d v p rest) (omega arith)
            (selected-IsCalm v p rest last count ready within)))

  -- Choosing a file is calm: its number is that of a name, before and after the names are loaded.
  pub stat_file-IsCalm :
      IsCalmRoutine IsReady bound (stat_file strtol tolower qsort (some entries) d)
  unfolding IsCalmRoutine stat_file IsReady Counted
  -- Choosing a file is calm: its number is that of a name, before and after the names are loaded.
  stat_file-IsCalm p lines ready few =
      let r = load_directory_menu strtol tolower qsort (some entries) d p in
      let (loaded, counted) = load-Counted p ready in
      stat_loaded-IsCalm (length r.1.file_names) r.0 r.1 lines refl counted.0
        (rw loaded counted, subst (λ t. t.count ≤ max_periodic) (sym (load-threads p)) ready.1)

module _ (strtol : Strtol) (tolower : Tolower) (qsort : Qsort) (d : Directives) where
  -- Where the current directory cannot be opened, the first choice of "stat() a file" reports it and
  -- returns to the menu, and the next one fails the assertion on the bounds, as no name was loaded.
  pub stat_file-unreadable :
      (p : Program) (lines later : List Line)
      → p.file_names_loaded ≡ false
      → p.file_names ≡ []
      → (stat_file strtol tolower qsort none d p lines
          ≡ returned (record p { file_names_loaded = true }) lines)
        × (stat_file strtol tolower qsort none d (record p { file_names_loaded = true }) later
            ≡ assert_failed)
  unfolding stat_file stat_loaded load_directory_menu
  stat_file-unreadable p lines later fresh empty = (
    rw fresh refl,
    rw
        (
          empty,
          get_selection-zero strtol later (λ selected rest.
              stat_selected strtol tolower qsort none d selected
                (record p { file_names = []; file_names_loaded = true }) rest),
        )
        refl,
  )
