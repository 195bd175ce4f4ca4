-- ===== src/Io/Numbers.antt =====
-- What a scan finds: which files, in which order, under which ids.
use mathlib.Core.List.{Perm}
use mathlib.Core.List.Perm
use collapsar.Base.{
  ℕ, zero, suc, ◌+◌, ◌%◌, ◌^◌, ◌<◌, ◌≡◌, refl, ap, sym, subst, ◌∙◌, inl, inr, Bool, Bool-cases,
  List, [], ◌∷◌, ◌++◌, map, length, length-append, arith,
}
use collapsar.Core.Status.{Result, ok}
use collapsar.Core.Triple.{After, bind-After}
use collapsar.Core.Blocks.{FilePath, FileEntry}
use collapsar.Io.FileScanner.{
  FileSystem, DirectoryEntry, fetch_id, directory_file, is_some, scan_steps, sort_entries,
  scan_directory, input_file, scan_file, scan_input, scan,
}
use collapsar.Io.Sorted.{sort_entries-Perm, length-sort_entries}

abbrev pub ids : List FileEntry → List ℕ
ids = map (λ e. e.id)

-- `n` numbers from `first` on.
abbrev pub upward : ℕ → ℕ → List ℕ
upward first zero = []
upward first (suc n) = first ∷ upward (first + 1) n

-- Ids from `next` on, each once, and the counter behind them.
abbrev pub AreNumbered : ℕ → List FileEntry → ℕ → Type 0
AreNumbered next entries after =
    next + length entries < 2 ^ 64
    → (after ≡ next + length entries) × Perm (ids entries) (upward next (length entries))

upward-add : (first n m : ℕ) → upward first (n + m) ≡ upward first n ++ upward (first + n) m
upward-add first zero m =
    let none : zero + m ≡ m = omega arith in
    let same : first ≡ first + zero = omega arith in
    ap (upward first) none ∙ ap (λ f. upward f m) same
upward-add first (suc n) m =
    let more : suc n + m ≡ suc (n + m) = omega arith in
    let same : first + 1 + n ≡ first + suc n = omega arith in
    ap (upward first) more
    ∙ ap (◌∷◌ first)
        (upward-add (first + 1) n m ∙ ap (λ f. upward (first + 1) n ++ upward f m) same)

ids-append : (xs ys : List FileEntry) → ids (xs ++ ys) ≡ ids xs ++ ids ys
ids-append [] ys = refl
ids-append (x ∷ xs) ys = ap (◌∷◌ x.id) (ids-append xs ys)

AreNumbered-nil : (next : ℕ) → AreNumbered next [] next
AreNumbered-nil next fits = (omega arith, Perm.refl [])

AreNumbered-cons :
    (next t after : ℕ) (e : FileEntry) (entries : List FileEntry)
    → e.id ≡ next
    → t ≡ (next + 1) % 2 ^ 64
    → AreNumbered t entries after
    → AreNumbered next (e ∷ entries) after
AreNumbered-cons next t after e entries first counter rest fits =
    let here : t ≡ next + 1 = omega (arith, counter, fits) in
    let (there, perm) = rest (omega (arith, fits, here)) in
    (
      omega (arith, there, here),
      subst (λ i. Perm (i ∷ ids entries) (next ∷ upward (next + 1) (length entries))) (sym first)
          (Perm.cons next (subst (λ f. Perm (ids entries) (upward f (length entries))) here perm)),
    )

AreNumbered-append :
    (next t after : ℕ) (xs ys : List FileEntry)
    → AreNumbered next xs t
    → AreNumbered t ys after
    → AreNumbered next (xs ++ ys) after
AreNumbered-append next t after xs ys front back fits =
    let joined : length (xs ++ ys) ≡ length xs + length ys = length-append xs ys in
    let (here, perm) = front (omega (arith, fits, joined)) in
    let (there, perm') = back (omega (arith, fits, joined, here)) in
    (
      omega (arith, there, here, joined),
      subst (λ l. Perm l (upward next (length (xs ++ ys)))) (sym (ids-append xs ys))
          (subst (λ l. Perm (ids xs ++ ids ys) l)
            (sym (ap (upward next) joined ∙ upward-add next (length xs) (length ys)))
            (Perm.append perm (subst (λ f. Perm (ids ys) (upward f (length ys))) here perm'))),
    )

module _ (fs : FileSystem) where
  AreNumbered-sort :
      (next after : ℕ) (entries : List FileEntry)
      → AreNumbered next entries after
      → AreNumbered next (sort_entries fs entries) after
  AreNumbered-sort next after entries numbered fits =
      let same : length (sort_entries fs entries) ≡ length entries =
        length-sort_entries fs entries in
      let (there, perm) = numbered (omega (arith, fits, same)) in
      (
        omega (arith, there, same),
        subst (λ n. Perm (ids (sort_entries fs entries)) (upward next n)) (sym same)
            (Perm.trans (Perm.map (λ e. e.id) (sort_entries-Perm fs entries)) perm),
      )

  abbrev Numbers : ℕ → Result (List FileEntry) × ℕ → Type 0
  Numbers next = After (AreNumbered next) (λ after. Unit)

  scan_steps-Numbers :
      (root : FilePath) (des : List DirectoryEntry) (next : ℕ)
      → Numbers next (scan_steps fs root des next)
  unfolding scan_steps fetch_id directory_file
  scan_steps-Numbers root [] next = AreNumbered-nil next
  scan_steps-Numbers root (de ∷ des) next = elim (Bool-cases de.is_regular_file) [
    | inl file ↦
        rw (scan_steps, file)
          (bind-After (λ id t. (id ≡ next) × (t ≡ (next + 1) % 2 ^ 64)) _ _ _ _ next (refl, refl)
            (λ id t (is, counter).
              bind-After (AreNumbered t) _ _ _ _ t (scan_steps-Numbers root des t)
                (λ rest after numbered.
                  AreNumbered-cons next t after (directory_file fs root de id) rest is counter
                    numbered)))
    | inr other ↦ rw (scan_steps, other) (scan_steps-Numbers root des next)
  ]

  scan_directory-Numbers :
      (input : FilePath) (recurse : Bool) (next : ℕ)
      → Numbers next (scan_directory fs input recurse next)
  unfolding scan_directory
  scan_directory-Numbers input recurse next =
      bind-After (AreNumbered next) _ _ _ _ next
        (scan_steps-Numbers input (fs.walk recurse input).0 next)
        (λ found after numbered. elim (Bool-cases (fs.walk recurse input).1) [
          | inl broken ↦ rw broken tt
          | inr whole ↦ rw whole (AreNumbered-sort next after found numbered)
        ])

  scan_file-Numbers : (input : FilePath) (next : ℕ) → Numbers next (scan_file fs input next)
  unfolding scan_file fetch_id
  scan_file-Numbers input next =
      bind-After (λ id t. (id ≡ next) × (t ≡ (next + 1) % 2 ^ 64)) _ _ _ _ next (refl, refl)
        (λ id t (is, counter). elim (Bool-cases (is_some (fs.last_write_time input))) [
          | inl timed ↦
              rw timed (
                AreNumbered-cons next t t (input_file fs input id) [] is counter
                  (AreNumbered-nil t))
          | inr failed ↦ rw failed tt
        ])

  scan_input-Numbers :
      (recurse : Bool) (input : FilePath) (next : ℕ)
      → Numbers next (scan_input fs recurse input next)
  unfolding scan_input
  scan_input-Numbers recurse input next = elim (Bool-cases (fs.exists input)) [
    | inl there ↦ elim (Bool-cases (fs.is_regular_file input)) [
      | inl file ↦ rw (there, file) (scan_file-Numbers input next)
      | inr other ↦ elim (Bool-cases (fs.is_directory input)) [
        | inl directory ↦ rw (there, other, directory) (scan_directory-Numbers input recurse next)
        | inr none ↦ rw (there, other, none) tt
      ]
    ]
    | inr missing ↦ rw missing tt
  ]

  scan-Numbers :
      (inputs : List FilePath) (recurse : Bool) (next : ℕ)
      → Numbers next (scan fs inputs recurse next)
  unfolding scan
  scan-Numbers [] recurse next = AreNumbered-nil next
  scan-Numbers (input ∷ inputs) recurse next =
      bind-After (AreNumbered next) _ _ _ _ next (scan_input-Numbers recurse input next)
        (λ found t front.
          bind-After (AreNumbered t) _ _ _ _ t (scan-Numbers inputs recurse t)
            (λ rest after back. AreNumbered-append next t after found rest front back))

  -- A scan that succeeds, with ids below 2^64, gives its files the ids from the counter on, each
  -- once, and leaves the counter behind them.
  pub scan-upward :
      (inputs : List FilePath) (recurse : Bool) (next after : ℕ) (entries : List FileEntry)
      → scan fs inputs recurse next ≡ (ok entries, after)
      → next + length entries < 2 ^ 64
      → (after ≡ next + length entries) × Perm (ids entries) (upward next (length entries))
  scan-upward inputs recurse next after entries is =
      subst (Numbers next) is (scan-Numbers inputs recurse next)
