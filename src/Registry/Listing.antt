-- ===== src/Registry/Listing.antt =====
-- What `List` returns.
use mpd_virt_macos.Base.{
  ℕ, ◌+◌, ◌≤◌, Bool, true, false, List, [], ◌∷◌, ◌==◌, nat_eq, ==_eq, ==_self, leb, if◌then◌else◌,
  Result, inl, inr, ok, err, ◌≡◌, ◌∙◌, sym, subst, refl, arith, All, Bool-cases,
}
use mpd_virt_macos.Text.{Text}
use mpd_virt_macos.Fs.{FilePath, Fs, read_dir}
use mpd_virt_macos.Vmid.{ParseError, parse}
use mpd_virt_macos.Registry.{
  Entry, LoadError, load, collect, insert, sort, list, add_loaded, add_named,
}

-- The ids stand in ascending order.
abbrev pub IsSorted : List Entry → Type 0
IsSorted [] = Unit
IsSorted (e ∷ es) = All (λ f. e.id ≤ f.id) es × IsSorted es

All-weaken : (a b : ℕ) (es : List Entry) → a ≤ b → All (λ f. b ≤ f.id) es → All (λ f. a ≤ f.id) es
All-weaken a b [] h k = tt
All-weaken a b (f ∷ es) h k = (omega arith, All-weaken a b es h k.1)

insert-All :
    (P : Entry → Type 0) (e : Entry) (es : List Entry) → P e → All P es → All P (insert e es)
unfolding insert
insert-All P e [] p h = (p, tt)
insert-All P e (f ∷ es) p h = elim (Bool-cases (leb e.id f.id)) [
  | inl c ↦ rw c (p, h)
  | inr c ↦ rw c (h.0, insert-All P e es p h.1)
]

insert-IsSorted : (e : Entry) (es : List Entry) → IsSorted es → IsSorted (insert e es)
unfolding insert
insert-IsSorted e [] h = (tt, tt)
insert-IsSorted e (f ∷ es) h = elim (Bool-cases (leb e.id f.id)) [
  | inl c ↦ rw c ((ground arith, All-weaken e.id f.id es (ground arith) h.0), h)
  | inr c ↦ rw c (insert-All (λ g. f.id ≤ g.id) e es (ground arith) h.0, insert-IsSorted e es h.1)
]

sort-IsSorted : (es : List Entry) → IsSorted (sort es)
unfolding sort
sort-IsSorted [] = tt
sort-IsSorted (e ∷ es) = insert-IsSorted e (sort es) (sort-IsSorted es)

sort-All : (P : Entry → Type 0) (es : List Entry) → All P es → All P (sort es)
unfolding sort
sort-All P [] h = tt
sort-All P (e ∷ es) h = insert-All P e (sort es) h.0 (sort-All P es h.1)

-- How many of the entries have the id.
abbrev pub count : ℕ → List Entry → ℕ
count n [] = 0
count n (e ∷ es) = (if e.id == n then 1 else 0) + count n es

count-insert :
    (n : ℕ) (e : Entry) (es : List Entry)
    → count n (insert e es) ≡ (if e.id == n then 1 else 0) + count n es
unfolding insert
count-insert n e [] = refl
count-insert n e (f ∷ es) = ground (arith, count-insert n e es)

count-sort : (n : ℕ) (es : List Entry) → count n (sort es) ≡ count n es
unfolding sort
count-sort n [] = refl
count-sort n (e ∷ es) = count-insert n e (sort es) ∙ rw (count-sort n es)

pub load_id : (root : FilePath) (id : ℕ) (fs : Fs) {e : Entry} → load root id fs ≡ ok e → e.id ≡ id
unfolding load
load_id root id fs h = ground arith

names_id : ℕ → Result ParseError ℕ → Bool
names_id n (ok m) = m == n
names_id n (err e) = false

-- How many of the directory's names are directories that `Parse` reads as the id.
abbrev pub count_named : ℕ → List (Text × Bool) → ℕ
unfolding names_id
count_named n [] = 0
count_named n ((d, is_dir) ∷ ds) =
    (if is_dir then (if names_id n (parse d) then 1 else 0) else 0) + count_named n ds

module _ (root : FilePath) (fs : Fs) where
  collect-All : (ds : List (Text × Bool)) → All (λ e. load root e.id fs ≡ ok e) (collect root fs ds)
  unfolding collect
  collect-All [] = tt
  collect-All ((d, false) ∷ ds) = collect-All ds
  collect-All ((d, true) ∷ ds) = add_named-All (parse d) (collect root fs ds) (collect-All ds)
    where
      add_loaded-All :
          (id : ℕ) (r : Result LoadError Entry) (es : List Entry)
          → load root id fs ≡ r
          → All (λ e. load root e.id fs ≡ ok e) es
          → All (λ e. load root e.id fs ≡ ok e) (add_loaded r es)
      add_loaded-All id (ok e) es l h =
          (subst (λ k. load root k fs ≡ ok e) (sym (load_id root id fs l)) l, h)
      add_loaded-All id (err x) es l h = h

      add_named-All :
          (r : Result ParseError ℕ) (es : List Entry)
          → All (λ e. load root e.id fs ≡ ok e) es
          → All (λ e. load root e.id fs ≡ ok e) (add_named root fs r es)
      add_named-All (ok id) es h = add_loaded-All id (load root id fs) es refl h
      add_named-All (err x) es h = h

  count-add_named :
      (n : ℕ) (e : Entry) (r : Result ParseError ℕ) (es : List Entry)
      → load root n fs ≡ ok e
      → count n (add_named root fs r es) ≡ (if names_id n r then 1 else 0) + count n es
  unfolding names_id
  count-add_named n e (err x) es h = omega arith
  count-add_named n e (ok m) es h = elim (Bool-cases (m == n)) [
    | inl same ↦ rw (same, ==_eq m n same, h) (rw (load_id root n fs h, ==_self n))
    | inr other ↦ rw other (count-add_other n m (load root m fs) es other refl)
  ]
    where
      count-add_other :
          (n m : ℕ) (r : Result LoadError Entry) (es : List Entry)
          → (m == n) ≡ false
          → load root m fs ≡ r
          → count n (add_loaded r es) ≡ 0 + count n es
      count-add_other n m (ok f) es other l = rw (load_id root m fs l, other)
      count-add_other n m (err x) es other l = omega arith

  count-collect :
      (n : ℕ) (e : Entry) (ds : List (Text × Bool))
      → load root n fs ≡ ok e
      → count n (collect root fs ds) ≡ count_named n ds
  unfolding collect names_id
  count-collect n e [] h = refl
  count-collect n e ((d, false) ∷ ds) h = omega (arith, count-collect n e ds h)
  count-collect n e ((d, true) ∷ ds) h =
      count-add_named n e (parse d) (collect root fs ds) h ∙ rw (count-collect n e ds h)

  -- `List` of a root that can be read returns the entries by ascending id, each as `Load` gives it.
  -- A box whose entry loads is listed once for each directory whose name is read as its id.
  pub list_lem :
      (ds : List (Text × Bool))
      → read_dir root fs ≡ ok ds
      → (es : List Entry) × (list root fs ≡ ok es)
        × IsSorted es
        × All (λ e. load root e.id fs ≡ ok e) es
        × ((n : ℕ) (e : Entry) → load root n fs ≡ ok e → count n es ≡ count_named n ds)
  unfolding list
  list_lem ds h = (
    sort (collect root fs ds),
    rw h,
    sort-IsSorted (collect root fs ds),
    sort-All (λ e. load root e.id fs ≡ ok e) (collect root fs ds) (collect-All ds),
    λ n e l. count-sort n (collect root fs ds) ∙ count-collect n e ds l,
  )
